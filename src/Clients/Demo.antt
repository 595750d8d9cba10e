-- ===== src/Clients/Demo.antt =====
-- web/src/features/clients/mock.ts: the demo clients, their details, tickets and journals, with which
-- the store in memory starts. `lower` is `toLowerCase`, `iso` is `toISOString`, and `now` the instant at
-- which the module is loaded, in milliseconds.
pub mod Tickets
pub mod Words
pub mod Laws
use ahmed_sila.Base.{
  ℕ, zero, suc, ◌+◌, ◌-◌, ◌*◌, ◌%◌, Bool, true, false, Option, none, some, List, [], ◌∷◌, ◌++◌,
  length, ◌==◌, if◌then◌else◌,
}
use ahmed_sila.Text.{Text, txt, text_eq, split, nth}
use ahmed_sila.Text.Decimal.{show, read}
use ahmed_sila.Dict
use ahmed_sila.Dict.{Dict}
use ahmed_sila.Clients.Types.{
  ClientStatus, active, trial, paused, ClientPlan, starter, growth, enterprise, Client,
  ClientDetail, JournalEntry,
}
use ahmed_sila.Clients.Store.{Store}
use ahmed_sila.Clients.Demo.Words.{owners, streets, slugs, translit}
use ahmed_sila.Clients.Demo.Tickets.{showcase_id, showcase_tickets}

abbrev pub minute : ℕ
minute = 60000

abbrev pub day : ℕ
day = 24 * 60 * 60000

module _ (iso : ℕ → Text) (now : ℕ) where
  abbrev pub minutes_ago : ℕ → Text
  minutes_ago m = iso (now - m * minute)

  abbrev pub days_from_now : ℕ → Text
  days_from_now d = iso (now + d * day)

  -- A line of `BASE`.
  abbrev pub entry :
      Text → Text → Text → ClientStatus → ClientPlan → ℕ → ℕ → Text → Option Text → Client
  entry id name city status plan employees ago created ends = record {
    id = id;
    name = name;
    city = city;
    status = status;
    plan = plan;
    employees = employees;
    last_active_at = minutes_ago ago;
    created_at = created;
    trial_ends_at = ends;
  }

  -- `BASE`
  abbrev pub base_clients : List Client
  base_clients =
      entry (txt "1") (txt "Магнум Экспресс") (txt "Алматы") active growth 34 12 (txt "2026-02-14")
        none
      ∷ entry (txt "2") (txt "Продукты у дома №4") (txt "Караганда") trial starter 6 60
          (txt "2026-08-02") (some (days_from_now 4))
      ∷ entry (txt "3") (txt "Светофор Тараз") (txt "Тараз") active growth 51 27 (txt "2025-11-19")
          none
      ∷ entry (txt "4") (txt "Айсберг Маркет") (txt "Астана") paused starter 12 (60 * 24 * 9)
          (txt "2026-05-07") none
      ∷ entry (txt "5") (txt "Береке Супермаркет") (txt "Шымкент") active enterprise 88 3
          (txt "2026-01-23") none
      ∷ entry (txt "6") (txt "Дастархан") (txt "Актобе") trial starter 4 (60 * 26)
          (txt "2026-08-05") (some (days_from_now 2))
      ∷ entry (txt "7") (txt "Смак на Абая") (txt "Алматы") active starter 19 120 (txt "2026-03-30")
          none
      ∷ entry (txt "8") (txt "Гросс Опт") (txt "Павлодар") active enterprise 126 8
          (txt "2025-09-11") none
      ∷ entry (txt "9") (txt "Ануар Фрукты") (txt "Кызылорда") paused starter 8 (60 * 24 * 22)
          (txt "2026-06-16") none
      ∷ entry (txt "10") (txt "Небо Маркет") (txt "Усть-Каменогорск") active growth 41 44
          (txt "2025-12-28") none
      ∷ entry (txt "11") (txt "Апельсин") (txt "Семей") trial growth 11 180 (txt "2026-07-29")
          (some (days_from_now 9))
      ∷ entry (txt "12") (txt "Титан Ритейл") (txt "Атырау") active growth 63 5 (txt "2025-10-04")
          none
      ∷ entry (txt "13") (txt "Куаныш Маркет") (txt "Костанай") active starter 22 60
          (txt "2026-04-21") none
      ∷ entry (txt "14") (txt "Наурыз Продукты") (txt "Уральск") paused starter 15 (60 * 24 * 33)
          (txt "2026-02-13") none
      ∷ entry (txt "15") (txt "Восточный Базар") (txt "Туркестан") active growth 37 18
          (txt "2026-06-09") none
      ∷ entry (txt "16") (txt "Родник") (txt "Актау") trial starter 9 (60 * 24) (txt "2026-07-31")
          (some (days_from_now 1))
      ∷ []

abbrev first_unit : Text → Text
first_unit [] = []
first_unit (c ∷ s) = c ∷ []

abbrev or_client : Text → Text
or_client [] = txt "client"
or_client (c ∷ s) = c ∷ s

abbrev pub reason_of : ClientStatus → Option Text
reason_of paused = some (txt "Просрочка оплаты")
reason_of _ = none

module _ (lower : Text → Text) where
  abbrev pub demo_phone : ℕ → Text
  demo_phone i =
      txt "+7 70"
      ++ (show (i % 8)
          ++ (txt " "
              ++ (show (200 + i) ++ (txt " " ++ (show (10 + i) ++ (txt " " ++ show (30 + i)))))))

  abbrev pub demo_email : ℕ → Text → Text
  demo_email i owner =
      lower (first_unit (nth 0 (split b' ' owner)))
      ++ (txt "."
          ++ (translit (lower (nth 1 (split b' ' owner)))
              ++ (txt "@" ++ (or_client (nth i slugs) ++ txt ".kz"))))

  -- `detailOf(client)`
  abbrev pub detail_of : Client → ClientDetail
  detail_of c =
      let i = read c.id - 1 in
      let owner = nth (i % 8) owners in
      record {
        client = c;
        address = c.city ++ (txt ", " ++ nth (i % 8) streets);
        owner_name = owner;
        phone = demo_phone i;
        email = demo_email i owner;
        open_tickets = 0;
        suspended_reason = reason_of c.status;
        activation_code = none;
      }

  abbrev pub detailed : List Client → Dict ClientDetail
  detailed [] = []
  detailed (c ∷ cs) = (c.id, detail_of c) ∷ detailed cs

-- The fields of the showcase client that are set after the map has been made.
abbrev pub showcase : ClientDetail → ClientDetail
showcase c = record c {
  address = txt "Шымкент, ул. Байтурсынова 41";
  owner_name = txt "Ержан Сапаров";
  phone = txt "+7 701 244 18 03";
  email = txt "e.saparov@bereke.kz";
  open_tickets = 2;
}

abbrev pub with_showcase : Dict ClientDetail → Dict ClientDetail
with_showcase [] = []
with_showcase ((k, c) ∷ m) = (k, if text_eq k showcase_id then showcase c else c) ∷ with_showcase m

-- The showcase client's journal.
abbrev pub showcase_journal : List JournalEntry
showcase_journal =
    record {
      id = txt "j1";
      occurred_at = txt "2026-08-14T10:12:00";
      text = txt "Айдар К. сгенерировал новый код подтверждения";
    }
    ∷ record {
      id = txt "j2";
      occurred_at = txt "2026-07-02T16:40:00";
      text = txt "Динара Т. сменила тариф с Growth на Enterprise";
    }
    ∷ record {
      id = txt "j3";
      occurred_at = txt "2026-05-19T09:05:00";
      text = txt "Айдар К. возобновил доступ";
    }
    ∷ record {
      id = txt "j4";
      occurred_at = txt "2026-05-17T18:22:00";
      text = txt "Айдар К. приостановил доступ, причина: просрочка оплаты";
    }
    ∷ record {
      id = txt "j5";
      occurred_at = txt "2026-01-23T12:00:00";
      text = txt "Динара Т. создала клиента";
    }
    ∷ []

-- The store with which the panel starts; `nextId` is one more than the number of clients.
unfoldable pub demo : (Text → Text) → (ℕ → Text) → ℕ → Store
demo lower iso now = record {
  clients = with_showcase (detailed lower (base_clients iso now));
  tickets = (showcase_id, showcase_tickets) ∷ [];
  journal = (showcase_id, showcase_journal) ∷ [];
  next_id = length (base_clients iso now) + 1;
}

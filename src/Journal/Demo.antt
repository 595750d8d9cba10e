-- ===== src/Journal/Demo.antt =====
-- web/src/features/journal/mock.ts: the demo entries. `at d h m` is `atDaysAgo(d, h, m)`: the text of the
-- local time h:m of the day d days before the module is loaded.
use ahmed_sila.Base.{ℕ, Option, none, some, List, [], ◌∷◌}
use ahmed_sila.Text.{Text, txt}
use ahmed_sila.Journal.Types.{
  JournalActionKind, access, clients, subscription, tickets, team, GlobalJournalEntry,
}

module _ (at : (days hour minute : ℕ) → Text) where
  abbrev entry :
      Text → Text → Text → JournalActionKind → Text → Option Text → Option Text → GlobalJournalEntry
  entry id occurred_at actor kind text client_id client_name = record {
    id = id;
    occurred_at = occurred_at;
    actor = actor;
    kind = kind;
    text = text;
    client_id = client_id;
    client_name = client_name;
  }

  -- `ENTRIES`, which `listJournal` copies
  abbrev pub list_journal : List GlobalJournalEntry
  list_journal =
      entry (txt "j-1") (at 2 11 42) (txt "Айдар К.") tickets
        (txt "Ответил в обращении «Не приходит код подтверждения на почту»") (some (txt "5"))
        (some (txt "Береке Супермаркет"))
      ∷ entry (txt "j-2") (at 2 10 12) (txt "Айдар К.") access
          (txt "Сгенерировал новый код подтверждения") (some (txt "5"))
          (some (txt "Береке Супермаркет"))
      ∷ entry (txt "j-3") (at 2 9 30) (txt "Динара Т.") clients
          (txt "Создала клиента, тариф Starter") (some (txt "13")) (some (txt "Куаныш Маркет"))
      ∷ entry (txt "j-4") (at 2 18 22) (txt "Сауле М.") tickets
          (txt "Назначила на себя обращение «Как поменять владельца аккаунта»") (some (txt "12"))
          (some (txt "Титан Ритейл"))
      ∷ entry (txt "j-5") (at 3 15 20) (txt "Динара Т.") access
          (txt "Приостановила доступ, причина: просрочка оплаты") (some (txt "14"))
          (some (txt "Наурыз Продукты"))
      ∷ entry (txt "j-6") (at 3 12 0) (txt "Айдар К.") subscription
          (txt "Перевёл клиента с триала на тариф Growth") (some (txt "12"))
          (some (txt "Титан Ритейл"))
      ∷ entry (txt "j-7") (at 4 16 48) (txt "Динара Т.") clients
          (txt "Создала клиента, тариф Starter") (some (txt "16")) (some (txt "Родник"))
      ∷ entry (txt "j-8") (at 4 11 5) (txt "Айдар К.") access
          (txt "Возобновил доступ после подтверждения оплаты") (some (txt "4"))
          (some (txt "Айсберг Маркет"))
      ∷ entry (txt "j-9") (at 9 17 30) (txt "Сауле М.") team
          (txt "Пригласила сотрудника в команду: r.aliev@example.kz, роль «Поддержка»") (none)
          (none)
      ∷ entry (txt "j-10") (at 12 14 2) (txt "Айдар К.") subscription
          (txt "Изменил тариф с Growth на Enterprise") (some (txt "5"))
          (some (txt "Береке Супермаркет"))
      ∷ entry (txt "j-11") (at 15 9 15) (txt "Динара Т.") clients
          (txt "Изменила контакты владельца") (some (txt "7")) (some (txt "Смак на Абая"))
      ∷ entry (txt "j-12") (at 20 19 40) (txt "Айдар К.") team
          (txt "Отозвал доступ сотрудника команды: m.orazov@example.kz") (none) (none)
      ∷ entry (txt "j-13") (at 35 10 26) (txt "Сауле М.") access
          (txt "Приостановила доступ, причина: запрос клиента") (some (txt "9"))
          (some (txt "Ануар Фрукты"))
      ∷ entry (txt "j-14") (at 50 13 11) (txt "Динара Т.") clients
          (txt "Создала клиента, тариф Growth") (some (txt "11")) (some (txt "Апельсин"))
      ∷ entry (txt "j-15") (at 65 16 55) (txt "Айдар К.") subscription
          (txt "Продлил пробный период на 7 дней") (some (txt "6")) (some (txt "Дастархан"))
      ∷ []

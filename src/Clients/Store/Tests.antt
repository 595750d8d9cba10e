-- ===== src/Clients/Store/Tests.antt =====
-- Instances of the laws of the store of clients.
use ahmed_sila.Base.{ℕ, ◌≡◌, refl, inl, none, some, List, [], ◌∷◌, arith}
use ahmed_sila.Text.{Text, txt, text_eq}
use ahmed_sila.Text.Decimal.{show}
use ahmed_sila.Dict
use ahmed_sila.Clients.Types.{trial, starter, ClientDetail, NewClient}
use ahmed_sila.Clients.Store.{Store, get_client}
use ahmed_sila.Clients.Store.Invariant.{Call, creates, suspends, removes, IsSound, run, run-IsSound}
use ahmed_sila.Clients.Store.Refinement.{answers, replay, seen, Represents, run_refines}

-- `toLowerCase` on texts with no capitals, and an `toISOString` that writes the number.
abbrev pub lower : Text → Text
lower s = s

abbrev draw : ℕ → ℕ
draw k = 4503599627370496

abbrev pub order : NewClient
order = record {
  name = txt "родник";
  address = txt "Актау, ул. Жамбыла 7";
  owner_name = txt "Алия";
  phone = txt "+7 701 000 00 00";
  email = txt "a@rodnik.kz";
  plan = starter;
  trial_days = 14;
}

abbrev empty : Store
empty = record { clients = []; tickets = []; journal = []; next_id = 1 }

abbrev pub rodnik : ClientDetail
rodnik = record {
  client = record {
    id = txt "1";
    name = txt "родник";
    city = txt "Актау";
    status = trial;
    plan = starter;
    employees = 9;
    last_active_at = txt "2026-08-01";
    created_at = txt "2026-07-31";
    trial_ends_at = some (txt "2026-08-14");
  };
  address = txt "Актау, ул. Жамбыла 7";
  owner_name = txt "Алия";
  phone = txt "+7 701 000 00 00";
  email = txt "a@rodnik.kz";
  open_tickets = 0;
  suspended_reason = none;
  activation_code = none;
}

abbrev pub one_client : Store
one_client = record { clients = (txt "1", rodnik) ∷ []; tickets = []; journal = []; next_id = 2 }

first_id : show 1 ≡ txt "1"
unfolding show
first_id = refl

found : get_client (txt "1") one_client ≡ some rodnik
unfolding get_client Dict.get text_eq
found = refl

one_client-IsSound : IsSound one_client
unfolding show Dict.get
one_client-IsSound = record {
  entries = ((refl, inl refl, (1, refl, omega arith)), tt);
  distinct = (refl, tt);
}

abbrev history : List (ℕ × (ℕ → ℕ) × Call)
history =
    (10, draw, creates order)
    ∷ (20, draw, suspends (txt "1") (txt "долг"))
    ∷ (30, draw, removes (txt "2"))
    ∷ []

run-IsSound_example : IsSound (run lower show one_client history)
run-IsSound_example = run-IsSound lower show one_client history one_client-IsSound

run_refines_example :
    (answers lower show one_client history ≡ (replay lower show (seen one_client) history).0)
    × Represents (run lower show one_client history) (replay lower show (seen one_client) history).1
run_refines_example = run_refines lower show one_client (seen one_client) history (record {
  clients_agree = λ j. refl;
  tickets_agree = λ j. refl;
  journal_agree = λ j. refl;
  next_agrees = refl;
})

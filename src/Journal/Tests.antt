-- ===== src/Journal/Tests.antt =====
-- Instances of the laws of the action journal's filters.
use ahmed_sila.Base.{ℕ, ◌*◌, ◌≡◌, ◌≢◌, ◌↔◌, false, none, some, [], ◌∷◌, length, All}
use ahmed_sila.Text.{Text, txt}
use ahmed_sila.Journal.Types.{access, only, custom, GlobalJournalEntry}
use ahmed_sila.Journal.Screen.{State, day, reset_filters}
use ahmed_sila.Journal.Listing.{view, no_matches}
use ahmed_sila.Journal.Listing.Laws.{IsOld, reset_filters-no_matches_iff}

abbrev entry : GlobalJournalEntry
entry = record {
  id = txt "7";
  occurred_at = txt "2026-08-14T09:12:00";
  actor = txt "Айдар";
  kind = access;
  text = txt "сгенерировал новый код";
  client_id = none;
  client_name = none;
}

abbrev state : State
state = record {
  actor = txt "Айдар";
  kind = only access;
  period = custom;
  from_text = txt "01.08.2026";
  to_text = txt "нет";
}

-- A clock whose instants are the lengths of the texts, in days.
abbrev instant : Text → ℕ
instant s = length s * day

abbrev midnight : ℕ → ℕ
midnight d = d * day

reset_filters-no_matches_iff_example :
    (view instant midnight
        (1000 * day)
        (reset_filters state)
        (record { data_found = some (entry ∷ []); is_pending = false; is_error = false })
      ≡ no_matches)
    ↔ (((entry ∷ []) ≢ []) × All (IsOld instant midnight (1000 * day)) (entry ∷ []))
reset_filters-no_matches_iff_example =
    reset_filters-no_matches_iff instant midnight (1000 * day) state (entry ∷ [])

-- ===== src/Journal/Screen/Laws.antt =====
-- Which entries the action journal shows.
use ahmed_sila.Base.{ℕ, ◌+◌, ◌*◌, ◌≤◌, ◌<◌, ◌≡◌, ◌⊎◌, Option, none, some}
use ahmed_sila.Text.{Text}
use ahmed_sila.Format.RuDate.{parse_ru_date}
use ahmed_sila.Journal.Types.{week, month, custom}
use ahmed_sila.Journal.Screen.{State, day}

-- The entry's instant lies in the chosen period. A bound that is no date bounds nothing; the last day
-- counts in full.
abbrev pub Begun : (ℕ → ℕ) → Option ℕ → ℕ → Type 0
Begun midnight none t = Unit
Begun midnight (some d) t = midnight d ≤ t

abbrev pub NotOver : (ℕ → ℕ) → Option ℕ → ℕ → Type 0
NotOver midnight none t = Unit
NotOver midnight (some d) t = t < midnight d + day

abbrev pub InPeriod : (ℕ → ℕ) → ℕ → State → ℕ → Type 0
InPeriod midnight now st t =
    ((st.period ≡ week) × (now ≤ t + 7 * day))
    ⊎ ((st.period ≡ month) × (now ≤ t + 30 * day))
    ⊎ ((st.period ≡ custom)
        × Begun midnight (parse_ru_date st.from_text) t
        × NotOver midnight (parse_ru_date st.to_text) t)

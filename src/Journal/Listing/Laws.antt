-- ===== src/Journal/Listing/Laws.antt =====
-- When the page of the action journal shows which state.
use ahmed_sila.Base.{ℕ, ◌+◌, ◌*◌, ◌<◌, ◌≡◌, ◌≢◌, ◌↔◌, true, false, some, List, [], ◌∷◌, All, arith}
use ahmed_sila.Text.{Text, text_eq}
use ahmed_sila.Journal.Types.{GlobalJournalEntry}
use ahmed_sila.Journal.Screen.{State, day, reset_filters, filtered_entries, within_period}
use ahmed_sila.Journal.Listing.{no_matches, is_empty, show_empty_filtered, view, no_rows}

module _ (instant : Text → ℕ) (midnight : ℕ → ℕ) (now : ℕ) where
  -- An entry from before the last seven days.
  abbrev pub IsOld : GlobalJournalEntry → Type 0
  IsOld e = instant e.occurred_at + 7 * day < now

  no_rows-reset_iff :
      (st : State) (es : List GlobalJournalEntry)
      → (no_rows (filtered_entries instant midnight now (reset_filters st) es) ≡ true)
        ↔ All IsOld es
  unfolding filtered_entries within_period text_eq
  no_rows-reset_iff st [] = ground arith
  no_rows-reset_iff st (e ∷ es) = ground (arith, no_rows-reset_iff st es)

  -- The button that resets the filters goes back to the last seven days, not to the whole journal: the page
  -- then still says that nothing fits the filter exactly when it has entries and all are older.
  pub reset_filters-no_matches_iff :
      (st : State) (es : List GlobalJournalEntry)
      → (view instant midnight now
            (reset_filters st)
            (record { data_found = some es; is_pending = false; is_error = false })
          ≡ no_matches)
        ↔ ((es ≢ []) × All IsOld es)
  unfolding view is_empty show_empty_filtered
  reset_filters-no_matches_iff st es = ground (arith, no_rows-reset_iff st es)

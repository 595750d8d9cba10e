-- ===== src/Journal/Screen.antt =====
-- web/src/features/journal/JournalPage.tsx: the filters and the views of the action journal. Instants
-- are milliseconds. `instant` stands for `new Date(text).getTime()` of an entry's time, and `midnight`
-- for the instant at which the local day with a number (see Format/RuDate) begins.
pub mod Laws
use ahmed_sila.Base.{
  ℕ, ◌+◌, ◌-◌, ◌*◌, Bool, true, false, ◌&&◌, ◌||◌, not, Option, none, some, List, [], ◌∷◌, filter,
  leb, ltb, if◌then◌else◌,
}
use ahmed_sila.Text.{Text, txt, text_eq}
use ahmed_sila.Format.RuDate.{parse_ru_date}
use ahmed_sila.Journal.Types.{
  GlobalJournalEntry, JournalActorFilter, JournalKindFilter, all, only, kind_eq, JournalPeriod,
  week, month, custom,
}

abbrev pub all_actors : Text
all_actors = txt "all"

pub record State : Type 0 where
  pub actor : JournalActorFilter
  pub kind : JournalKindFilter
  pub period : JournalPeriod
  pub from_text : Text
  pub to_text : Text

abbrev pub init : State
init = record { actor = all_actors; kind = all; period = week; from_text = []; to_text = [] }

-- `resetFilters`
abbrev pub reset_filters : State → State
reset_filters st = init

-- One day, in milliseconds
abbrev pub day : ℕ
day = 24 * 60 * 60000

-- `occurred >= now - days * day`, where the difference may be negative
abbrev pub since : ℕ → ℕ → ℕ → Bool
since now days occurred = leb now (occurred + days * day)

-- `fromDate && occurred < fromDate.getTime()`: before the first day
abbrev pub is_before : (ℕ → ℕ) → Option ℕ → ℕ → Bool
is_before midnight none occurred = false
is_before midnight (some d) occurred = ltb occurred (midnight d)

-- `toDate && occurred > toDate.getTime() + day - 1`: after the last day
abbrev pub is_after : (ℕ → ℕ) → Option ℕ → ℕ → Bool
is_after midnight none occurred = false
is_after midnight (some d) occurred = ltb (midnight d + day - 1) occurred

module _ (instant : Text → ℕ) (midnight : ℕ → ℕ) (now : ℕ) where
  unfoldable pub within_period : State → GlobalJournalEntry → Bool
  within_period st e =
      let occurred = instant e.occurred_at in
      elim st.period [
        | week ↦ since now 7 occurred
        | month ↦ since now 30 occurred
        | custom ↦
            not (is_before midnight (parse_ru_date st.from_text) occurred)
            && not (is_after midnight (parse_ru_date st.to_text) occurred)
      ]

  abbrev pub has_actor : State → GlobalJournalEntry → Bool
  has_actor st e = text_eq st.actor all_actors || text_eq e.actor st.actor

  abbrev pub has_kind : JournalKindFilter → GlobalJournalEntry → Bool
  has_kind all e = true
  has_kind (only k) e = kind_eq e.kind k

  unfoldable pub filtered_entries : State → List GlobalJournalEntry → List GlobalJournalEntry
  unfolding within_period
  filtered_entries st es =
      filter (λ e. has_actor st e && (has_kind st.kind e && within_period st e)) es

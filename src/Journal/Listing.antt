-- ===== src/Journal/Listing.antt =====
-- web/src/features/journal/JournalPage.tsx: the text under the title, the states of the page and the rows
-- of the list. `date_time` is `formatDateTime`.
pub mod Laws
use ahmed_sila.Base.{
  ℕ, Bool, true, false, ◌&&◌, not, Option, none, some, List, [], ◌∷◌, ◌++◌, length, if◌then◌else◌,
}
use ahmed_sila.Text.{Text, txt}
use ahmed_sila.Text.Decimal.{show}
use ahmed_sila.Format.Plural.{plural}
use ahmed_sila.Shell.{Tone, ok, warn, danger, muted, accent}
use ahmed_sila.Tickets.Screen.{Query}
use ahmed_sila.Journal.Types.{
  GlobalJournalEntry, JournalActionKind, access, clients, subscription, tickets, team,
  JournalPeriod, week, month, custom,
}
use ahmed_sila.Journal.Screen.{State, filtered_entries}

-- `KIND_TONE` of types.ts
abbrev pub kind_tone : JournalActionKind → Tone
kind_tone access = danger
kind_tone clients = accent
kind_tone subscription = warn
kind_tone tickets = ok
kind_tone team = muted

-- `KIND_DOT`
abbrev pub kind_dot : JournalActionKind → Text
kind_dot access = txt "bg-danger"
kind_dot clients = txt "bg-accent"
kind_dot subscription = txt "bg-warn"
kind_dot tickets = txt "bg-ok"
kind_dot team = txt "bg-ink-muted"

-- `PERIODS`
abbrev pub periods : List (JournalPeriod × Text)
periods = (week, txt "7 дней") ∷ (month, txt "30 дней") ∷ (custom, txt "Произвольный") ∷ []

-- The two fields of dates are there only for a period of one's own.
abbrev pub shows_dates : JournalPeriod → Bool
shows_dates custom = true
shows_dates _ = false

-- `data ?? []`
abbrev pub entries_of : Query (List GlobalJournalEntry) → List GlobalJournalEntry
entries_of q = elim q.data_found [ none ↦ [] | some es ↦ es ]

abbrev pub no_rows : List GlobalJournalEntry → Bool
no_rows [] = true
no_rows (e ∷ es) = false

abbrev pub settled : Query (List GlobalJournalEntry) → Bool
settled q = not q.is_pending && not q.is_error

unfoldable pub is_empty : Query (List GlobalJournalEntry) → Bool
is_empty q = settled q && no_rows (entries_of q)

-- The link and the name of an entry's client; an entry of no client has a dash, as has the empty id.
abbrev pub client_cell : Option Text → Option Text → Option (Text × Option Text)
client_cell none name = none
client_cell (some []) name = none
client_cell (some (c ∷ id)) name = some (txt "/clients/" ++ (c ∷ id), name)

abbrev pub row :
    (Text → Text) → GlobalJournalEntry → Text × Text × Text × Text × Option (Text × Option Text)
row date_time e = (
  date_time e.occurred_at,
  e.actor,
  kind_dot e.kind,
  e.text,
  client_cell e.client_id e.client_name,
)

pub data View : Type 0 where
  error_state skeleton no_entries no_matches : View
  rows : List GlobalJournalEntry → View

module _ (instant : Text → ℕ) (midnight : ℕ → ℕ) (now : ℕ) where
  abbrev pub filtered : State → Query (List GlobalJournalEntry) → List GlobalJournalEntry
  filtered st q = filtered_entries instant midnight now st (entries_of q)

  unfoldable pub show_empty_filtered : State → Query (List GlobalJournalEntry) → Bool
  unfolding is_empty
  show_empty_filtered st q = settled q && not (is_empty q) && no_rows (filtered st q)

  abbrev pub subtitle : State → Query (List GlobalJournalEntry) → Text
  subtitle st q =
      let n = length (filtered st q) in
      if q.is_pending
      then txt "Загружаем журнал"
      else if is_empty q
      then txt "Все действия команды по клиентам собираются здесь"
      else show n
        ++ (txt " "
            ++ (plural n (txt "запись") (txt "записи") (txt "записей") ++ txt " · только просмотр"))

  unfoldable pub view : State → Query (List GlobalJournalEntry) → View
  unfolding is_empty show_empty_filtered
  view st q =
      if q.is_error
      then error_state
      else if q.is_pending
      then skeleton
      else if is_empty q
      then no_entries
      else if show_empty_filtered st q
      then no_matches
      else rows (filtered st q)

-- Whether the rows of chips stand over the list.
abbrev pub shows_filters : Query (List GlobalJournalEntry) → Bool
shows_filters q = settled q && not (is_empty q)

-- ===== src/Clients/Tabs.antt =====
-- web/src/features/clients/tabs: ClientTicketsTab.tsx, ClientJournalTab.tsx and ClientOverviewTab.tsx: what
-- each shows for each state of its query, and the thread's buttons. `date`, `date_time`, `number` and
-- `relative` are the formats of lib/format.ts.
pub mod Laws
pub mod Page
mod Tests
use ahmed_sila.Base.{
  ℕ, Bool, true, false, ◌||◌, Option, none, some, List, [], ◌∷◌, ◌++◌, map, find, if◌then◌else◌,
}
use ahmed_sila.Text.{Text, txt, text_eq, trim}
use ahmed_sila.Format.Plural.{plural}
use ahmed_sila.Clients.Types.{
  TicketStatus, resolved, closed, ticket_status_eq, ticket_status_label, MessageAuthor, client,
  team, TicketMessage, Ticket, JournalEntry, ClientDetail,
}

-- What a list shows: an error, its skeleton, an empty state, its rows, or one opened ticket.
pub data View : Type 0 where
  error_state skeleton empty_state : View
  rows : List (List Text) → View
  thread : Ticket → View

-- `ticket.id === openTicketId`
abbrev pub is_open : Option Text → Ticket → Bool
is_open none t = false
is_open (some id) t = text_eq t.id id

-- `setOpenTicketId` of a row and of the thread's button back.
abbrev pub open_row : Ticket → Option Text
open_row t = some t.id

abbrev pub go_back : Option Text
go_back = none

abbrev pub or_name : Option Text → Text → Text
or_name none other = other
or_name (some name) other = name

module _ (date : Text → Text) where
  abbrev pub ticket_row : Ticket → List Text
  ticket_row t =
      t.subject
      ∷ ticket_status_label t.status
      ∷ or_name t.assignee (txt "Не назначен")
      ∷ date t.last_message_at
      ∷ []

  abbrev pub rows_or_empty : List Ticket → View
  rows_or_empty [] = empty_state
  rows_or_empty (t ∷ ts) = rows (map ticket_row (t ∷ ts))

  abbrev pub thread_or_rows : Option Ticket → List Ticket → View
  thread_or_rows (some t) ts = thread t
  thread_or_rows none ts = rows_or_empty ts

  unfoldable pub tickets_view : (is_error : Bool) → Option (List Ticket) → Option Text → View
  tickets_view true data_ opened_id = error_state
  tickets_view false none opened_id = skeleton
  tickets_view false (some ts) opened_id = thread_or_rows (find (is_open opened_id) ts) ts

-- `TicketThread`: the text over it, and each message with its side.
abbrev pub assignee_text : Ticket → Text
assignee_text t = txt "Назначен: " ++ or_name t.assignee (txt "никто")

abbrev pub from_team : TicketMessage → Bool
from_team m = elim m.author [ team ↦ true | client ↦ false ]

abbrev pub is_blank : Text → Bool
is_blank [] = true
is_blank (c ∷ s) = false

unfoldable pub reply_disabled : Text → (is_pending : Bool) → Bool
reply_disabled reply is_pending = is_blank (trim reply) || is_pending

unfoldable pub solve_disabled : TicketStatus → (is_pending : Bool) → Bool
solve_disabled status is_pending =
    is_pending || ticket_status_eq status resolved || ticket_status_eq status closed

-- The press of the button that sends: what goes to `replyMutation.mutate`.
unfoldable pub on_send : Text → (is_pending : Bool) → Option Text
unfolding reply_disabled
on_send reply is_pending = if reply_disabled reply is_pending then none else some reply

-- Its `onSuccess`: the text is emptied.
abbrev pub on_sent : Text → Text
on_sent reply = []

module _ (date_time : Text → Text) where
  abbrev pub journal_row : JournalEntry → List Text
  journal_row e = date_time e.occurred_at ∷ e.text ∷ []

  abbrev pub journal_rows : List JournalEntry → View
  journal_rows [] = empty_state
  journal_rows (e ∷ es) = rows (map journal_row (e ∷ es))

  unfoldable pub journal_view : (is_error : Bool) → Option (List JournalEntry) → View
  journal_view true data_ = error_state
  journal_view false none = skeleton
  journal_view false (some es) = journal_rows es

-- The cells of ClientOverviewTab: the label and the value, which is a skeleton while there is none.
module _ (number : ℕ → Text) (date_time relative : Text → Text) where
  abbrev pub metrics : Option ClientDetail → List (Text × Option Text)
  metrics none =
      (txt "Сотрудников в системе", none)
      ∷ (txt "Последняя активность", none)
      ∷ (txt "Открытых обращений", none)
      ∷ []
  metrics (some c) =
      (txt "Сотрудников в системе", some (number c.employees))
      ∷ (
        txt "Последняя активность · " ++ date_time c.last_active_at,
        some (relative c.last_active_at),
      )
      ∷ (
        plural c.open_tickets (txt "Открытое обращение") (txt "Открытых обращения")
            (txt "Открытых обращений"),
        some (number c.open_tickets),
      )
      ∷ []

-- The panel of the contacts.
abbrev pub contacts : Option ClientDetail → Option (List (Text × Text))
contacts none = none
contacts (some c) =
    some ((txt "Владелец", c.owner_name) ∷ (txt "Телефон", c.phone) ∷ (txt "Email", c.email) ∷ [])

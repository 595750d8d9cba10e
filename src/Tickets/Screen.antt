-- ===== src/Tickets/Screen.antt =====
-- web/src/features/tickets/TicketsPage.tsx: the filters, the counters and the views of the section of
-- all tickets, and the buttons of an opened ticket.
pub mod Laws
use ahmed_sila.Base.{
  ℕ, zero, suc, Bool, true, false, ◌&&◌, ◌||◌, not, Option, none, some, is_none, List, [], ◌∷◌,
  filter, length, if◌then◌else◌,
}
use ahmed_sila.Text.{Text, text_eq, trim}
use ahmed_sila.Clients.Types.{TicketStatus, opened, in_progress, resolved, closed, ticket_status_eq}
use ahmed_sila.Tickets.Types.{
  GlobalTicket, TicketStatusFilter, all, only, TicketAssigneeFilter, all_key, unassigned_key,
}

-- `STATUSES`
abbrev pub statuses : List TicketStatus
statuses = opened ∷ in_progress ∷ resolved ∷ closed ∷ []

-- The screen's state: the two filters and the opened ticket.
pub record State : Type 0 where
  pub status : TicketStatusFilter
  pub assignee : TicketAssigneeFilter
  pub open_ticket_id : Option Text

abbrev pub init : State
init = record { status = all; assignee = all_key; open_ticket_id = none }

-- What a query has: `data`, `isPending`, `isError`.
pub record Query (A : Type 0) : Type 0 where
  pub data_found : Option A
  pub is_pending : Bool
  pub is_error : Bool

abbrev pub has_status : TicketStatusFilter → GlobalTicket → Bool
has_status all t = true
has_status (only s) t = ticket_status_eq t.status s

-- `ticket.assignee === assignee`
abbrev pub is_assigned : Text → Option Text → Bool
is_assigned name none = false
is_assigned name (some a) = text_eq a name

unfoldable pub has_assignee : TicketAssigneeFilter → GlobalTicket → Bool
has_assignee a t =
    text_eq a all_key
    || (if text_eq a unassigned_key then is_none t.assignee else is_assigned a t.assignee)

unfoldable pub filtered_tickets : State → List GlobalTicket → List GlobalTicket
unfolding has_assignee
filtered_tickets st ts = filter (λ t. has_status st.status t && has_assignee st.assignee t) ts

-- The number on a status chip; `openCount` is the one of `opened`.
unfoldable pub status_count : TicketStatus → List GlobalTicket → ℕ
status_count s ts = length (filter (λ (t : GlobalTicket). ticket_status_eq t.status s) ts)

-- `data ?? []`
abbrev pub tickets_of : Query (List GlobalTicket) → List GlobalTicket
tickets_of q = elim q.data_found [ none ↦ [] | some ts ↦ ts ]

abbrev no_rows : List GlobalTicket → Bool
no_rows [] = true
no_rows (t ∷ ts) = false

abbrev pub settled : Query (List GlobalTicket) → Bool
settled q = not q.is_pending && not q.is_error

unfoldable pub is_empty : Query (List GlobalTicket) → Bool
is_empty q = settled q && no_rows (tickets_of q)

unfoldable pub show_empty_filtered : State → Query (List GlobalTicket) → Bool
unfolding is_empty filtered_tickets
show_empty_filtered st q =
    settled q && not (is_empty q) && no_rows (filtered_tickets st (tickets_of q))

-- What stands under the title.
pub data View : Type 0 where
  error_state skeleton no_tickets no_matches : View
  thread : Text → View
  rows : List GlobalTicket → View

-- `openTicketId ? … : …`, where the empty text counts as none.
abbrev pub opened_id : Option Text → Option Text
opened_id none = none
opened_id (some []) = none
opened_id (some (c ∷ id)) = some (c ∷ id)

abbrev list_view : State → Query (List GlobalTicket) → View
list_view st q =
    if q.is_pending
    then skeleton
    else if is_empty q
    then no_tickets
    else if show_empty_filtered st q
    then no_matches
    else rows (filtered_tickets st (tickets_of q))

unfoldable pub view : State → Query (List GlobalTicket) → View
unfolding is_empty show_empty_filtered filtered_tickets
view st q =
    if q.is_error
    then error_state
    else elim (opened_id st.open_ticket_id) [ some id ↦ thread id | none ↦ list_view st q ]

-- Whether the two rows of chips stand over the list.
unfoldable pub shows_filters : State → Query (List GlobalTicket) → Bool
unfolding is_empty
shows_filters st q = settled q && not (is_empty q) && is_none (opened_id st.open_ticket_id)

abbrev pub set_status : TicketStatusFilter → State → State
set_status s st = record st { status = s }

abbrev pub set_assignee : TicketAssigneeFilter → State → State
set_assignee a st = record st { assignee = a }

abbrev pub open_ticket : Text → State → State
open_ticket id st = record st { open_ticket_id = some id }

abbrev pub back : State → State
back st = record st { open_ticket_id = none }

unfoldable pub reset_filters : State → State
reset_filters st = record st { status = all; assignee = all_key }

abbrev is_blank : Text → Bool
is_blank [] = true
is_blank (c ∷ s) = false

-- `disabled` of the thread's buttons
unfoldable pub send_disabled : Text → Bool → Bool
send_disabled reply sending = is_blank (trim reply) || sending

unfoldable pub resolve_disabled : TicketStatus → Bool → Bool
resolve_disabled status resolving =
    resolving || ticket_status_eq status resolved || ticket_status_eq status closed

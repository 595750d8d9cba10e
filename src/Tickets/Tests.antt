-- ===== src/Tickets/Tests.antt =====
-- Instances of the laws of the section of all tickets.
use ahmed_sila.Base.{true, refl, All, ◌≡◌, false, some, none, List, [], ◌∷◌}
use ahmed_sila.Base.{◌↔◌, ◌⊎◌, Member}
use ahmed_sila.Tickets.Types.{all}
use ahmed_sila.Tickets.Screen.Laws.{Assigned, Member-filtered_tickets_iff}
use ahmed_sila.Text.{txt}
use ahmed_sila.Clients.Types.{opened, closed}
use ahmed_sila.Tickets.Types.{high, only, unassigned_key, GlobalTicket}
use ahmed_sila.Text.{Text, text_eq, trim}
use ahmed_sila.Text.Decimal.{show}
use ahmed_sila.Format.Plural.{plural, select}
use ahmed_sila.Markup.{press, enter, gives}
use ahmed_sila.Tickets.Types.{GlobalTicketDetail}
use ahmed_sila.Tickets.Screen.{
  State, init, Query, filtered_tickets, view, is_empty, show_empty_filtered, shows_filters,
  has_assignee, send_disabled, resolve_disabled, status_count,
}
use ahmed_sila.Tickets.Listing.{container, status_chips}
use ahmed_sila.Tickets.Page.{page, filters, ticket_thread}
use ahmed_sila.Tickets.Page.Session.{
  replied_to, away, Happening, gesture, list_answered, detail_answered, replied, act, redraw,
  happen, visit, start,
}
use ahmed_sila.Tickets.Page.Session.Laws.{IsOrderly, visit-IsOrderly}
use ahmed_sila.Tickets.Page.Session.Draft.{Rewritten, happen-Rewritten}
use ahmed_sila.Tickets.Page.Chips.{Counts, pairs, status_filters, status_chips-filtered_tickets}

abbrev ticket : GlobalTicket
ticket = record {
  id = txt "t-1";
  client_id = txt "5";
  client_name = txt "Береке Супермаркет";
  city = txt "Шымкент";
  subject = txt "Не приходит код";
  status = opened;
  priority = high;
  assignee = none;
  last_message_at = txt "2026-08-14T09:12:00";
  contact_name = txt "Ержан Сапаров";
}

abbrev state : State
state = record { status = only closed; assignee = unassigned_key; open_ticket_id = none }

abbrev loaded : Query (List GlobalTicket)
loaded = record { data_found = some (ticket ∷ []); is_pending = false; is_error = false }

Member-filtered_tickets_iff_example : Member ticket (filtered_tickets state (ticket ∷ [])) ↔ (
    Member ticket (ticket ∷ [])
    × ((only closed ≡ all) ⊎ (only closed ≡ only opened))
    × Assigned unassigned_key ticket)
Member-filtered_tickets_iff_example = Member-filtered_tickets_iff state (ticket ∷ []) ticket

-- The list comes, its ticket is opened, a reply is typed and sent, and it succeeds.
abbrev thread_of : GlobalTicketDetail
thread_of = record { ticket = ticket; messages = [] }

abbrev found : Query GlobalTicketDetail
found = record { data_found = some thread_of; is_pending = false; is_error = false }

abbrev until_sent : List Happening
until_sent =
    list_answered loaded
    ∷ gesture (press 26)
    ∷ detail_answered (txt "t-1") found
    ∷ gesture (enter 12 (txt "Проверили"))
    ∷ gesture (press 13)
    ∷ []

abbrev as_is : Text → Text
as_is t = t

visit-IsOrderly_example : IsOrderly (visit as_is as_is until_sent start).log
visit-IsOrderly_example = visit-IsOrderly as_is as_is until_sent

until_sent_log :
    (visit as_is as_is until_sent start).log ≡ replied_to (txt "t-1") (txt "Проверили") ∷ away ∷ []
unfolding happen act redraw gives page filters ticket_thread view is_empty show_empty_filtered
    shows_filters filtered_tickets has_assignee container send_disabled resolve_disabled
    status_count text_eq trim show plural select
until_sent_log = refl

happen-Rewritten_example :
    Rewritten as_is as_is
      (replied true)
      (visit as_is as_is until_sent start)
      (happen as_is as_is (replied true) (visit as_is as_is until_sent start))
happen-Rewritten_example =
    happen-Rewritten as_is as_is (replied true) (visit as_is as_is until_sent start)

status_chips-filtered_tickets_example :
    All (Counts init (ticket ∷ [])) (pairs (status_chips init (ticket ∷ [])) status_filters)
status_chips-filtered_tickets_example = status_chips-filtered_tickets init (ticket ∷ []) refl

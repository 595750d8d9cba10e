-- ===== src/Tickets/Page.antt =====
-- web/src/features/tickets/TicketsPage.tsx: the page of all tickets as it is drawn, with what its buttons do.
-- `date` is `formatDate` and `date_time` is `formatDateTime`.
pub mod Session
pub mod Chips
use ahmed_sila.Base.{
  ℕ, Bool, true, false, ◌&&◌, not, Option, none, some, is_none, List, [], ◌∷◌, ◌++◌, map, length,
  if◌then◌else◌,
}
use ahmed_sila.Text.{Text, txt, text_eq}
use ahmed_sila.Clients.Types.{TicketStatus, TicketMessage, ticket_status_label}
use ahmed_sila.Team.Types.{TeamMember}
use ahmed_sila.Markup.{
  Choice, Node, heading, span, skeleton, link, button, toggle, row_button, field, select, Markup,
  join, when, filter_chip, error_state, empty_state, ticket_status_dot,
}
use ahmed_sila.Tickets.Types.{
  TicketPriority, low, normal, high, priority_label, priority_options, GlobalTicket,
  GlobalTicketDetail, TicketStatusFilter, all, only, all_key,
}
use ahmed_sila.Tickets.Screen.{
  State, Query, statuses, tickets_of, view, rows, no_tickets, no_matches, thread, shows_filters,
  send_disabled, resolve_disabled,
}
use ahmed_sila.Tickets.Screen
use ahmed_sila.Tickets.Listing.{
  Chip, status_chips, assignee_chips, names_of, subtitle, or_name, Container, container, Busy,
  assignee_line,
}
use ahmed_sila.Tickets.Listing

-- What the handlers of the page do.
pub data Event : Type 0 where
  set_status : TicketStatusFilter → Event
  set_assignee open_ticket typed : Text → Event
  back reset_filters refetch refetch_ticket send assign solve : Event
  change_priority : TicketPriority → Event

-- The chips of the statuses, each with the filter that it sets, and those of the assignees.
abbrev pub chip_of : Chip → Event → Markup Event
chip_of c e = filter_chip c.label c.count c.tone c.selected e

abbrev pub chips : List Chip → List Event → Markup Event
chips [] es = []
chips (c ∷ cs) [] = []
chips (c ∷ cs) (e ∷ es) = chip_of c e ++ chips cs es

abbrev pub status_events : List Event
status_events = set_status all ∷ map (λ s. set_status (only s)) statuses

abbrev pub assignee_events : List Text → List Event
assignee_events names =
    set_assignee all_key ∷ map set_assignee names ++ set_assignee (txt "unassigned") ∷ []

unfoldable pub filters : State → List GlobalTicket → Option (List TeamMember) → Markup Event
filters st ts team =
    span (txt "Статус") ∷ chips (status_chips st ts) status_events
    ++ (span (txt "Назначен") ∷ chips (assignee_chips st team) (assignee_events (names_of team)))

abbrev pub column_headers : List (Node Event)
column_headers =
    span (txt "Клиент")
    ∷ span (txt "Тема")
    ∷ span (txt "Статус")
    ∷ span (txt "Приоритет")
    ∷ span (txt "Назначен")
    ∷ span (txt "Последнее сообщение")
    ∷ []

-- The link of the client stops the press, so that it does not open the ticket.
abbrev pub ticket_row : (Text → Text) → GlobalTicket → Markup Event
ticket_row date t =
    row_button (open_ticket t.id)
      ∷ link (txt "/clients/" ++ t.client_id) t.client_name
      ∷ span t.subject
      ∷ ticket_status_dot t.status
    ++ (span (priority_label t.priority)
        ∷ span (or_name t.assignee (txt "Не назначен"))
        ∷ span (date t.last_message_at)
        ∷ [])

abbrev pub tickets_list : (Text → Text) → List GlobalTicket → Markup Event
tickets_list date ts = column_headers ++ join (map (ticket_row date) ts)

-- Eight rows of placeholders, of which six cells of the seven are drawn.
abbrev pub list_skeleton : Markup Event
list_skeleton = column_headers ++ skeleton ∷ []

abbrev priority_eq : TicketPriority → TicketPriority → Bool
priority_eq low low = true
priority_eq normal normal = true
priority_eq high high = true
priority_eq _ _ = false

abbrev pub message_nodes : (Text → Text) → TicketMessage → Markup Event
message_nodes date_time m = span m.author_name ∷ span (date_time m.sent_at) ∷ span m.text ∷ []

abbrev pub reply_form : Text → Busy → TicketStatus → Markup Event
reply_form draft busy status =
    field draft typed
    ∷ button (txt "Отправить") (send_disabled draft busy.sending) send
    ∷ button (txt "Назначить на себя") busy.assigning assign
    ∷ button (txt "Отметить решённым") (resolve_disabled status busy.resolving) solve
    ∷ []

unfoldable pub ticket_thread : (Text → Text) → GlobalTicketDetail → Text → Busy → Markup Event
ticket_thread date_time t draft busy =
    button (txt "← Все обращения") false back
      ∷ span t.subject
      ∷ span (txt "Клиент: ")
      ∷ link (txt "/clients/" ++ t.client_id) t.client_name
      ∷ span (txt " · " ++ t.city)
      ∷ ticket_status_dot t.status
    ++ (span (txt "Приоритет")
          ∷ select false (
              map
                (λ p. record {
                  label = priority_label p;
                  selected = priority_eq p t.priority;
                  on_choose = change_priority p;
                })
                priority_options)
          ∷ span (assignee_line t)
          ∷ join (map (message_nodes date_time) t.messages)
        ++ reply_form draft busy t.status)

abbrev pub container_nodes : (Text → Text) → Container → Text → Busy → Markup Event
container_nodes date_time Listing.error_state draft busy = error_state refetch_ticket
container_nodes date_time Listing.skeleton draft busy = skeleton ∷ []
container_nodes date_time (Listing.thread t) draft busy = ticket_thread date_time t draft busy

-- What stands under the title: the chips, and the error, the thread, the skeleton, one of the empty states or
-- the list.
abbrev pub body :
    (Text → Text)
    → (Text → Text)
    → Screen.View
    → (Text → Query GlobalTicketDetail)
    → Text
    → Busy
    → Markup Event
body date date_time Screen.error_state q draft busy = error_state refetch
body date date_time (Screen.thread id) q draft busy =
    container_nodes date_time (container (q id)) draft busy
body date date_time Screen.skeleton q draft busy = list_skeleton
body date date_time Screen.no_tickets q draft busy =
    empty_state (txt "Обращений пока нет")
      (txt "Когда клиенты напишут в поддержку, обращения появятся здесь.") (txt "Обновить") refetch
body date date_time Screen.no_matches q draft busy =
    empty_state (txt "Нет обращений по этому фильтру")
      (txt "Измените статус или сотрудника в фильтрах.") (txt "Сбросить фильтры") reset_filters
body date date_time (Screen.rows ts) q draft busy = tickets_list date ts

-- The page's own state, that of the opened thread, and what the queries have, that of a thread under its id.
pub record Page : Type 0 where
  pub screen : State
  pub draft : Text
  pub busy : Busy
  pub list : Query (List GlobalTicket)
  pub details : Text → Query GlobalTicketDetail
  pub team : Option (List TeamMember)

unfoldable pub page : (Text → Text) → (Text → Text) → Page → Markup Event
unfolding filters ticket_thread
page date date_time p =
    heading (txt "Обращения")
      ∷ span (subtitle p.screen p.list)
      ∷ when (shows_filters p.screen p.list) (filters p.screen (tickets_of p.list) p.team)
    ++ body date date_time (view p.screen p.list) p.details p.draft p.busy

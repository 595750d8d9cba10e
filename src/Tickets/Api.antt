-- ===== src/Tickets/Api.antt =====
-- web/src/features/tickets/api.ts and the reads of mock.ts. The demo tickets, which no operation
-- changes, are the state that a call finds in memory.
use ahmed_sila.Base.{Bool, Option, List, [], ◌∷◌, ◌++◌, map, find, if◌then◌else◌}
use ahmed_sila.Text.{Text, txt, text_eq}
use ahmed_sila.Http.{Network, ok, thrown, plain_error, str}
use ahmed_sila.Http.Payloads.{tickets, ticket, message, ticket_row}
use ahmed_sila.Http.Calls.{getting, posting, posting_json, or_error, On, remote, local}
use ahmed_sila.Clients.Types.{TicketStatus, opened, in_progress, resolved, closed, TicketMessage}
use ahmed_sila.Clients.Wire.{TicketMessageWire}
use ahmed_sila.Tickets.Types.{TicketPriority, low, normal, high, GlobalTicket, GlobalTicketDetail}
use ahmed_sila.Tickets.Wire.{GlobalTicketWire, TicketDetailWire}

-- The texts of the status and priority types' members.
abbrev pub status_key : TicketStatus → Text
status_key opened = txt "open"
status_key in_progress = txt "in_progress"
status_key resolved = txt "resolved"
status_key closed = txt "closed"

abbrev pub priority_key : TicketPriority → Text
priority_key low = txt "low"
priority_key normal = txt "normal"
priority_key high = txt "high"

abbrev pub from_wire : GlobalTicketWire → GlobalTicket
from_wire w = record {
  id = w.id;
  client_id = w.client_id;
  client_name = w.client_name;
  city = w.city;
  subject = w.subject;
  status = w.status;
  priority = w.priority;
  assignee = w.assignee;
  last_message_at = w.last_message_at;
  contact_name = w.contact_name;
}

abbrev pub message_from_wire : TicketMessageWire → TicketMessage
message_from_wire m = record {
  id = m.id;
  author = m.author;
  author_name = m.author_name;
  sent_at = m.sent_at;
  text = m.text;
}

abbrev pub detail_from_wire : TicketDetailWire → GlobalTicketDetail
detail_from_wire w = record {
  ticket = from_wire w.ticket;
  messages = map message_from_wire w.messages;
}

abbrev pub Demo : Type 0
Demo = List GlobalTicketDetail

-- `getTicket(id)` of mock.ts
abbrev pub get_ticket : Text → Demo → Option GlobalTicketDetail
get_ticket id = find (λ (t : GlobalTicketDetail). text_eq t.ticket.id id)

abbrev pub ticket_path : Text → Text → Text
ticket_path id rest = txt "/tickets/" ++ (id ++ rest)

module _ (n : Network) (use_mock : Bool) where
  abbrev pub Call : Type 0 → Type 0
  Call A = On n Demo A

  -- `throw new Error(text)`, which the mutations do without a backend
  abbrev pub refused : {A : Type 0} → Text → Call A
  refused text s = (thrown (plain_error text), s)

  unfoldable pub fetch_tickets : Call (List GlobalTicket)
  fetch_tickets =
      if use_mock
      then local n Demo (λ ts. (ok (map (λ (t : GlobalTicketDetail). t.ticket) ts), ts))
      else remote n Demo tickets (txt "/tickets") getting (map from_wire)

  unfoldable pub fetch_ticket : Text → Call GlobalTicketDetail
  fetch_ticket id =
      if use_mock
      then local n Demo
          (λ ts. (or_error (txt "Обращение " ++ (id ++ txt " не найдено")) (get_ticket id ts), ts))
      else remote n Demo ticket (ticket_path id []) getting detail_from_wire

  unfoldable pub reply_to_ticket : Text → Text → Call TicketMessage
  reply_to_ticket id text =
      if use_mock
      then refused (txt "Ответ недоступен в режиме мока")
      else remote n Demo message (ticket_path id (txt "/messages"))
          (posting_json ((txt "text", str text) ∷ [])) message_from_wire

  unfoldable pub assign_ticket_to_self : Text → Call GlobalTicket
  assign_ticket_to_self id =
      if use_mock
      then refused (txt "Назначение недоступно в режиме мока")
      else remote n Demo ticket_row (ticket_path id (txt "/assign")) posting from_wire

  unfoldable pub update_ticket_status : Text → TicketStatus → Call GlobalTicket
  update_ticket_status id status =
      if use_mock
      then refused (txt "Смена статуса недоступна в режиме мока")
      else remote n Demo ticket_row (ticket_path id (txt "/status"))
          (posting_json ((txt "status", str (status_key status)) ∷ [])) from_wire

  unfoldable pub update_ticket_priority : Text → TicketPriority → Call GlobalTicket
  update_ticket_priority id priority =
      if use_mock
      then refused (txt "Смена приоритета недоступна в режиме мока")
      else remote n Demo ticket_row (ticket_path id (txt "/priority"))
          (posting_json ((txt "priority", str (priority_key priority)) ∷ [])) from_wire

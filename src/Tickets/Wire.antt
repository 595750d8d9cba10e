-- ===== src/Tickets/Wire.antt =====
-- The response types of web/src/features/tickets/api.ts.
use ahmed_sila.Base.{Option, List}
use ahmed_sila.Text.{Text}
use ahmed_sila.Clients.Types.{TicketStatus}
use ahmed_sila.Clients.Wire.{TicketMessageWire}
use ahmed_sila.Tickets.Types.{TicketPriority}

pub record GlobalTicketWire : Type 0 where
  pub id : Text
  pub client_id : Text
  pub client_name : Text
  pub city : Text
  pub subject : Text
  pub status : TicketStatus
  pub priority : TicketPriority
  pub assignee : Option Text
  pub contact_name : Text
  pub last_message_at : Text

-- `GlobalTicketWire & { messages: TicketMessageWire[] }`
pub record TicketDetailWire : Type 0 where
  pub ticket : GlobalTicketWire
  pub messages : List TicketMessageWire

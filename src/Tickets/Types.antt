-- ===== src/Tickets/Types.antt =====
-- web/src/features/tickets/types.ts
use ahmed_sila.Base.{Option, List, [], ◌∷◌}
use ahmed_sila.Text.{Text, txt}
use ahmed_sila.Clients.Types.{TicketStatus, TicketMessage}

pub data TicketPriority : Type 0 where
  low normal high : TicketPriority

abbrev pub priority_label : TicketPriority → Text
priority_label low = txt "Низкий"
priority_label normal = txt "Обычный"
priority_label high = txt "Высокий"

abbrev pub priority_options : List TicketPriority
priority_options = low ∷ normal ∷ high ∷ []

pub record GlobalTicket : Type 0 where
  pub id : Text
  pub client_id : Text
  pub client_name : Text
  pub city : Text
  pub subject : Text
  pub status : TicketStatus
  pub priority : TicketPriority
  pub assignee : Option Text
  pub last_message_at : Text
  pub contact_name : Text

-- `interface GlobalTicketDetail extends GlobalTicket`
pub record GlobalTicketDetail : Type 0 where
  pub ticket : GlobalTicket
  pub open ticket use *
  pub messages : List TicketMessage

-- `'all' | TicketStatus`
pub data TicketStatusFilter : Type 0 where
  all : TicketStatusFilter
  only : TicketStatus → TicketStatusFilter

-- `'all' | 'unassigned' | string`: the two key words are texts like any name.
abbrev pub TicketAssigneeFilter : Type 0
TicketAssigneeFilter = Text

abbrev pub all_key : Text
all_key = txt "all"

abbrev pub unassigned_key : Text
unassigned_key = txt "unassigned"

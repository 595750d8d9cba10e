-- ===== src/Clients/Wire.antt =====
-- The response types of web/src/features/clients/api.ts, as the backend spells them.
use ahmed_sila.Base.{ℕ, Bool, Option, List}
use ahmed_sila.Text.{Text}
use ahmed_sila.Clients.Types.{ClientStatus, ClientPlan, TicketStatus, MessageAuthor}

pub record TenantWire : Type 0 where
  pub id : Text
  pub name : Text
  pub city : Text
  pub status : ClientStatus
  pub plan : ClientPlan
  pub employees : ℕ
  pub last_active_at : Option Text
  pub created_at : Text
  pub trial_ends_at : Option Text

pub record ActivationCodeWire : Type 0 where
  pub code : Text
  pub expires_at : Text

-- `interface TenantDetailWire extends TenantWire`
pub record TenantDetailWire : Type 0 where
  pub tenant : TenantWire
  pub open tenant use *
  pub address : Text
  pub owner_name : Text
  pub phone : Text
  pub email : Text
  pub open_tickets : ℕ
  pub suspended_reason : Option Text
  pub activation_code : Option ActivationCodeWire

pub record TicketMessageWire : Type 0 where
  pub id : Text
  pub author : MessageAuthor
  pub author_name : Text
  pub sent_at : Text
  pub text : Text

pub record ClientTicketWire : Type 0 where
  pub id : Text
  pub client_id : Text
  pub subject : Text
  pub status : TicketStatus
  pub assignee : Option Text
  pub last_message_at : Text
  pub messages : List TicketMessageWire

pub record ClientJournalEntryWire : Type 0 where
  pub id : Text
  pub occurred_at : Text
  pub text : Text

pub record TakenWire : Type 0 where
  pub taken : Bool

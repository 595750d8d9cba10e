-- ===== src/Http/Payloads.antt =====
-- The types at which the panel reads the `data` of a response: the type arguments of `request<T>`.
-- A response is taken to have the shape that the call's type argument names, which TypeScript does
-- not check.
use ahmed_sila.Base.{List}
use ahmed_sila.Text.{Text}
use ahmed_sila.Clients.Wire.{
  TenantWire, TenantDetailWire, ClientTicketWire, ClientJournalEntryWire, TakenWire,
  TicketMessageWire,
}
use ahmed_sila.Tickets.Wire.{GlobalTicketWire, TicketDetailWire}
use ahmed_sila.Team.Wire.{TeamMemberWire, InvitationWire}
use ahmed_sila.Settings.Wire.{SettingsWire, TemplateWire}
use ahmed_sila.Overview.Wire.{OverviewWire}
use ahmed_sila.Journal.Wire.{JournalEntryWire}

-- `UserResponse` and `LoginResponse` of web/src/features/auth/api.ts
pub record UserResponse : Type 0 where
  pub id : Text
  pub email : Text
  pub full_name : Text
  pub role : Text
  pub permissions : List Text

pub record LoginResponse : Type 0 where
  pub access_token : Text
  pub user : UserResponse

pub data Shape : Type 0 where
  refreshed login user nothing : Shape
  tenants tenant client_tickets client_journal taken : Shape
  tickets ticket message ticket_row : Shape
  members invitation member : Shape
  settings template overview journal : Shape

-- `refreshed` is `{ access_token: string }`.
abbrev pub El : Shape → Type 0
El refreshed = Text
El login = LoginResponse
El user = UserResponse
El nothing = Unit
El tenants = List TenantWire
El tenant = TenantDetailWire
El client_tickets = List ClientTicketWire
El client_journal = List ClientJournalEntryWire
El taken = TakenWire
El tickets = List GlobalTicketWire
El ticket = TicketDetailWire
El message = TicketMessageWire
El ticket_row = GlobalTicketWire
El members = List TeamMemberWire
El invitation = InvitationWire
El member = TeamMemberWire
El settings = SettingsWire
El template = TemplateWire
El overview = OverviewWire
El journal = List JournalEntryWire

-- ===== src/Clients/Types.antt =====
-- web/src/features/clients/types.ts. Union types are data types; an optional field and a field
-- that may be null are both `Option`. The constructor `opened` is the status 'open'.
use ahmed_sila.Base.{ℕ, ◌≡◌, ◌↔◌, Bool, true, false, Option, List, [], ◌∷◌, arith}
use ahmed_sila.Text.{Text, txt}

pub data ClientStatus : Type 0 where
  active trial paused : ClientStatus

pub data ClientPlan : Type 0 where
  starter growth enterprise : ClientPlan

pub record Client : Type 0 where
  pub id : Text
  pub name : Text
  pub city : Text
  pub status : ClientStatus
  pub plan : ClientPlan
  pub employees : ℕ
  pub last_active_at : Text
  pub created_at : Text
  pub trial_ends_at : Option Text

pub record ActivationCode : Type 0 where
  pub code : Text
  pub expires_at : Text

-- `interface ClientDetail extends Client`
pub record ClientDetail : Type 0 where
  pub client : Client
  pub open client use *
  pub address : Text
  pub owner_name : Text
  pub phone : Text
  pub email : Text
  pub open_tickets : ℕ
  pub suspended_reason : Option Text
  pub activation_code : Option ActivationCode

pub record NewClient : Type 0 where
  pub name : Text
  pub address : Text
  pub owner_name : Text
  pub phone : Text
  pub email : Text
  pub plan : ClientPlan
  pub trial_days : ℕ

-- The texts of the plan type's members.
abbrev pub plan_key : ClientPlan → Text
plan_key starter = txt "Starter"
plan_key growth = txt "Growth"
plan_key enterprise = txt "Enterprise"

-- `PLANS`: each plan with its hint
abbrev pub plans : List (ClientPlan × Text)
plans =
    (starter, txt "До 15 сотрудников, базовые задачи и смены")
    ∷ (growth, txt "До 60 сотрудников, заявки на закупку, приоритетная поддержка")
    ∷ (enterprise, txt "Без ограничения по сотрудникам, отдельный менеджер")
    ∷ []

-- `'all' | ClientStatus`
pub data ClientFilter : Type 0 where
  all : ClientFilter
  only : ClientStatus → ClientFilter

abbrev pub status_label : ClientStatus → Text
status_label active = txt "Активен"
status_label trial = txt "Триал"
status_label paused = txt "На паузе"

-- The texts of the filter type's members, as they stand in the address.
abbrev pub filter_key : ClientFilter → Text
filter_key all = txt "all"
filter_key (only active) = txt "active"
filter_key (only trial) = txt "trial"
filter_key (only paused) = txt "paused"

-- `FILTERS`: each filter with its label
abbrev pub filters : List (ClientFilter × Text)
filters =
    (all, txt "Все")
    ∷ (only active, txt "Активные")
    ∷ (only trial, txt "Триал")
    ∷ (only paused, txt "На паузе")
    ∷ []

-- `a === b` on statuses
abbrev pub status_eq : ClientStatus → ClientStatus → Bool
status_eq active active = true
status_eq trial trial = true
status_eq paused paused = true
status_eq _ _ = false

pub status_eq_iff : (a b : ClientStatus) → (status_eq a b ≡ true) ↔ (a ≡ b)
status_eq_iff a b = ground arith

pub data TicketStatus : Type 0 where
  opened in_progress resolved closed : TicketStatus

abbrev pub ticket_status_label : TicketStatus → Text
ticket_status_label opened = txt "Открыто"
ticket_status_label in_progress = txt "В работе"
ticket_status_label resolved = txt "Решено"
ticket_status_label closed = txt "Закрыто"

abbrev pub ticket_status_eq : TicketStatus → TicketStatus → Bool
ticket_status_eq opened opened = true
ticket_status_eq in_progress in_progress = true
ticket_status_eq resolved resolved = true
ticket_status_eq closed closed = true
ticket_status_eq _ _ = false

pub ticket_status_eq_iff : (a b : TicketStatus) → (ticket_status_eq a b ≡ true) ↔ (a ≡ b)
ticket_status_eq_iff a b = ground arith

pub data MessageAuthor : Type 0 where
  client team : MessageAuthor

pub record TicketMessage : Type 0 where
  pub id : Text
  pub author : MessageAuthor
  pub author_name : Text
  pub sent_at : Text
  pub text : Text

pub record Ticket : Type 0 where
  pub id : Text
  pub client_id : Text
  pub subject : Text
  pub status : TicketStatus
  pub assignee : Option Text
  pub last_message_at : Text
  pub messages : List TicketMessage

pub record JournalEntry : Type 0 where
  pub id : Text
  pub occurred_at : Text
  pub text : Text

-- ===== src/Overview/Types.antt =====
-- web/src/features/overview/types.ts
use ahmed_sila.Base.{ℕ, Option, List}
use ahmed_sila.Base.Int.{ℤ}
use ahmed_sila.Text.{Text}

pub data OverviewMetricKey : Type 0 where
  active_clients trial_clients open_tickets paused_clients : OverviewMetricKey

pub record OverviewMetric : Type 0 where
  pub key : OverviewMetricKey
  pub value : ℕ
  pub delta : Option ℤ

pub record ExpiringTrial : Type 0 where
  pub client_id : Text
  pub name : Text
  pub ends_at : Text

pub data OverviewEventKind : Type 0 where
  client_created ticket_opened access_paused client_activated other : OverviewEventKind

pub record OverviewEvent : Type 0 where
  pub id : Text
  pub occurred_at : Text
  pub kind : OverviewEventKind
  pub text : Text

pub record Overview : Type 0 where
  pub period_days : ℕ
  pub total_clients : ℕ
  pub metrics : List OverviewMetric
  pub expiring_trials : List ExpiringTrial
  pub events : List OverviewEvent

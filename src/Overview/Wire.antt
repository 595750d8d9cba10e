-- ===== src/Overview/Wire.antt =====
-- The response type of web/src/features/overview/api.ts.
use ahmed_sila.Base.{ℕ, List}
use ahmed_sila.Text.{Text}
use ahmed_sila.Overview.Types.{OverviewMetric, OverviewEventKind}

pub record ExpiringTrialWire : Type 0 where
  pub client_id : Text
  pub name : Text
  pub ends_at : Text

pub record OverviewEventWire : Type 0 where
  pub id : ℕ
  pub occurred_at : Text
  pub kind : OverviewEventKind
  pub text : Text

pub record OverviewWire : Type 0 where
  pub period_days : ℕ
  pub total_clients : ℕ
  pub metrics : List OverviewMetric
  pub expiring_trials : List ExpiringTrialWire
  pub events : List OverviewEventWire

-- ===== src/Overview/Api.antt =====
-- web/src/features/overview/api.ts
use ahmed_sila.Base.{ℕ, Bool, List, map, if◌then◌else◌}
use ahmed_sila.Text.{Text, txt}
use ahmed_sila.Text.Decimal.{show}
use ahmed_sila.Http.{Network, ok}
use ahmed_sila.Http.Payloads.{overview}
use ahmed_sila.Http.Calls.{getting, On, remote, local}
use ahmed_sila.Clients.Store
use ahmed_sila.Overview.Types.{ExpiringTrial, OverviewEvent, Overview}
use ahmed_sila.Overview.Wire.{ExpiringTrialWire, OverviewEventWire, OverviewWire}
use ahmed_sila.Overview.Build.{build_overview}

abbrev pub trial_from_wire : ExpiringTrialWire → ExpiringTrial
trial_from_wire t = record { client_id = t.client_id; name = t.name; ends_at = t.ends_at }

abbrev pub event_from_wire : OverviewEventWire → OverviewEvent
event_from_wire e = record {
  id = show e.id;
  occurred_at = e.occurred_at;
  kind = e.kind;
  text = e.text;
}

abbrev pub from_wire : OverviewWire → Overview
from_wire w = record {
  period_days = w.period_days;
  total_clients = w.total_clients;
  metrics = w.metrics;
  expiring_trials = map trial_from_wire w.expiring_trials;
  events = map event_from_wire w.events;
}

-- The parameters after `use_mock` are those of `build_overview`.
unfoldable pub fetch_overview :
    (n : Network)
    → Bool
    → (Text → ℕ)
    → (Text → Text → Bool)
    → List OverviewEvent
    → ℕ
    → On n Store.Store Overview
fetch_overview n use_mock instant le events now =
    if use_mock
    then local n Store.Store (λ s. (ok (build_overview instant le events now s), s))
    else remote n Store.Store overview (txt "/overview") getting from_wire

-- ===== src/Overview/Build.antt =====
-- web/src/features/overview/mock.ts: the overview that is counted from the store of clients in memory.
-- Parameters: `instant` is `new Date(text).getTime()`, in milliseconds; `le a b` says that
-- `a.localeCompare(b)` is not positive; `events` are the demo events, which nothing changes.
pub mod Laws
use ahmed_sila.Base.{
  ℕ, ◌+◌, ◌*◌, Bool, true, false, ◌&&◌, Option, none, some, List, [], ◌∷◌, ◌++◌, filter, leb, take,
  length, if◌then◌else◌,
}
use ahmed_sila.Base.Int.{pos, negsuc}
use ahmed_sila.Text.{Text}
use ahmed_sila.Clients.Types.{ClientStatus, active, trial, paused, status_eq, Client}
use ahmed_sila.Clients.Store
use ahmed_sila.Overview.Types.{
  active_clients, trial_clients, open_tickets, paused_clients, OverviewMetric, ExpiringTrial,
  OverviewEvent, Overview,
}

abbrev pub period_days : ℕ
period_days = 7

-- `TRIAL_HORIZON_DAYS`, in milliseconds
abbrev pub horizon : ℕ
horizon = 14 * (24 * 60 * 60000)

abbrev pub trials_shown : ℕ
trials_shown = 5

abbrev pub open_ticket_count : ℕ
open_ticket_count = 7

-- `client.trialEndsAt`, where the empty text counts as none
abbrev pub trial_of : Client → Option Text → List ExpiringTrial
trial_of c none = []
trial_of c (some []) = []
trial_of c (some (x ∷ ends)) = record { client_id = c.id; name = c.name; ends_at = x ∷ ends } ∷ []

-- `flatMap`
unfoldable pub trials : List Client → List ExpiringTrial
trials [] = []
trials (c ∷ cs) = (if status_eq c.status trial then trial_of c c.trial_ends_at else []) ++ trials cs

unfoldable pub count : ClientStatus → List Client → ℕ
count s cs = length (filter (λ (c : Client). status_eq c.status s) cs)

-- `sort`, which keeps the order of equal elements.
unfoldable pub insert :
    (Text → Text → Bool) → ExpiringTrial → List ExpiringTrial → List ExpiringTrial
insert le t [] = t ∷ []
insert le t (u ∷ us) =
    let rest = insert le t us in if le t.ends_at u.ends_at then t ∷ u ∷ us else u ∷ rest

unfoldable pub sort : (Text → Text → Bool) → List ExpiringTrial → List ExpiringTrial
unfolding insert
sort le [] = []
sort le (t ∷ ts) = insert le t (sort le ts)

abbrev pub metrics_of : List Client → List OverviewMetric
metrics_of cs =
    record { key = active_clients; value = count active cs; delta = some (pos 4) }
    ∷ record { key = trial_clients; value = count trial cs; delta = some (pos 2) }
    ∷ record { key = open_tickets; value = open_ticket_count; delta = some (negsuc 2) }
    ∷ record { key = paused_clients; value = count paused cs; delta = none }
    ∷ []

abbrev pub events_of : List OverviewEvent → List Client → List OverviewEvent
events_of events [] = []
events_of events (c ∷ cs) = events

module _ (instant : Text → ℕ) (le : Text → Text → Bool) (events : List OverviewEvent)
    (now : ℕ) where
  unfoldable pub expiring : List Client → List ExpiringTrial
  unfolding trials sort
  expiring cs = take trials_shown (
      sort le (filter (λ (t : ExpiringTrial). leb (instant t.ends_at) (now + horizon)) (trials cs)))

  -- `buildOverview()`
  unfoldable pub build_overview : Store.Store → Overview
  unfolding expiring
  build_overview s =
      let cs = Store.list_clients s in
      record {
        period_days = period_days;
        total_clients = length cs;
        metrics = metrics_of cs;
        expiring_trials = expiring cs;
        events = events_of events cs;
      }

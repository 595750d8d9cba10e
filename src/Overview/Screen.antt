-- ===== src/Overview/Screen.antt =====
-- web/src/features/overview/OverviewPage.tsx: the texts, the choice between its states, and the rows of
-- its two panels. `date` and `date_time` are `formatDate` and `formatDateTime`, which call Intl; `instant`
-- is `new Date(text).getTime()`, in milliseconds.
pub mod Laws
use ahmed_sila.Base.{
  ℕ, ◌+◌, ◌-◌, ◌*◌, ◌/◌, Bool, true, false, Option, none, some, List, [], ◌∷◌, ◌++◌, map, leb, ◌==◌,
  if◌then◌else◌,
}
use ahmed_sila.Base.Int.{ℤ}
use ahmed_sila.Text.{Text, txt}
use ahmed_sila.Text.Decimal.{show}
use ahmed_sila.Format.Plural.{plural}
use ahmed_sila.Overview.Types.{
  OverviewMetricKey, active_clients, trial_clients, open_tickets, paused_clients, OverviewMetric,
  ExpiringTrial, OverviewEventKind, client_created, ticket_opened, access_paused, client_activated,
  other, OverviewEvent, Overview,
}

-- `EVENT_DOT`
abbrev pub event_dot : OverviewEventKind → Text
event_dot client_created = txt "bg-accent"
event_dot ticket_opened = txt "bg-warn"
event_dot access_paused = txt "bg-danger"
event_dot client_activated = txt "bg-ok"
event_dot other = txt "bg-ink-muted"

-- `METRIC_LABEL`
abbrev pub metric_label : OverviewMetricKey → Text
metric_label active_clients = txt "Активных клиентов"
metric_label trial_clients = txt "На триале"
metric_label open_tickets = txt "Открытых обращений"
metric_label paused_clients = txt "Клиентов на паузе"

abbrev zero_metric : OverviewMetricKey → OverviewMetric
zero_metric key = record { key = key; value = 0; delta = none }

-- `PLACEHOLDER_METRICS`
abbrev pub placeholder_metrics : List OverviewMetric
placeholder_metrics =
    zero_metric active_clients
    ∷ zero_metric trial_clients
    ∷ zero_metric open_tickets
    ∷ zero_metric paused_clients
    ∷ []

-- `data?.totalClients === 0`
unfoldable pub is_empty : Option Overview → Bool
is_empty none = false
is_empty (some o) = o.total_clients == 0

abbrev pub day : ℕ
day = 24 * 60 * 60000

-- `Math.ceil((end - now) / day)`, where a number that is not positive is written as 0.
unfoldable pub days_left : (ends now : ℕ) → ℕ
days_left ends now = (ends - now + (day - 1)) / day

-- `formatDaysLeft`
abbrev pub days_text : ℕ → Text
days_text days =
    if leb days 0
    then txt "сегодня"
    else show days ++ (txt " " ++ plural days (txt "день") (txt "дня") (txt "дней"))

unfoldable pub format_days_left : (Text → ℕ) → Text → ℕ → Text
unfolding days_left
format_days_left instant ends_at now = days_text (days_left (instant ends_at) now)

-- A cell of the row of numbers.
pub record Cell : Type 0 where
  pub label : Text
  pub value : ℕ
  pub delta : Option ℤ

abbrev pub cell_of : OverviewMetric → Cell
cell_of m = record { label = metric_label m.key; value = m.value; delta = m.delta }

abbrev pub metrics_or_zero : Option Overview → List OverviewMetric
metrics_or_zero none = placeholder_metrics
metrics_or_zero (some o) = o.metrics

-- What stands in a panel.
pub data Rows : Type 0 where
  skeleton : ℕ → Rows
  lines : List (List Text) → Rows
  placeholder : Text → Rows

abbrev pub lines_or : Text → List (List Text) → Rows
lines_or text [] = placeholder text
lines_or text (l ∷ ls) = lines (l ∷ ls)

-- What stands below the header.
pub data View : Type 0 where
  error_state : View
  empty_state : View
  panels : (loading : Bool) → List Cell → (trials events : Rows) → View

module _ (date date_time : Text → Text) (instant : Text → ℕ) (now : ℕ) where
  -- `TrialRow`: the link, the name, the days that are left and the date
  abbrev pub trial_row : ExpiringTrial → List Text
  trial_row t =
      (txt "/clients/" ++ t.client_id)
      ∷ t.name
      ∷ format_days_left instant t.ends_at now
      ∷ date t.ends_at
      ∷ []

  -- `EventRow`: the time, the dot and the text
  abbrev pub event_row : OverviewEvent → List Text
  event_row e = date_time e.occurred_at ∷ event_dot e.kind ∷ e.text ∷ []

  abbrev pub trial_rows : Bool → Option Overview → Rows
  trial_rows true o = skeleton 5
  trial_rows false none = placeholder (txt "Ближайших окончаний триала нет")
  trial_rows false (some o) =
      lines_or (txt "Ближайших окончаний триала нет") (map trial_row o.expiring_trials)

  abbrev pub event_rows : Bool → Option Overview → Rows
  event_rows true o = skeleton 7
  event_rows false none = placeholder (txt "Событий пока нет")
  event_rows false (some o) = lines_or (txt "Событий пока нет") (map event_row o.events)

  unfoldable pub view : (is_error is_pending : Bool) → Option Overview → View
  unfolding is_empty
  view is_error is_pending data_ =
      if is_error
      then error_state
      else if is_empty data_
      then empty_state
      else panels is_pending (map cell_of (metrics_or_zero data_)) (trial_rows is_pending data_)
          (event_rows is_pending data_)

  -- The text under the title; `updated` is `formatDateTime` of `dataUpdatedAt`.
  abbrev pub period_text : Text → Option Overview → Text
  period_text updated none = txt "Не удалось загрузить данные"
  period_text updated (some o) =
      txt "Данные за "
      ++ (show o.period_days
          ++ (txt " "
              ++ (plural o.period_days (txt "день") (txt "дня") (txt "дней")
                  ++ (txt " · обновлено " ++ updated))))

  unfoldable pub subtitle : Bool → Text → Option Overview → Text
  unfolding is_empty
  subtitle is_pending updated data_ =
      if is_pending
      then txt "Загружаем данные"
      else if is_empty data_
      then txt "Клиентов пока нет"
      else period_text updated data_

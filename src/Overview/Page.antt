-- ===== src/Overview/Page.antt =====
-- web/src/features/overview/OverviewPage.tsx: the page as it is drawn. `date`, `date_time` and `number` are the formats of
-- lib/format.ts, `instant` is `new Date(text).getTime()`.
pub mod Laws
use ahmed_sila.Base.{ℕ, Bool, true, false, Option, none, some, List, [], ◌∷◌, ◌++◌, map}
use ahmed_sila.Base.Int.{ℤ}
use ahmed_sila.Text.{Text, txt}
use ahmed_sila.Shell.{Tone, ok, warn, danger, muted, accent}
use ahmed_sila.Markup.{Node, heading, span, tone_dot, link, Markup, join, repeated, metrics, panel}
use ahmed_sila.Markup
use ahmed_sila.Overview.Types.{
  ExpiringTrial, OverviewEventKind, client_created, ticket_opened, access_paused, client_activated,
  other, OverviewEvent, Overview,
}
use ahmed_sila.Overview.Screen.{
  Cell, format_days_left, subtitle, View, error_state, empty_state, panels, view,
}

-- What the handlers of the page do: ask again, and go to the form of a new client.
pub data Event : Type 0 where
  refetch create_client : Event

-- The tone of `EVENT_DOT`.
abbrev pub event_tone : OverviewEventKind → Tone
event_tone client_created = accent
event_tone ticket_opened = warn
event_tone access_paused = danger
event_tone client_activated = ok
event_tone other = muted

-- `PanelLink`: a text where there is no address to go to.
abbrev pub panel_link : Option Text → Text → Markup Event
panel_link none label = span label ∷ []
panel_link (some []) label = span label ∷ []
panel_link (some (c ∷ to)) label = link (c ∷ to) label ∷ []

-- `PanelPlaceholder`
abbrev pub panel_placeholder : Text → Markup Event
panel_placeholder label = span label ∷ []

-- A cell of `SkeletonRows`: nothing is drawn in the ruler's column.
abbrev skeleton_cell : Bool → Markup Event
skeleton_cell true = Markup.skeleton ∷ []
skeleton_cell false = span [] ∷ []

abbrev pub skeleton_rows : List Bool → ℕ → Markup Event
skeleton_rows widths count = repeated count (join (map skeleton_cell widths))

-- `TRIALS_SKELETON`, `EVENTS_SKELETON`: whether the column has a width.
abbrev pub trials_skeleton : List Bool
trials_skeleton = true ∷ false ∷ true ∷ true ∷ []

abbrev pub events_skeleton : List Bool
events_skeleton = true ∷ false ∷ true ∷ []

abbrev pub trial_headers : Markup Event
trial_headers = span (txt "Клиент") ∷ span (txt "Осталось") ∷ span (txt "Дата окончания") ∷ []

abbrev pub metric_cell : Cell → Text × ℕ × Option ℤ
metric_cell c = (c.label, c.value, c.delta)

module _ (date date_time : Text → Text) (number : ℕ → Text) (instant : Text → ℕ) (now : ℕ) where
  -- `TrialRow`
  abbrev pub trial_nodes : ExpiringTrial → Markup Event
  trial_nodes t =
      tone_dot warn
      ∷ link (txt "/clients/" ++ t.client_id) t.name
      ∷ span (format_days_left instant t.ends_at now)
      ∷ span (date t.ends_at)
      ∷ []

  -- `EventRow`
  abbrev pub event_nodes : OverviewEvent → Markup Event
  event_nodes e = span (date_time e.occurred_at) ∷ tone_dot (event_tone e.kind) ∷ span e.text ∷ []

  abbrev pub trials_list : List ExpiringTrial → Markup Event
  trials_list [] = panel_placeholder (txt "Ближайших окончаний триала нет")
  trials_list (t ∷ ts) = trial_headers ++ join (map trial_nodes (t ∷ ts))

  abbrev pub trials_body : (is_pending : Bool) → Option Overview → Markup Event
  trials_body true o = skeleton_rows trials_skeleton 5
  trials_body false none = trials_list []
  trials_body false (some o) = trials_list o.expiring_trials

  abbrev pub events_list : List OverviewEvent → Markup Event
  events_list [] = panel_placeholder (txt "Событий пока нет")
  events_list (e ∷ es) = join (map event_nodes (e ∷ es))

  abbrev pub events_body : (is_pending : Bool) → Option Overview → Markup Event
  events_body true o = skeleton_rows events_skeleton 7
  events_body false none = events_list []
  events_body false (some o) = events_list o.events

  abbrev pub two_panels : (is_pending : Bool) → Option Overview → Markup Event
  two_panels is_pending data_ =
      panel (txt "Триал заканчивается скоро") (some (txt "нужно связаться"))
        (panel_link (some (txt "/clients?status=trial")) (txt "Все триалы"))
        (trials_body is_pending data_)
      ++ panel (txt "Последние события") none (panel_link none (txt "Журнал действий"))
          (events_body is_pending data_)

  abbrev pub body : View → (is_pending : Bool) → Option Overview → Markup Event
  body error_state is_pending data_ = Markup.error_state refetch
  body empty_state is_pending data_ =
      Markup.empty_state (txt "Добавьте первого клиента, чтобы увидеть статистику")
        (txt
          "Метрики, триалы и события появятся здесь, как только в системе будет хотя бы один клиент.")
        (txt "Создать клиента") create_client
  body (panels loading cells trials events) is_pending data_ =
      metrics number loading (map metric_cell cells) ++ two_panels is_pending data_

  -- `updated` is `formatDateTime` of `dataUpdatedAt`.
  unfoldable pub page :
      (is_error is_pending : Bool) → (updated : Text) → Option Overview → Markup Event
  unfolding view subtitle
  page is_error is_pending updated data_ =
      heading (txt "Обзор")
        ∷ span (subtitle date date_time instant now is_pending updated data_)
        ∷ link (txt "/clients/new") (txt "+ Клиент")
        ∷ []
      ++ body (view date date_time instant now is_error is_pending data_) is_pending data_

-- ===== src/Journal/Page.antt =====
-- web/src/features/journal/JournalPage.tsx: the page of the action journal as it is drawn, and what its handlers do.
-- `date_time` is `formatDateTime`.
use ahmed_sila.Base.{ℕ, Bool, true, false, Option, none, some, List, [], ◌∷◌, ◌++◌, map}
use ahmed_sila.Text.{Text, txt, text_eq}
use ahmed_sila.Team.Types.{TeamMember}
use ahmed_sila.Markup.{
  Gesture, gives, Node, heading, span, tone_dot, skeleton, link, field, Markup, join, when,
  filter_chip, empty_state,
}
use ahmed_sila.Markup
use ahmed_sila.Tickets.Screen.{Query}
use ahmed_sila.Journal.Types.{
  GlobalJournalEntry, JournalKindFilter, all, only, kind_eq, JournalActionKind, kind_label,
  kind_order, JournalPeriod, week, month, custom,
}
use ahmed_sila.Journal.Screen.{State, all_actors, reset_filters}
use ahmed_sila.Journal.Listing.{
  kind_tone, periods, shows_dates, client_cell, View, error_state, skeleton, no_entries, no_matches,
  rows, subtitle, view, shows_filters,
}

-- What the handlers of the page do: none of them changes an entry.
pub data Event : Type 0 where
  set_actor typed_from typed_to : Text → Event
  set_kind : JournalKindFilter → Event
  set_period : JournalPeriod → Event
  reset refetch : Event

unfoldable pub act : Event → State → State
act (set_actor a) st = record st { actor = a }
act (typed_from t) st = record st { from_text = t }
act (typed_to t) st = record st { to_text = t }
act (set_kind k) st = record st { kind = k }
act (set_period p) st = record st { period = p }
act reset st = reset_filters st
act refetch st = st

abbrev pub actor_chip : State → Text → Text → Markup Event
actor_chip st label key = filter_chip label none none (text_eq st.actor key) (set_actor key)

abbrev no_kind : JournalKindFilter → Bool
no_kind all = true
no_kind (only k) = false

abbrev is_kind : JournalKindFilter → JournalActionKind → Bool
is_kind all k = false
is_kind (only j) k = kind_eq j k

abbrev period_eq : JournalPeriod → JournalPeriod → Bool
period_eq week week = true
period_eq month month = true
period_eq custom custom = true
period_eq _ _ = false

abbrev pub kind_chip : State → JournalActionKind → Markup Event
kind_chip st k =
    filter_chip (kind_label k) none (some (kind_tone k)) (is_kind st.kind k) (set_kind (only k))

abbrev pub period_chip : State → JournalPeriod × Text → Markup Event
period_chip st (p, label) = filter_chip label none none (period_eq st.period p) (set_period p)

abbrev pub dates : State → Markup Event
dates st = field st.from_text typed_from ∷ span (txt "—") ∷ field st.to_text typed_to ∷ []

-- The three `FilterRow`s; the names are those of the team.
abbrev pub filters : State → List TeamMember → Markup Event
filters st team =
    span (txt "Сотрудник") ∷ actor_chip st (txt "Все") all_actors
    ++ (join (map (λ (m : TeamMember). actor_chip st m.name m.name) team)
        ++ (span (txt "Действие")
              ∷ filter_chip (txt "Все") none none (no_kind st.kind) (set_kind all)
            ++ (join (map (kind_chip st) kind_order)
                ++ (span (txt "Период") ∷ join (map (period_chip st) periods)
                    ++ when (shows_dates st.period) (dates st)))))

abbrev pub column_headers : Markup Event
column_headers =
    span (txt "Дата и время")
    ∷ span (txt "Кто")
    ∷ span (txt "Что сделал")
    ∷ span (txt "Клиент")
    ∷ []

abbrev or_nothing : Option Text → Text
or_nothing none = []
or_nothing (some t) = t

abbrev pub client_nodes : Option (Text × Option Text) → Markup Event
client_nodes none = span (txt "—") ∷ []
client_nodes (some (path, name)) = link path (or_nothing name) ∷ []

abbrev pub entry_nodes : (Text → Text) → GlobalJournalEntry → Markup Event
entry_nodes date_time e =
    span (date_time e.occurred_at)
    ∷ span e.actor
    ∷ tone_dot (kind_tone e.kind)
    ∷ span e.text
    ∷ client_nodes (client_cell e.client_id e.client_name)

abbrev pub journal_list : (Text → Text) → List GlobalJournalEntry → Markup Event
journal_list date_time es = column_headers ++ join (map (entry_nodes date_time) es)

abbrev pub body : (Text → Text) → View → Markup Event
body date_time error_state = Markup.error_state refetch
body date_time skeleton = column_headers ++ Markup.skeleton ∷ []
body date_time no_entries =
    empty_state (txt "Записей пока нет")
      (txt
        "Здесь появятся действия команды: создание клиентов, приостановка доступа, изменения тарифов.")
      (txt "Обновить") refetch
body date_time no_matches =
    empty_state (txt "Нет записей по этому фильтру")
      (txt "Измените сотрудника, тип действия или период.") (txt "Сбросить фильтры") reset
body date_time (rows es) = journal_list date_time es

-- `team.data ?? []`
abbrev pub or_none : Option (List TeamMember) → List TeamMember
or_none none = []
or_none (some ms) = ms

module _ (instant : Text → ℕ) (midnight : ℕ → ℕ) (date_time : Text → Text) where
  unfoldable pub page :
      (now : ℕ) → State → Query (List GlobalJournalEntry) → Option (List TeamMember) → Markup Event
  page now st q team =
      heading (txt "Журнал действий")
        ∷ span (subtitle instant midnight now st q)
        ∷ when (shows_filters q) (filters st (or_none team))
      ++ body date_time (view instant midnight now st q)

  -- A gesture at the time `now`.
  abbrev pub answer : Option Event → State → State
  answer none st = st
  answer (some e) st = act e st

  unfoldable pub on_gesture :
      (now : ℕ)
      → Gesture
      → Query (List GlobalJournalEntry)
      → Option (List TeamMember)
      → State
      → State
  on_gesture now g q team st = answer (gives g (page now st q team)) st

-- ===== src/Clients/Card.antt =====
-- web/src/features/clients/ClientPage.tsx: the tab in the address, the links of the tabs, the header
-- and its button, and what stands below it.
pub mod Laws
use ahmed_sila.Base.{
  Bool, true, false, not, ◌||◌, Option, none, some, is_none, List, [], ◌∷◌, ◌++◌, if◌then◌else◌,
}
use ahmed_sila.Text.{Text, txt, text_eq}
use ahmed_sila.Clients.Types.{ClientStatus, active, trial, paused, ClientDetail, status_eq}

pub data ClientTab : Type 0 where
  overview tickets journal access : ClientTab

abbrev pub tab_key : ClientTab → Text
tab_key overview = txt "overview"
tab_key tickets = txt "tickets"
tab_key journal = txt "journal"
tab_key access = txt "access"

abbrev pub tab_label : ClientTab → Text
tab_label overview = txt "Обзор"
tab_label tickets = txt "Обращения"
tab_label journal = txt "Журнал действий"
tab_label access = txt "Доступ и подписка"

-- `CLIENT_TABS`
abbrev pub client_tabs : List ClientTab
client_tabs = overview ∷ tickets ∷ journal ∷ access ∷ []

abbrev keyed : Text → List ClientTab → Option ClientTab
keyed v [] = none
keyed v (t ∷ ts) = let rest = keyed v ts in if text_eq (tab_key t) v then some t else rest

-- `isTab(value)`, with the tab that has the text.
unfoldable pub is_tab : Option Text → Option ClientTab
is_tab none = none
is_tab (some v) = keyed v client_tabs

unfoldable pub active_tab : Option Text → ClientTab
unfolding is_tab
active_tab tab = elim (is_tab tab) [ some t ↦ t | none ↦ overview ]

abbrev pub clients_path : Text → Text
clients_path id = txt "/clients/" ++ id

unfoldable pub tab_path : Text → ClientTab → Text
tab_path id overview = clients_path id
tab_path id t = clients_path id ++ (b'/' ∷ tab_key t)

-- `client?.status === 'paused'`
abbrev pub is_paused : Option ClientDetail → Bool
is_paused none = false
is_paused (some c) = status_eq c.status paused

-- What the header's button does: `resume.mutate`, or `navigate`.
pub data Toggle : Type 0 where
  resume_now : Toggle
  go_to : Text → Toggle

unfoldable pub on_toggle_access : Text → Option ClientDetail → Toggle
unfolding tab_path
on_toggle_access id client =
    if is_paused client then resume_now else go_to (tab_path id access ++ txt "?suspend=1")

unfoldable pub toggle_disabled : Option ClientDetail → Bool → Bool
toggle_disabled client resuming = is_none client || resuming

abbrev pub toggle_label : Option ClientDetail → Text
toggle_label client =
    if is_paused client then txt "Возобновить доступ" else txt "Приостановить доступ"

-- `searchParams.get('suspend') === '1'`
unfoldable pub suspend_requested : Option Text → Bool
suspend_requested none = false
suspend_requested (some v) = text_eq v (txt "1")

-- The breadcrumbs, each with its link.
abbrev pub breadcrumbs : Option ClientDetail → List (Text × Option Text)
breadcrumbs client =
    (txt "Суперадминка", none)
    ∷ (txt "Клиенты", some (txt "/clients"))
    ∷ (elim client [ none ↦ txt "…" | some c ↦ c.name ], none)
    ∷ []

-- What the page shows: the error, or the header, with the client if it is there, and one tab.
pub data View : Type 0 where
  error_state : View
  card : (header : Option ClientDetail) → ClientTab → View

unfoldable pub view : (is_error : Bool) → Option ClientDetail → Option Text → View
unfolding active_tab
view is_error client tab = if is_error then error_state else card client (active_tab tab)

-- ===== src/App.antt =====
-- web/src/App.tsx: the routes, behind the guard of the session (features/auth/RequireAuth.tsx). The router is
-- a parameter: `best ps path` is the pattern that it chooses for the path among the patterns `ps`.
pub mod Laws
mod Tests
use ahmed_sila.Base.{Option, none, some, List, [], ◌∷◌, map, if◌then◌else◌}
use ahmed_sila.Text.{Text, txt, text_eq}
use ahmed_sila.Session.{AuthState}
use ahmed_sila.Auth.{blank, to_login, children, require_auth}

pub data Page : Type 0 where
  overview_page tickets_page clients_page new_client_page client_page journal_page team_page : Page
  settings_page : Page

-- The routes behind the guard, but the last, `*`, which leads to the overview.
abbrev pub routes : List (Text × Page)
routes =
    (txt "/overview", overview_page)
    ∷ (txt "/tickets", tickets_page)
    ∷ (txt "/clients", clients_page)
    ∷ (txt "/clients/new", new_client_page)
    ∷ (txt "/clients/:clientId", client_page)
    ∷ (txt "/clients/:clientId/:tab", client_page)
    ∷ (txt "/journal", journal_page)
    ∷ (txt "/team", team_page)
    ∷ (txt "/settings", settings_page)
    ∷ []

abbrev pub any_path : Text
any_path = txt "*"

abbrev pub login_path : Text
login_path = txt "/login"

abbrev pub outer_patterns : List Text
outer_patterns = login_path ∷ any_path ∷ []

abbrev pub patterns : List (Text × Page) → List Text
patterns [] = any_path ∷ []
patterns ((p, page) ∷ rs) = p ∷ patterns rs

-- What stands in the window: nothing, the form of the session, a page, or a way to another path.
pub data Screen : Type 0 where
  nothing login_screen : Screen
  page : Page → Screen
  redirect : Text → Screen

abbrev pub page_of : Text → List (Text × Page) → Screen
page_of p [] = redirect (txt "/overview")
page_of p ((q, x) ∷ rs) = let rest = page_of p rs in if text_eq q p then page x else rest

abbrev pub inner : Option Text → Screen
inner none = nothing
inner (some p) = page_of p routes

module _ (best : List Text → Text → Option Text) where
  abbrev pub guarded : AuthState → Text → Screen
  guarded s path = elim (require_auth s) [
    | blank ↦ nothing
    | to_login ↦ redirect login_path
    | children ↦ inner (best (patterns routes) path)
  ]

  abbrev pub outer : AuthState → Text → Option Text → Screen
  outer s path none = nothing
  outer s path (some p) = if text_eq p login_path then login_screen else guarded s path

  unfoldable pub app : AuthState → Text → Screen
  app s path = outer s path (best outer_patterns path)

-- ===== src/App/Laws.antt =====
-- Who sees a page, and where the menu leads.
use mathlib.Core.Path.{subst}
use ahmed_sila.Base.{
  ℕ, ◌≡◌, refl, sym, ap, ◌∙◌, ◌≢◌, inl, inr, false, Bool, Option, Option-cases, none, some, List,
  [], ◌∷◌, true, not, ◌&&◌, leb, ◌+◌, map, if◌then◌else◌, Member, any, ◌||◌, ◌==◌, arith,
}
use ahmed_sila.Text.{Text, txt, text_eq, starts_with}
use ahmed_sila.Text.Laws.{text_eq_iff}
use ahmed_sila.Session.{AuthState, anonymous, authenticated}
use ahmed_sila.Auth.{require_auth}
use ahmed_sila.Shell.{NavItem, nav, SectionKey, overview, clients, tickets, audit, team, settings}
use ahmed_sila.App.{
  Page, overview_page, tickets_page, clients_page, new_client_page, journal_page, team_page,
  settings_page, page, redirect, routes, patterns, page_of, any_path, login_path, outer_patterns,
  inner, guarded, outer, app,
}

-- A pattern with a parameter or a star in it.
abbrev pub is_dynamic : Text → Bool
is_dynamic = any (λ c. c == b':' || c == b'*')

abbrev small : ℕ → ℕ
small c = if leb 65 c && leb c 90 then c + 32 else c

abbrev no_slash : Text → Text
no_slash [] = []
no_slash (c ∷ s) =
    let rest = no_slash s in elim rest [ [] ↦ if c == b'/' then [] else c ∷ [] | d ∷ t ↦ c ∷ d ∷ t ]

-- A path as the router compares it: without regard to upper case and slashes at its end.
abbrev pub folded : Text → Text
folded path = no_slash (map small path)

-- The lists of patterns between which the panel lets the router choose.
abbrev pub tables : List (List Text)
tables = outer_patterns ∷ patterns routes ∷ []

-- The router's documentation, for the panel's patterns, where a path begins with a slash: it chooses
-- among the patterns that match; a static pattern comes before any other at its own path, and matches
-- a path that has nothing encoded in it only if they are the same without regard to upper case and
-- slashes at the end; and the star matches every path.
pub record Ranks (best : List Text → Text → Option Text) : Type 0 where
  pub chosen :
      (ps : List Text) (path p : Text) → Member ps tables → best ps path ≡ some p → Member p ps
  pub static_first :
      (ps : List Text) (path : Text)
      → Member ps tables
      → Member path ps
      → is_dynamic path ≡ false
      → best ps path ≡ some path
  pub static_only :
      (ps : List Text) (path p : Text)
      → Member ps tables
      → any (λ c. c == b'%') path ≡ false
      → best ps path ≡ some p
      → is_dynamic p ≡ false
      → folded p ≡ folded path
  pub star :
      (ps : List Text) (path : Text)
      → Member ps tables
      → starts_with path (txt "/") ≡ true
      → Member any_path ps
      → best ps path ≢ none

-- A path with nothing encoded in it that is not taken for that of the form of the session.
abbrev is_apart : Text → Bool
is_apart path =
    not (text_eq (folded login_path) (folded path))
    && not (any (λ c. c == b'%') path)
    && starts_with path (txt "/")

-- The page of a section of the menu.
abbrev pub section_page : SectionKey → Page
section_page overview = overview_page
section_page clients = clients_page
section_page tickets = tickets_page
section_page audit = journal_page
section_page team = team_page
section_page settings = settings_page

apart_cases :
    (path : Text)
    → is_apart path ≡ true
    → (folded login_path ≢ folded path)
      × (any (λ c. c == b'%') path ≡ false)
      × (starts_with path (txt "/") ≡ true)
apart_cases path h = ground (arith, h, text_eq_iff (folded login_path) (folded path))

module _ (best : List Text → Text → Option Text) (ranks : Ranks best) where
  star-chosen :
      (path p : Text)
      → best outer_patterns path ≡ some p
      → is_apart path ≡ true
      → best outer_patterns path ≡ some any_path
  star-chosen path p e h = elim (ranks.chosen outer_patterns path p (inl refl) e) [
    | inl same ↦
        (let (apart, plain, rooted) = apart_cases path h in
          let at : folded p ≡ folded path =
            ranks.static_only outer_patterns path p (inl refl) plain e (ap is_dynamic same) in
          absurd (apart (sym (ap folded same) ∙ at)))
    | inr (inl same) ↦ e ∙ ap some same
    | inr (inr none_left) ↦ absurd none_left
  ]

  outer-star : (path : Text) → is_apart path ≡ true → best outer_patterns path ≡ some any_path
  outer-star path h = elim (Option-cases (best outer_patterns path)) [
    | inl e ↦
        (let (apart, plain, rooted) = apart_cases path h in
          absurd (ranks.star outer_patterns path (inl refl) rooted (inr (inl refl)) e))
    | inr (p, e) ↦ star-chosen path p e h
  ]

  app-guarded :
      (s : AuthState) (path : Text) → is_apart path ≡ true → app best s path ≡ guarded best s path
  unfolding app text_eq
  app-guarded s path h = ap (outer best s path) (outer-star path h)

  guarded-anonymous :
      (s : AuthState) (path : Text)
      → s.status ≡ anonymous
      → guarded best s path ≡ redirect login_path
  unfolding require_auth
  guarded-anonymous s path e = rw e refl

  guarded-page :
      (s : AuthState) (path : Text) (x : Page)
      → guarded best s path ≡ page x
      → s.status ≡ authenticated
  unfolding require_auth
  guarded-page s path x h = ground (arith, h)

  guarded-static :
      (s : AuthState) (path : Text)
      → s.status ≡ authenticated
      → Member path (patterns routes)
      → is_dynamic path ≡ false
      → guarded best s path ≡ page_of path routes
  unfolding require_auth
  guarded-static s path e m plain =
      rw e (ap inner (ranks.static_first (patterns routes) path (inr (inl refl)) m plain))

  -- A path of the table, signed in and signed out.
  static-app :
      (s t : AuthState) (path : Text)
      → s.status ≡ authenticated
      → t.status ≡ anonymous
      → is_apart path ≡ true
      → Member path (patterns routes)
      → is_dynamic path ≡ false
      → (app best s path ≡ page_of path routes) × (app best t path ≡ redirect login_path)
  static-app s t path e f h m plain = (
    app-guarded s path h ∙ guarded-static s path e m plain,
    app-guarded t path h ∙ guarded-anonymous t path f,
  )

  -- An item of the menu leads to its page.
  abbrev pub Leads : AuthState → AuthState → NavItem → Type 0
  Leads s t i =
      (path : Text) × (i.to ≡ some path)
      × (app best s path ≡ page (section_page i.key))
      × (app best t path ≡ redirect login_path)

  item-Leads :
      (s t : AuthState) (i : NavItem) {item : NavItem} (path : Text)
      → s.status ≡ authenticated
      → t.status ≡ anonymous
      → i ≡ item
      → item.to ≡ some path
      → is_apart path ≡ true
      → Member path (patterns routes)
      → is_dynamic path ≡ false
      → page_of path routes ≡ page (section_page item.key)
      → Leads s t i
  item-Leads s t i path e f same to h m plain found =
      let (a, b) = static-app s t path e f h m plain in
      subst (Leads s t) (sym same) (path, to, a ∙ found, b)

  nav-Leads :
      (s t : AuthState) (count : Option ℕ) (i : NavItem)
      → s.status ≡ authenticated
      → t.status ≡ anonymous
      → Member i (nav count)
      → Leads s t i
  unfolding text_eq starts_with
  nav-Leads s t count i e f (inl same) =
      item-Leads s t i (txt "/overview") e f same refl refl (inl refl) refl refl
  nav-Leads s t count i e f (inr (inl same)) =
      item-Leads s t i (txt "/clients") e f same refl refl (inr (inr (inl refl))) refl refl
  nav-Leads s t count i e f (inr (inr (inl same))) =
      item-Leads s t i (txt "/tickets") e f same refl refl (inr (inl refl)) refl refl
  nav-Leads s t count i e f (inr (inr (inr (inl same)))) =
      item-Leads s t i (txt "/journal") e f same refl refl
        (inr (inr (inr (inr (inr (inr (inl refl))))))) refl refl
  nav-Leads s t count i e f (inr (inr (inr (inr (inl same))))) =
      item-Leads s t i (txt "/team") e f same refl refl
        (inr (inr (inr (inr (inr (inr (inr (inl refl)))))))) refl refl
  nav-Leads s t count i e f (inr (inr (inr (inr (inr (inl same)))))) =
      item-Leads s t i (txt "/settings") e f same refl refl
        (inr (inr (inr (inr (inr (inr (inr (inr (inl refl))))))))) refl refl
  nav-Leads s t count i e f (inr (inr (inr (inr (inr (inr z)))))) = absurd z

  -- Where the router chooses as its documentation says: every item of the menu, and the path of a new
  -- client, leads to its page while signed in and to the form of the session while not.
  pub app-nav :
      (s t : AuthState) (count : Option ℕ) (i : NavItem)
      → s.status ≡ authenticated
      → t.status ≡ anonymous
      → Member i (nav count)
      → Leads s t i
        × (app best s (txt "/clients/new") ≡ page new_client_page)
        × (app best t (txt "/clients/new") ≡ redirect login_path)
  unfolding text_eq starts_with
  app-nav s t count i e f m =
      let (a, b) = static-app s t (txt "/clients/new") e f refl (inr (inr (inr (inl refl)))) refl in
      (nav-Leads s t count i e f m, a, b)

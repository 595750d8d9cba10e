-- ===== src/Shell/Frame.antt =====
-- web/src/components/layout: AppShell.tsx with Sidebar.tsx and Topbar.tsx as they are drawn around a page. `upper` is
-- `toUpperCase`.
use ahmed_sila.Base.{ℕ, Bool, true, false, not, Option, none, some, List, [], ◌∷◌, ◌++◌, map}
use ahmed_sila.Text.{Text, txt}
use ahmed_sila.Text.Decimal.{show}
use ahmed_sila.Session.{AuthUser}
use ahmed_sila.Tickets.Types.{GlobalTicket}
use ahmed_sila.Markup.{Node, span, link, button, field, Markup, join}
use ahmed_sila.Shell.{open_tickets_count, Crumb, drawn, NavItem, nav, shown_badge, shown_user}

-- What the handlers of the frame do, around those of the page.
pub data Event (E : Type 0) : Type 0 where
  toggle_collapsed logout : Event E
  of_page : E → Event E

-- `TopbarSearch`
pub record Search (E : Type 0) : Type 0 where
  pub value : Text
  pub on_change : Text → E

-- An item's label; in the folded menu only its icon stands.
abbrev item_label : (collapsed : Bool) → Text → Text
item_label true label = []
item_label false label = label

module _ {E : Type 0} where
  abbrev badge_nodes : Option ℕ → Markup (Event E)
  badge_nodes none = []
  badge_nodes (some n) = span (show n) ∷ []

  -- An item without an address is drawn and leads nowhere.
  abbrev item_node : Option Text → Text → Node (Event E)
  item_node none label = span label
  item_node (some []) label = span label
  item_node (some (c ∷ to)) label = link (c ∷ to) label

  abbrev pub item_nodes : (collapsed : Bool) → NavItem → Markup (Event E)
  item_nodes collapsed i =
      item_node i.to (item_label collapsed i.label) ∷ badge_nodes (shown_badge collapsed i)

  abbrev brand : (collapsed : Bool) → Markup (Event E)
  brand true = []
  brand false = span (txt "Суперадминка") ∷ []

  abbrev pub sidebar : (collapsed : Bool) → Option ℕ → Markup (Event E)
  sidebar collapsed count =
      brand collapsed
      ++ (join (map (item_nodes collapsed) (nav count))
          ++ (button (item_label collapsed (txt "Свернуть меню")) false toggle_collapsed ∷ []))

  abbrev crumb_node : Text × Option Text → Node (Event E)
  crumb_node (label, none) = span label
  crumb_node (label, some to) = link to label

  abbrev later_crumbs : List (Text × Option Text) → Markup (Event E)
  later_crumbs [] = []
  later_crumbs (c ∷ cs) = span (txt "/") ∷ crumb_node c ∷ later_crumbs cs

  abbrev pub crumbs : List (Text × Option Text) → Markup (Event E)
  crumbs [] = []
  crumbs (c ∷ cs) = crumb_node c ∷ later_crumbs cs

  abbrev pub search_nodes : Option (Search E) → Markup (Event E)
  search_nodes none = []
  search_nodes (some s) = field s.value (λ t. of_page (s.on_change t)) ∷ []

  abbrev pub user_nodes : Option (Text × Text) → Markup (Event E)
  user_nodes none = []
  user_nodes (some (initials, name)) =
      span initials ∷ span name ∷ button (txt "Выйти") false logout ∷ []

  unfoldable pub topbar : List Crumb → Option (Search E) → Option (Text × Text) → Markup (Event E)
  unfolding drawn
  topbar breadcrumbs search user =
      crumbs (drawn breadcrumbs) ++ (search_nodes search ++ user_nodes user)

  -- What stands around the page, with the tickets that their query has and the user of the session.
  unfoldable pub app_shell :
      (upper : Text → Text)
      → (collapsed : Bool) → Option (List GlobalTicket)
      → List Crumb
      → Option (Search E)
      → Option AuthUser
      → Markup (Event E)
      → Markup (Event E)
  unfolding open_tickets_count topbar
  app_shell upper collapsed tickets breadcrumbs search user children =
      sidebar collapsed (open_tickets_count tickets)
      ++ (topbar breadcrumbs search (shown_user upper user) ++ children)

  -- `setCollapsed`
  abbrev pub fold : Event E → Bool → Bool
  fold toggle_collapsed collapsed = not collapsed
  fold logout collapsed = collapsed
  fold (of_page e) collapsed = collapsed

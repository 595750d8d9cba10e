-- ===== src/Clients/Card/Laws.antt =====
-- The addresses of a card's tabs.
use ahmed_sila.Base.{◌≡◌, refl, ◌↔◌, ◌⊎◌, true, false, Option, none, some, ◌∷◌, ◌++◌, arith}
use ahmed_sila.Text.{Text, txt, text_eq}
use ahmed_sila.Clients.Types.{paused, ClientDetail, status_eq_iff}
use ahmed_sila.Clients.Card.{
  ClientTab, overview, tickets, journal, access, tab_key, active_tab, is_tab, tab_path,
  clients_path, resume_now, go_to, on_toggle_access, toggle_disabled, suspend_requested,
}

-- The address of a card: of the route `/clients/:clientId`, or `/clients/:clientId/:tab`.
abbrev pub address : Text → Option Text → Text
address id none = clients_path id
address id (some tab) = clients_path id ++ (b'/' ∷ tab)

-- The tab's part of the address that its link leads to.
abbrev pub tab_param : ClientTab → Option Text
tab_param overview = none
tab_param t = some (tab_key t)

-- A tab's link leads to an address of the card at which that tab is shown.
pub active_tab-tab_path :
    (id : Text) (t : ClientTab)
    → (tab_path id t ≡ address id (tab_param t)) × (active_tab (tab_param t) ≡ t)
unfolding active_tab is_tab text_eq tab_path
active_tab-tab_path id overview = (refl, refl)
active_tab-tab_path id tickets = (refl, refl)
active_tab-tab_path id journal = (refl, refl)
active_tab-tab_path id access = (refl, refl)

-- The header's button, where it can be pressed, resumes a client that is paused; for any other it leads
-- to the access tab, and asks there for the form of a suspension.
pub on_toggle_access_iff :
    (id : Text) (c : ClientDetail)
    → ((on_toggle_access id (some c) ≡ resume_now) ↔ (c.status ≡ paused))
      × ((c.status ≡ paused)
          ⊎ (on_toggle_access id (some c)
              ≡ go_to (address id (tab_param access) ++ txt "?suspend=1")))
      × (active_tab (tab_param access) ≡ access)
      × (suspend_requested (some (txt "1")) ≡ true)
      × (toggle_disabled none false ≡ true)
unfolding on_toggle_access toggle_disabled suspend_requested active_tab is_tab text_eq tab_path
on_toggle_access_iff id c = (
  ground (arith, status_eq_iff c.status paused),
  ground (arith, status_eq_iff c.status paused),
  refl,
  refl,
  refl,
)

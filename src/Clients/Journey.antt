-- ===== src/Clients/Journey.antt =====
-- What a person can do to the clients of a panel without a backend: the form of a new client
-- (NewClientPage.tsx), the header of a card (ClientPage.tsx) and its access tab
-- (tabs/ClientAccessTab.tsx), each through web/src/features/clients/api.ts to the store in memory
-- (mock.ts). A card shows the record that the store holds under its id, and a button that waits for an
-- earlier call is taken as one that can be pressed.
pub mod Laws
pub mod Reasons
use ahmed_sila.Base.{ℕ, Bool, true, false, Option, none, some, List, [], ◌∷◌, if◌then◌else◌}
use ahmed_sila.Text.{Text}
use ahmed_sila.Http.{Network, World}
use ahmed_sila.Clients.Types.{ClientDetail, NewClient}
use ahmed_sila.Clients.Store.{Store, get_client}
use ahmed_sila.Clients.Api.{
  create_client, suspend_client, resume_client, issue_activation_code, delete_client,
}
use ahmed_sila.Clients.Form.{Form, EmailCheck, on_submit}
use ahmed_sila.Clients.Card.{Toggle, resume_now, go_to, is_paused, on_toggle_access}
use ahmed_sila.Clients.Access.{Panel, Danger, on_suspend, on_access, shows_form, deletes}

-- A press of a button, with the state of the form or panel in which it stands.
pub data Press : Type 0 where
  submit : Form → EmailCheck → Press
  toggle : (id : Text) → Press
  access suspend : (id : Text) → Panel → Press
  issue : (id : Text) → Press
  delete : (id : Text) → (is_pending : Bool) → Danger → Press

module _ (n : Network) (lower : Text → Text) (iso : ℕ → Text) (encode : Text → Text) where
  abbrev pub At : Type 0
  At = World n × Store

  abbrev pub toggled : ℕ → Text → At → Toggle → At
  toggled now id p resume_now = (resume_client n true lower iso encode now id p).1
  toggled now id p (go_to path) = p

  -- What a press does where the card of `id` shows a client; with no client there is no button.
  abbrev pub press_toggle : ℕ → Text → At → Option ClientDetail → At
  press_toggle now id p none = p
  press_toggle now id p (some c) = toggled now id p (on_toggle_access id (some c))

  abbrev pub press_access : ℕ → Text → Panel → At → Option ClientDetail → At
  press_access now id panel p none = p
  press_access now id panel p (some c) =
      if (on_access (is_paused (some c)) panel).1
      then (resume_client n true lower iso encode now id p).1
      else p

  abbrev pub send_reason : ℕ → Text → At → Option Text → At
  send_reason now id p none = p
  send_reason now id p (some reason) = (suspend_client n true lower iso encode now id reason p).1

  abbrev pub press_suspend : ℕ → Text → Panel → At → Option ClientDetail → At
  press_suspend now id panel p none = p
  press_suspend now id panel p (some c) =
      if shows_form (is_paused (some c)) panel then send_reason now id p (on_suspend panel).1 else p

  abbrev pub press_issue : ℕ → (ℕ → ℕ) → Text → At → Option ClientDetail → At
  press_issue now draw id p none = p
  press_issue now draw id p (some c) =
      (issue_activation_code n true lower iso encode now draw id p).1

  abbrev pub press_delete : Text → Bool → Danger → At → Option ClientDetail → At
  press_delete id is_pending danger p none = p
  press_delete id is_pending danger p (some c) =
      if deletes c.name is_pending danger then (delete_client n true lower iso encode id p).1 else p

  abbrev pub create_sent : ℕ → (ℕ → ℕ) → At → Option NewClient → At
  create_sent now draw p none = p
  create_sent now draw p (some input) = (create_client n true lower iso encode now draw input p).1

  unfoldable pub act : ℕ × (ℕ → ℕ) × Press → At → At
  act (now, draw, submit f q) p = create_sent now draw p (on_submit lower f q).1
  act (now, draw, toggle id) p = press_toggle now id p (get_client id p.1)
  act (now, draw, access id panel) p = press_access now id panel p (get_client id p.1)
  act (now, draw, suspend id panel) p = press_suspend now id panel p (get_client id p.1)
  act (now, draw, issue id) p = press_issue now draw id p (get_client id p.1)
  act (now, draw, delete id is_pending danger) p =
      press_delete id is_pending danger p (get_client id p.1)

  unfoldable pub acts : List (ℕ × (ℕ → ℕ) × Press) → At → At
  unfolding act
  acts [] p = p
  acts (a ∷ rest) p = acts rest (act a p)

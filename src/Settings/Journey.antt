-- ===== src/Settings/Journey.antt =====
-- What a person can do on the page of the settings (web/src/features/settings/SettingsPage.tsx) without a
-- backend, where the calls of web/src/features/settings/api.ts go straight to the template in memory
-- (mock.ts), and the answers that the query brings meanwhile. A saving is over before the next press.
pub mod Laws
use ahmed_sila.Base.{ℕ, Bool, true, false, Option, none, some, List, [], ◌∷◌, if◌then◌else◌}
use ahmed_sila.Text.{Text}
use ahmed_sila.Settings.Types.{Settings}
use ahmed_sila.Settings.Store.{Store, get, save_template}
use ahmed_sila.Settings.Screen.{State, on_data, type_text, restore_default, save_disabled}

-- `save now` presses «Сохранить» at the instant with the text `now`; `arrive` is an answer of the query.
pub data Press : Type 0 where
  typed : Text → Press
  restore : Press
  save : Text → Press
  arrive : Press

-- The template in memory, the data that the query has, and the page's own state.
pub record Page : Type 0 where
  pub store : Store
  pub query_data : Settings
  pub state : State

-- The page with its first data.
abbrev pub start : Page
start = record {
  store = ahmed_sila.Settings.Store.init;
  query_data = get ahmed_sila.Settings.Store.init;
  state = on_data (some (get ahmed_sila.Settings.Store.init)) ahmed_sila.Settings.Screen.init;
}

unfoldable pub act : Press → Page → Page
act (typed v) p = record p { state = type_text v p.state }
act restore p = record p { state = restore_default p.query_data p.state }
act (save now) p =
    if save_disabled (some p.query_data) p.state false
    then p
    else record p { store = (save_template now p.state.text p.store).1 }
act arrive p = record p { query_data = get p.store; state = on_data (some (get p.store)) p.state }

-- The page after the presses, of which the last one stands first.
unfoldable pub acts : List Press → Page
acts [] = start
acts (e ∷ past) = act e (acts past)

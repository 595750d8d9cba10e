-- ===== src/Session.antt =====
-- web/src/lib/auth.ts: the session, kept outside React, and its listeners.
pub mod Laws
pub mod Tests
use ahmed_sila.Base.{
  ℕ, Bool, true, false, Option, none, some, List, [], ◌∷◌, ◌++◌, ◌==◌, filter, any, not,
  if◌then◌else◌,
}
use ahmed_sila.Text.{Text}

pub record AuthUser : Type 0 where
  pub id : Text
  pub email : Text
  pub full_name : Text
  pub role : Text
  pub permissions : List Text

pub data Status : Type 0 where
  checking authenticated anonymous : Status

pub record AuthState : Type 0 where
  pub access_token : Option Text
  pub user : Option AuthUser
  pub status : Status

-- The module's variables. A listener is known by its identity, a number; `notified` is the trace of
-- the listeners' calls, each with the state that `getAuthState` gives it, the latest first.
pub record Store : Type 0 where
  pub state : AuthState
  pub listeners : List ℕ
  pub notified : List (ℕ × AuthState)

abbrev pub init : Store
init = record {
  state = record { access_token = none; user = none; status = checking };
  listeners = [];
  notified = [];
}

abbrev pub get_auth_state : Store → AuthState
get_auth_state s = s.state

call_each : List ℕ → AuthState → List (ℕ × AuthState) → List (ℕ × AuthState)
call_each [] st log = log
call_each (l ∷ ls) st log = call_each ls st ((l, st) ∷ log)

unfoldable pub notify : Store → Store
unfolding call_each
notify s = record s { notified = call_each s.listeners s.state s.notified }

unfoldable pub set_session : Text → AuthUser → Store → Store
set_session token user s = notify (record s {
  state = record { access_token = some token; user = some user; status = authenticated };
})

unfoldable pub clear_session : Store → Store
clear_session s =
    notify (record s { state = record { access_token = none; user = none; status = anonymous } })

unfoldable pub update_access_token : Text → Store → Store
update_access_token token s =
    notify (record s { state = record (s.state) { access_token = some token } })

-- A `Set`: adding a member a second time changes nothing, and a new one goes last.
unfoldable pub subscribe_auth : ℕ → Store → Store
subscribe_auth l s =
    if any (λ k. k == l) s.listeners then s else record s { listeners = s.listeners ++ l ∷ [] }

-- The function that `subscribeAuth` returns.
unfoldable pub unsubscribe_auth : ℕ → Store → Store
unsubscribe_auth l s = record s { listeners = filter (λ k. not (k == l)) s.listeners }

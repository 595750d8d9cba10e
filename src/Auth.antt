-- ===== src/Auth.antt =====
-- web/src/features/auth: signing in and out, restoring the session, the guard of the routes and the
-- sign-in form.
pub mod Laws
mod Tests
pub mod Form
use ahmed_sila.Base.{Bool, true, false, Option, none, some, List, [], ◌∷◌, get_or}
use ahmed_sila.Base.{ℕ}
use ahmed_sila.Text.{Text, txt}
use ahmed_sila.Session.{
  AuthUser, Status, checking, authenticated, anonymous, AuthState, get_auth_state, set_session,
  clear_session,
}
use ahmed_sila.Http.{
  Network, World, Exec, Outcome, ok, thrown, Failure, type_error, Init, get, post, str, on_store,
  do_refresh, request,
}
use ahmed_sila.Http.Payloads.{UserResponse, LoginResponse, login, user, nothing}

pub to_auth_user : UserResponse → AuthUser
to_auth_user u = record {
  id = u.id;
  email = u.email;
  full_name = u.full_name;
  role = u.role;
  permissions = u.permissions;
}

abbrev pub get_init : Init
get_init = record { method = get; headers = []; body = none }

abbrev pub post_init : Init
post_init = record { method = post; headers = []; body = none }

module _ (n : Network) where
  abbrev pub login_init : Text → Text → Init
  login_init email password = record post_init {
    body = some ((txt "email", str email) ∷ (txt "password", str password) ∷ []);
  }

  -- A field of `undefined` is a type error.
  abbrev pub after_login : Outcome (Option LoginResponse) → Exec n Unit
  after_login (thrown f) w = (thrown f, w)
  after_login (ok none) w = (thrown type_error, w)
  after_login (ok (some b)) w =
      (ok tt, on_store n (set_session b.access_token (to_auth_user b.user)) w)

  unfoldable pub sign_in : Text → Text → Exec n Unit
  sign_in email password w =
      let (r, w') = request n login (txt "/auth/login") (login_init email password) w in
      after_login r w'

  abbrev pub drop_value : {A : Type 0} → Outcome A → Outcome (Unit {0})
  drop_value (ok a) = ok tt
  drop_value (thrown f) = thrown f

  unfoldable pub logout : Exec n Unit
  logout w =
      let (r, w') = request n nothing (txt "/auth/logout") post_init w in
      (drop_value r, on_store n clear_session w')

  -- The `try` block of `restoreSession` and its handler.
  abbrev pub after_me : Outcome (Option UserResponse) → Exec n Unit
  after_me (ok (some me)) w = (
    ok tt,
    on_store n (set_session (get_or (get_auth_state w.store).access_token []) (to_auth_user me)) w,
  )
  after_me (ok none) w = (ok tt, on_store n clear_session w)
  after_me (thrown f) w = (ok tt, on_store n clear_session w)

  abbrev pub after_restore : Outcome Bool → Exec n Unit
  after_restore (thrown f) w = (thrown f, w)
  after_restore (ok false) w = (ok tt, on_store n clear_session w)
  after_restore (ok true) w = let (r, w') = request n user (txt "/me") get_init w in after_me r w'

  unfoldable pub restore_session : Exec n Unit
  restore_session w = let (t, w') = do_refresh n w in after_restore t w'

-- `RequireAuth`: what the guarded routes.
pub data View : Type 0 where
  blank to_login children : View

unfoldable pub require_auth : AuthState → View
require_auth s = elim s.status [
  | checking ↦ blank
  | anonymous ↦ to_login
  | authenticated ↦ children
]

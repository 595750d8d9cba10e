-- ===== src/Auth/Laws.antt =====
-- Signing in and out, and what the guard of the routes shows afterwards.
use ahmed_sila.Base.{
  ◌≡◌, refl, ap, ◌≢◌, ◌⊎◌, inl, inr, Bool, true, false, Option, none, some, arith, Bool-cases,
}
use ahmed_sila.Text.{Text, txt, starts_with}
use ahmed_sila.Session.{checking, anonymous, notify, set_session, clear_session}
use ahmed_sila.Session.Laws.{
  IsConsistent, set_session-IsConsistent, clear_session-IsConsistent,
  update_access_token-IsConsistent,
}
use ahmed_sila.Http.{
  Network, World, Outcome, ok, thrown, Failure, network, type_error, Init, is_ok, Body, not_json,
  null_body, object, Response, Fetched, network_error, response, refresh_request, send, store_token,
  refresh_reply, do_refresh, retry, after_refresh, needs_refresh, first_reply, request,
}
use ahmed_sila.Http.Payloads.{
  Shape, El, UserResponse, LoginResponse, login, user, nothing, refreshed,
}
use ahmed_sila.Auth.{
  to_auth_user, drop_value, get_init, post_init, login_init, after_login, sign_in, logout, after_me,
  after_restore, restore_session, blank, to_login, children, require_auth,
}

module _ (n : Network) where
  abbrev Consistent : World n → Type 0
  Consistent w = IsConsistent w.store.state

  store_token-Consistent :
      (b : Body Text) (w : World n) → Consistent w → Consistent (store_token n b w).1
  store_token-Consistent not_json w v = v
  store_token-Consistent null_body w v = v
  store_token-Consistent (object e none) w v = v
  store_token-Consistent (object e (some t)) w v = update_access_token-IsConsistent t w.store v

  refresh_reply-Consistent :
      (r : Fetched Text) (w : World n) → Consistent w → Consistent (refresh_reply n r w).1
  refresh_reply-Consistent network_error w v = v
  refresh_reply-Consistent (response r) w v = elim (Bool-cases (is_ok r.status)) [
    | inl e ↦ rw e (store_token-Consistent r.body w v)
    | inr e ↦ rw e v
  ]

  do_refresh-Consistent : (w : World n) → Consistent w → Consistent (do_refresh n w).1
  unfolding do_refresh
  do_refresh-Consistent w v =
      let (r, srv) = n.fetch refreshed (refresh_request n) w.server in
      refresh_reply-Consistent r (record w { server = srv }) v

  module _ (s : Shape) (path : Text) (i : Init) where
    retry-Consistent : (w : World n) → Consistent w → Consistent (retry n s path i w).1
    unfolding retry send
    retry-Consistent w v = ground (arith, v)

    after_refresh-Consistent :
        (r : Response (El s)) (t : Outcome Bool) (w : World n)
        → Consistent w
        → Consistent (after_refresh n s path i r t w).1
    after_refresh-Consistent r (thrown f) w v = v
    after_refresh-Consistent r (ok true) w v = retry-Consistent w v
    after_refresh-Consistent r (ok false) w v = clear_session-IsConsistent w.store

    first_reply-Consistent :
        (a : Fetched (El s)) (w : World n)
        → Consistent w
        → Consistent (first_reply n s path i a w).1
    first_reply-Consistent network_error w v = v
    first_reply-Consistent (response r) w v = elim (Bool-cases (needs_refresh n path r.status)) [
      | inl e ↦ rw e (
          after_refresh-Consistent r (do_refresh n w).0 (do_refresh n w).1
            (do_refresh-Consistent w v))
      | inr e ↦ rw e v
    ]

    -- A call under /auth/ leaves the session alone.
    first_reply-store :
        (a : Fetched (El s)) (w : World n)
        → starts_with path (txt "/auth/") ≡ true
        → (first_reply n s path i a w).1.store ≡ w.store
    first_reply-store network_error w h = refl
    first_reply-store (response r) w h = ground arith

    request-store :
        (w : World n)
        → starts_with path (txt "/auth/") ≡ true
        → (request n s path i w).1.store ≡ w.store
    unfolding request send
    request-store w h = let (r, w') = send n s path i w in first_reply-store r w' h

    request-Consistent : (w : World n) → Consistent w → Consistent (request n s path i w).1
    unfolding request send
    request-Consistent w v = let (r, w') = send n s path i w in first_reply-Consistent r w' v

  after_login-Consistent :
      (r : Outcome (Option LoginResponse)) (w : World n)
      → Consistent w
      → Consistent (after_login n r w).1
  after_login-Consistent (thrown f) w v = v
  after_login-Consistent (ok none) w v = v
  after_login-Consistent (ok (some b)) w v =
      set_session-IsConsistent b.access_token (to_auth_user b.user) w.store

  after_me-Consistent :
      (r : Outcome (Option UserResponse)) (w : World n) → Consistent (after_me n r w).1
  after_me-Consistent (thrown f) w = clear_session-IsConsistent w.store
  after_me-Consistent (ok none) w = clear_session-IsConsistent w.store
  after_me-Consistent (ok (some me)) w = set_session-IsConsistent _ (to_auth_user me) w.store

  after_restore-Consistent :
      (t : Outcome Bool) (w : World n) → Consistent w → Consistent (after_restore n t w).1
  after_restore-Consistent (thrown f) w v = v
  after_restore-Consistent (ok false) w v = clear_session-IsConsistent w.store
  after_restore-Consistent (ok true) w v =
      let (r, w') = request n user (txt "/me") get_init w in after_me-Consistent r w'

  drop_value-cases :
      {A : Type 0} (o : Outcome A)
      → (drop_value n o ≡ ok tt) ⊎ ((f : Failure) × (drop_value n o ≡ thrown f) × (o ≡ thrown f))
  drop_value-cases (ok a) = inl refl
  drop_value-cases (thrown f) = inr (f, refl, refl)

  after_me-settles :
      (r : Outcome (Option UserResponse)) (w : World n)
      → ((after_me n r w).0 ≡ ok tt) × (require_auth (after_me n r w).1.store.state ≢ blank)
  unfolding set_session clear_session notify require_auth
  after_me-settles (ok (some me)) w = (refl, λ e. cc)
  after_me-settles (ok none) w = (refl, λ e. cc)
  after_me-settles (thrown f) w = (refl, λ e. cc)

  after_restore-settles :
      (t : Outcome Bool) (w0 w : World n)
      → ((f : Failure) → t ≡ thrown f → w.store ≡ w0.store)
      → let out = after_restore n t w in
        ((out.0 ≡ ok tt) × (require_auth out.1.store.state ≢ blank))
        ⊎ ((f : Failure) × (out.0 ≡ thrown f) × (t ≡ thrown f) × (out.1.store ≡ w0.store))
  unfolding clear_session notify require_auth
  after_restore-settles (thrown f) w0 w same = inr (f, refl, refl, same f refl)
  after_restore-settles (ok false) w0 w same = inl (refl, λ e. cc)
  after_restore-settles (ok true) w0 w same =
      let (r, w') = request n user (txt "/me") get_init w in inl (after_me-settles r w')

  refresh_reply-thrown :
      (r : Fetched Text) (w : World n) (f : Failure)
      → (refresh_reply n r w).0 ≡ thrown f
      → (refresh_reply n r w).1.store ≡ w.store
  refresh_reply-thrown network_error w f e = refl
  refresh_reply-thrown (response r) w f e = ground arith

  do_refresh-thrown :
      (w : World n) (f : Failure)
      → (do_refresh n w).0 ≡ thrown f
      → (do_refresh n w).1.store ≡ w.store
  unfolding do_refresh
  do_refresh-thrown w f e =
      let (r, srv) = n.fetch refreshed (refresh_request n) w.server in
      refresh_reply-thrown r (record w { server = srv }) f e

  after_login-cases :
      (r : Outcome (Option LoginResponse)) (w0 w : World n)
      → w.store ≡ w0.store
      → let out = after_login n r w in
        ((b : LoginResponse) × (out.0 ≡ ok tt)
          × (out.1.store ≡ set_session b.access_token (to_auth_user b.user) w0.store)
          × (require_auth out.1.store.state ≡ children))
        ⊎ ((f : Failure) × (out.0 ≡ thrown f) × (out.1.store ≡ w0.store))
  unfolding set_session notify require_auth
  after_login-cases (thrown f) w0 w same = inr (f, refl, same)
  after_login-cases (ok none) w0 w same = inr (type_error, refl, same)
  after_login-cases (ok (some b)) w0 w same =
      inl (b, refl, ap (set_session b.access_token (to_auth_user b.user)) same, refl)

-- Whatever the backend answers, signing in, signing out, restoring the session and any call of
-- `request` leave a session in which a user is present exactly when the status is 'authenticated',
-- and then with a token.
pub session-IsConsistent :
    (n : Network) (s : Shape) (path email password : Text) (i : Init) (w : World n)
    → IsConsistent w.store.state
    → IsConsistent (sign_in n email password w).1.store.state
      × IsConsistent (logout n w).1.store.state
      × IsConsistent (restore_session n w).1.store.state
      × IsConsistent (request n s path i w).1.store.state
unfolding sign_in logout restore_session
session-IsConsistent n s path email password i w v = (
  let (r, w') = request n login (txt "/auth/login") (login_init n email password) w in
      after_login-Consistent n r w' (request-Consistent n login _ _ w v),
  clear_session-IsConsistent _,
  let (t, w') = do_refresh n w in after_restore-Consistent n t w' (do_refresh-Consistent n w v),
  request-Consistent n s path i w v,
)

-- Signing out ends the session even when the request fails; the failure is still thrown.
pub logout_ends :
    (n : Network) (w : World n)
    → let out = logout n w in
      (out.1.store.state ≡ record { access_token = none; user = none; status = anonymous })
      × (require_auth out.1.store.state ≡ to_login)
      × ((out.0 ≡ ok tt)
          ⊎ ((f : Failure) × (out.0 ≡ thrown f)
              × ((request n nothing (txt "/auth/logout") post_init w).0 ≡ thrown f)))
unfolding logout clear_session notify require_auth
logout_ends n w = (refl, refl, drop_value-cases n _)

-- Restoring the session either settles it, so that the guard shows the pages or the sign-in page, or
-- throws because the refresh failed to run, and then leaves it as it was.
pub restore_session_settles :
    (n : Network) (w : World n)
    → let out = restore_session n w in
      ((out.0 ≡ ok tt) × (require_auth out.1.store.state ≢ blank))
      ⊎ ((f : Failure) × (out.0 ≡ thrown f)
          × ((do_refresh n w).0 ≡ thrown f)
          × (out.1.store ≡ w.store))
unfolding restore_session
restore_session_settles n w =
    let (t, w') = do_refresh n w in after_restore-settles n t w w' (do_refresh-thrown n w)

-- Signing in either sets the session of the answer, so that the guard shows the pages, or throws and
-- leaves the session as it was.
pub sign_in_cases :
    (n : Network) (email password : Text) (w : World n)
    → let out = sign_in n email password w in
      ((b : LoginResponse) × (out.0 ≡ ok tt)
        × (out.1.store ≡ set_session b.access_token (to_auth_user b.user) w.store)
        × (require_auth out.1.store.state ≡ children))
      ⊎ ((f : Failure) × (out.0 ≡ thrown f) × (out.1.store ≡ w.store))
unfolding sign_in starts_with
sign_in_cases n email password w =
    let (r, w') = request n login (txt "/auth/login") (login_init n email password) w in
    after_login-cases n r w w' (request-store n login _ _ w starts)
  where
    starts : starts_with (txt "/auth/login") (txt "/auth/") ≡ true
    starts = refl

-- If the backend cannot be reached when the panel is opened, restoring the session throws and the
-- status stays 'checking': the guard goes on showing a blank page, not the sign-in page.
pub restore_session_offline :
    (n : Network) (w : World n)
    → w.store.state.status ≡ checking
    → (n.fetch refreshed (refresh_request n) w.server).0 ≡ network_error
    → let out = restore_session n w in
      (out.0 ≡ thrown network) × (require_auth out.1.store.state ≡ blank)
unfolding restore_session do_refresh require_auth
restore_session_offline n w c e = ground arith

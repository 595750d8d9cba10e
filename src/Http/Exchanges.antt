-- ===== src/Http/Exchanges.antt =====
-- web/src/lib/http.ts: how a call of `request` and a refresh may run, as what is asked and answered.
use ahmed_sila.Base.{
  ap, Bool-cases, ℕ, ◌≡◌, refl, inl, inr, Bool, true, false, Option, none, some, List, ◌∷◌, arith,
}
use ahmed_sila.Text.{Text, txt, starts_with}
use ahmed_sila.Session.{clear_session, update_access_token}
use ahmed_sila.Http.{
  ErrorBody, Failure, network, syntax_error, type_error, Outcome, ok, thrown, Init, Request, Body,
  not_json, null_body, object, Response, Fetched, network_error, response, Network, World, is_ok,
  build_request, refresh_request, store_token, refresh_reply, do_refresh,
}
use ahmed_sila.Http.Payloads.{Shape, El, refreshed}
use ahmed_sila.Http.Ends.{Is2xx, Ends, error_of, ok_iff, not_ok}

-- One request with what `fetch` gave for it.
pub record Exchange : Type 0 where
  pub asked : Request
  pub shape : Shape
  pub got : Fetched (El shape)

abbrev pub exchange : Request → (s : Shape) → Fetched (El s) → Exchange
exchange r s a = record { asked = r; shape = s; got = a }

-- The network `n`, with the list of its exchanges, the latest first.
abbrev pub traced : Network → Network
traced n = record {
  State = n.State × List Exchange;
  fetch = λ s r st. let (a, t) = n.fetch s r st.0 in (a, (t, exchange r s a ∷ st.1));
}

-- What an answer that stands gives the call.
abbrev pub Results : {A : Type 0} → Fetched A → Outcome (Option A) → Type 0
Results network_error out = out ≡ thrown network
Results (response r) out = Ends r out

-- An answer on which a refresh is tried.
abbrev pub AsksRefresh : {A : Type 0} → Text → Fetched A → Type 0
AsksRefresh path network_error = ⊥
AsksRefresh path (response r) = (r.status ≡ 401) × (starts_with path (txt "/auth/") ≡ false)

-- An answer to a refresh that neither refuses it nor has a token.
abbrev pub NoToken : Body Text → Failure → Type 0
NoToken not_json f = f ≡ syntax_error
NoToken null_body f = f ≡ type_error
NoToken (object error none) f = f ≡ type_error
NoToken (object error (some t)) f = ⊥

abbrev pub FailsWith : Fetched Text → Failure → Type 0
FailsWith network_error f = f ≡ network
FailsWith (response q) f = Is2xx q.status × NoToken q.body f

module _ (n : Network) where
  -- How a call may run: what it asks and is answered (the latest first), the session that it leaves and
  -- what it returns.
  pub data Run (path : Text) (i : Init) (s : Shape) (w : World (traced n))
      (out : Outcome (Option (El s)) × World (traced n)) : Type 0 where
    -- The first answer stands: it is no 401, or the path is under /auth/, or nothing came.
    direct :
        (a : Fetched (El s))
        → ¬ AsksRefresh path a
        → out.1.server.1 ≡ exchange (build_request path i w.store.state) s a ∷ w.server.1
        → out.1.store ≡ w.store
        → Results a out.0
        → Run path i s w out
    -- The refresh failed to run: its error is the call's, and the session stays.
    failed :
        (r : Response (El s)) (a : Fetched Text) (f : Failure)
        → AsksRefresh path (response r)
        → FailsWith a f
        → out.1.server.1
          ≡ exchange (refresh_request n) refreshed a
            ∷ exchange (build_request path i w.store.state) s (response r)
            ∷ w.server.1
        → out.1.store ≡ w.store
        → out.0 ≡ thrown f
        → Run path i s w out
    -- The backend refused to refresh: the session ends, and the call throws the 401.
    refused :
        (r : Response (El s)) (q : Response Text)
        → AsksRefresh path (response r)
        → ¬ Is2xx q.status
        → out.1.server.1
          ≡ exchange (refresh_request n) refreshed (response q)
            ∷ exchange (build_request path i w.store.state) s (response r)
            ∷ w.server.1
        → out.1.store ≡ clear_session w.store
        → out.0 ≡ thrown (error_of r)
        → Run path i s w out
    -- The token was refreshed, the request sent once more with it, and its answer stands.
    retried :
        (r : Response (El s)) (q : Response Text) (error : Option ErrorBody) (t : Text)
        (a : Fetched (El s))
        → AsksRefresh path (response r)
        → Is2xx q.status
        → q.body ≡ object error (some t)
        → out.1.server.1
          ≡ exchange (build_request path i (record (w.store.state) { access_token = some t })) s a
            ∷ exchange (refresh_request n) refreshed (response q)
            ∷ exchange (build_request path i w.store.state) s (response r)
            ∷ w.server.1
        → out.1.store ≡ update_access_token t w.store
        → Results a out.0
        → Run path i s w out

  -- How a refresh that is answered `a` may run: it fails, the backend refuses it, or it gets a token and
  -- stores it.
  pub data RefreshRun (w : World (traced n)) (a : Fetched Text)
      (out : Outcome Bool × World (traced n)) : Type 0 where
    fails :
        (f : Failure)
        → FailsWith a f
        → out.0 ≡ thrown f
        → out.1.store ≡ w.store
        → RefreshRun w a out
    refuses :
        (q : Response Text)
        → a ≡ response q
        → ¬ Is2xx q.status
        → out.0 ≡ ok false
        → out.1.store ≡ w.store
        → RefreshRun w a out
    gets :
        (q : Response Text) (error : Option ErrorBody) (t : Text)
        → a ≡ response q
        → Is2xx q.status
        → q.body ≡ object error (some t)
        → out.0 ≡ ok true
        → out.1.store ≡ update_access_token t w.store
        → RefreshRun w a out

  store_token-RefreshRun :
      (w0 w : World (traced n)) (status : ℕ) (b : Body Text)
      → Is2xx status
      → w.store ≡ w0.store
      → RefreshRun w0 (response (record { status = status; body = b })) (store_token (traced n) b w)
  store_token-RefreshRun w0 w status not_json good same = fails syntax_error (good, refl) refl same
  store_token-RefreshRun w0 w status null_body good same = fails type_error (good, refl) refl same
  store_token-RefreshRun w0 w status (object error none) good same =
      fails type_error (good, refl) refl same
  store_token-RefreshRun w0 w status (object error (some t)) good same =
      gets (record { status = status; body = object error (some t) }) error t refl good refl refl
        (ap (update_access_token t) same)

  refresh_reply-RefreshRun :
      (w0 w : World (traced n)) (a : Fetched Text)
      → w.store ≡ w0.store
      → RefreshRun w0 a (refresh_reply (traced n) a w)
  refresh_reply-RefreshRun w0 w network_error same = fails network refl refl same
  refresh_reply-RefreshRun w0 w (response q) same = elim (Bool-cases (is_ok q.status)) [
    | inl e ↦ rw e (store_token-RefreshRun w0 w q.status q.body ((ok_iff q.status).0 e) same)
    | inr e ↦ rw e (refuses q refl (not_ok q.status e) refl same)
  ]

  -- What the network answers to a refresh.
  abbrev pub refresh_answer : World (traced n) → Fetched Text
  refresh_answer w = ((traced n).fetch refreshed (refresh_request (traced n)) w.server).0

  pub do_refresh-trace :
      (w : World (traced n))
      → (do_refresh (traced n) w).1.server.1
        ≡ exchange (refresh_request n) refreshed (refresh_answer w) ∷ w.server.1
  unfolding do_refresh
  do_refresh-trace w = ground arith

  pub do_refresh-RefreshRun :
      (w : World (traced n)) → RefreshRun w (refresh_answer w) (do_refresh (traced n) w)
  unfolding do_refresh
  do_refresh-RefreshRun w =
      let (a, srv) = (traced n).fetch refreshed (refresh_request (traced n)) w.server in
      refresh_reply-RefreshRun w (record w { server = srv }) a refl

-- ===== src/Http/Retry.antt =====
-- What a call of `request` sends and returns.
use ahmed_sila.Base.{ap, ◌∙◌, Bool-cases, ◌≡◌, refl, inl, inr, Bool, true, false, List, ◌∷◌, arith}
use ahmed_sila.Text.{Text}
use mathlib.Core.Path.{ap₂}
use ahmed_sila.Session.{Store, notify, clear_session, update_access_token}
use ahmed_sila.Http.{
  Outcome, thrown, Init, Response, Fetched, network_error, response, Network, World, build_request,
  finish, send, refresh_request, do_refresh, retry_reply, retry, after_refresh, needs_refresh,
  first_reply, request,
}
use ahmed_sila.Http.Payloads.{Shape, El, refreshed}
use ahmed_sila.Http.Ends.{error_of, finish-Ends}
use ahmed_sila.Http.Exchanges.{
  Exchange, exchange, traced, Results, AsksRefresh, Run, direct, failed, refused, retried,
  RefreshRun, fails, refuses, gets, refresh_answer, do_refresh-trace, do_refresh-RefreshRun,
}

module _ (n : Network) where
  needs_refresh-AsksRefresh :
      {A : Type 0} (path : Text) (r : Response A)
      → needs_refresh n path r.status ≡ true
      → AsksRefresh path (response r)
  needs_refresh-AsksRefresh path r e = ground (arith, e)

  not_needed :
      {A : Type 0} (path : Text) (r : Response A)
      → needs_refresh n path r.status ≡ false
      → ¬ AsksRefresh path (response r)
  not_needed path r e h = ground (arith, e, h)

  finish-401 : {A : Type 0} (r : Response A) → r.status ≡ 401 → finish r ≡ thrown (error_of r)
  finish-401 r e = elim (finish-Ends r) [
    | inl h ↦ h.1
    | inr (inl h) ↦ ground (arith, e, h.0)
    | inr (inr h) ↦ ground (arith, e, h.0)
  ]

  module _ (s : Shape) (path : Text) (i : Init) where
    -- What the network answers to the request in that world, and the world after it.
    abbrev answer_in : World (traced n) → Fetched (El s)
    answer_in w = (send (traced n) s path i w).0

    abbrev after_send : World (traced n) → World (traced n)
    after_send w = (send (traced n) s path i w).1

    abbrev first_exchange : World (traced n) → Fetched (El s) → Exchange
    first_exchange w a = exchange (build_request path i w.store.state) s a

    send-trace :
        (w : World (traced n))
        → ((after_send w).server.1 ≡ first_exchange w (answer_in w) ∷ w.server.1)
          × ((after_send w).store ≡ w.store)
    unfolding send
    send-trace w = (refl, refl)

    retry_reply-Results :
        (a : Fetched (El s)) (w : World (traced n)) → Results a (retry_reply (traced n) a w).0
    retry_reply-Results network_error w = refl
    retry_reply-Results (response r) w = finish-Ends r

    retry_reply-world :
        (a : Fetched (El s)) (w : World (traced n)) → (retry_reply (traced n) a w).1 ≡ w
    retry_reply-world network_error w = refl
    retry_reply-world (response r) w = refl

    retry-Results :
        (w : World (traced n))
        → let out = retry (traced n) s path i w in
          Results (answer_in w) out.0
          × (out.1.store ≡ w.store)
          × (out.1.server.1 ≡ first_exchange w (answer_in w) ∷ w.server.1)
    unfolding retry send
    retry-Results w =
        let same = retry_reply-world (answer_in w) (after_send w) in
        (
          retry_reply-Results (answer_in w) (after_send w),
          ap (λ (v : World (traced n)). v.store) same,
          ap (λ (v : World (traced n)). v.server.1) same,
        )

    after_refresh-Run :
        (w0 w : World (traced n)) (r : Response (El s)) (a : Fetched Text)
        (out : Outcome Bool × World (traced n))
        → w.store ≡ w0.store
        → w.server.1 ≡ first_exchange w0 (response r) ∷ w0.server.1
        → AsksRefresh path (response r)
        → out.1.server.1 ≡ exchange (refresh_request n) refreshed a ∷ w.server.1
        → RefreshRun n w a out
        → Run n path i s w0 (after_refresh (traced n) s path i r out.0 out.1)
    unfolding update_access_token notify
    after_refresh-Run w0 w r a out same sent asks asked (fails f why e k) = rw e (
        failed r a f asks why (asked ∙ ap (◌∷◌ (exchange (refresh_request n) refreshed a)) sent)
          (k ∙ same) refl)
    after_refresh-Run w0 w r a out same sent asks asked (refuses q why bad e k) =
        let trace =
          asked
          ∙ ap₂
              (λ (b : Fetched Text) (l : List Exchange).
                exchange (refresh_request n) refreshed b ∷ l)
              why sent in
        rw e (refused r q asks bad trace (ap clear_session (k ∙ same)) (finish-401 r asks.0))
    after_refresh-Run w0 w r a out same sent asks asked (gets q error t why good body e k) =
        let (result, store, trace) = retry-Results out.1 in
        let before =
          asked
          ∙ ap₂
              (λ (b : Fetched Text) (l : List Exchange).
                exchange (refresh_request n) refreshed b ∷ l)
              why sent in
        rw e (
          retried r q error t (answer_in out.1) asks good body
            (trace
              ∙ ap₂
                  (λ (st : Store) (l : List Exchange).
                    exchange (build_request path i st.state) s (answer_in out.1) ∷ l)
                  (k ∙ ap (update_access_token t) same) before)
            (store ∙ k ∙ ap (update_access_token t) same) result)

    first_reply-Run :
        (w0 w : World (traced n)) (a : Fetched (El s))
        → w.store ≡ w0.store
        → w.server.1 ≡ first_exchange w0 a ∷ w0.server.1
        → Run n path i s w0 (first_reply (traced n) s path i a w)
    first_reply-Run w0 w network_error same sent = direct network_error (λ h. h) sent same refl
    first_reply-Run w0 w (response r) same sent =
        elim (Bool-cases (needs_refresh n path r.status)) [
          | inl e ↦ rw e (
              after_refresh-Run w0 w r (refresh_answer n w) (do_refresh (traced n) w) same sent
                (needs_refresh-AsksRefresh path r e) (do_refresh-trace n w)
                (do_refresh-RefreshRun n w))
          | inr e ↦ rw e (direct (response r) (not_needed path r e) sent same (finish-Ends r))
        ]

    -- A call sends its request; only if that is answered 401 and its path is not under /auth/, one refresh;
    -- and only if the refresh is answered by a 2xx with a token, which it stores, the request once more,
    -- with that token. It gives what the answer to its last request says, the first 401 where the refresh is
    -- answered by another status, which alone ends the session, or the refresh's error.
    pub request-Run : (w : World (traced n)) → Run n path i s w (request (traced n) s path i w)
    unfolding request
    request-Run w =
        let (sent, same) = send-trace w in first_reply-Run w (after_send w) (answer_in w) same sent

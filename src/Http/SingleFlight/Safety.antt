-- ===== src/Http/SingleFlight/Safety.antt =====
-- web/src/lib/http.ts, `refreshPromise`: one refresh at a time, in any order of answers.
use ahmed_sila.Base.{
  ℕ, zero, suc, ◌≤◌, ◌≡◌, refl, ◌≢◌, ◌↔◌, ◌⊎◌, inr, Bool, true, false, not, ◌&&◌, Option, List, [],
  ◌∷◌, ◌++◌, arith, map, length, any,
}
use ahmed_sila.Http.SingleFlight.{
  Phase, fetching, retrying, waiting, finished, Flight, asking, granted, denied, System, Event,
  start, unauthorized, answered, handled, replied, refused, unreachable, lost, unreadable,
  update_at, get_elem?, step, run, fresh, wake, is_waiting, is_lost, on_unauthorized, on_answered,
  on_handled, on_refused, on_replied, on_unreachable, on_lost, on_unreadable, settle,
  refresh_access_token,
}

-- `refreshPromise` is set exactly while a refresh is under way, which is one at most, and a call waits
-- only while it is set.
abbrev Shape : System → List Flight → Type 0
Shape s [] = (s.pending ≡ false) × (any is_waiting s.calls ≡ false)
Shape s (f ∷ []) = s.pending ≡ true
Shape s (f ∷ g ∷ fs) = ⊥

-- The cookie of a refresh under way and the backend's agree.
abbrev Agrees : System → Flight → Type 0
Agrees s (asking c) = (c ≡ s.valid) × (s.cookie ≡ s.valid)
Agrees s (granted c) = c ≡ s.valid
Agrees s denied = s.cookie ≡ s.valid

abbrev Cookies : System → List Flight → Type 0
Cookies s [] = s.cookie ≡ s.valid
Cookies s (f ∷ fs) = Agrees s f

-- `kept`: no reply has been lost on its way back.
record Inv (kept : Bool) (s : System) : Type 0 where
  shape : Shape s s.flights
  agree : (kept ≡ false) ⊎ Cookies s s.flights
  no_theft : (kept ≡ false) ⊎ (s.theft ≡ false)

module _ (to : Phase) (quiet : is_waiting to ≡ false) where
  any-wake : (ps : List Phase) → any is_waiting (map (wake to) ps) ≡ false
  any-wake [] = refl
  any-wake (fetching ∷ ps) = any-wake ps
  any-wake (retrying ∷ ps) = any-wake ps
  any-wake (waiting ∷ ps) = rw quiet (any-wake ps)
  any-wake (finished ∷ ps) = any-wake ps

  any-update_at :
      (i : ℕ) (ps : List Phase)
      → any is_waiting ps ≡ false
      → any is_waiting (update_at i (λ _. to) ps) ≡ false
  any-update_at i [] h = refl
  any-update_at zero (p ∷ ps) h = ground arith
  any-update_at (suc i) (p ∷ ps) h = ground (arith, any-update_at i ps)

any-start :
    (ps : List Phase) → any is_waiting ps ≡ false → any is_waiting (ps ++ fetching ∷ []) ≡ false
any-start [] h = refl
any-start (p ∷ ps) h = ground (arith, any-start ps)

Inv-fresh : (c : ℕ) → Inv true (fresh c)
Inv-fresh c = record { shape = (refl, refl); agree = inr refl; no_theft = inr refl }

module _ (b : Bool) (i : ℕ) (s : System) (v : Inv b s) where
  unauthorized-Inv : (p : Option Phase) → Inv b (on_unauthorized i p s)
  unfolding on_unauthorized refresh_access_token
  unauthorized-Inv p = ground (arith, any-update_at finished refl i s.calls)

  answered-Inv : (p : Option Phase) → Inv b (on_answered i p s)
  unfolding on_answered
  answered-Inv p = ground (arith, any-update_at finished refl i s.calls)

  handled-Inv : Inv b (on_handled i (get_elem? s.flights i) s)
  unfolding on_handled
  handled-Inv = ground arith

  refused-Inv : Inv b (on_refused i (get_elem? s.flights i) s)
  unfolding on_refused
  refused-Inv = ground arith

  replied-Inv : Inv b (on_replied i (get_elem? s.flights i) s)
  unfolding on_replied settle
  replied-Inv = ground (arith, any-wake retrying refl s.calls, any-wake finished refl s.calls)

  unreachable-Inv : Inv b (on_unreachable i (get_elem? s.flights i) s)
  unfolding on_unreachable settle
  unreachable-Inv = ground (arith, any-wake finished refl s.calls)

  lost-Inv : Inv false (on_lost i (get_elem? s.flights i) s)
  unfolding on_lost settle
  lost-Inv = ground (arith, any-wake finished refl s.calls)

  unreadable-Inv : Inv b (on_unreadable i (get_elem? s.flights i) s)
  unfolding on_unreadable settle
  unreadable-Inv = ground (arith, any-wake finished refl s.calls)

start-Inv : (b : Bool) (s : System) → Inv b s → Inv b (step s start)
unfolding step
start-Inv b s v = ground (arith, any-start s.calls)

weaken : {s : System} (b c : Bool) → c ≡ true → Inv b s → Inv (b && c) s
weaken b c e v = ground (arith, e, v)

weaken_lost : {s : System} (b : Bool) → Inv false s → Inv (b && false) s
weaken_lost b v = ground (arith, v)

step-Inv : (b : Bool) (s : System) (e : Event) → Inv b s → Inv (b && not (is_lost e)) (step s e)
unfolding step
step-Inv b s start v = weaken b true refl (start-Inv b s v)
step-Inv b s (unauthorized i) v =
    weaken b true refl (unauthorized-Inv b i s v (get_elem? s.calls i))
step-Inv b s (answered i) v = weaken b true refl (answered-Inv b i s v (get_elem? s.calls i))
step-Inv b s (handled i) v = weaken b true refl (handled-Inv b i s v)
step-Inv b s (refused i) v = weaken b true refl (refused-Inv b i s v)
step-Inv b s (replied i) v = weaken b true refl (replied-Inv b i s v)
step-Inv b s (unreachable i) v = weaken b true refl (unreachable-Inv b i s v)
step-Inv b s (lost i) v = weaken_lost b (lost-Inv b i s v)
step-Inv b s (unreadable i) v = weaken b true refl (unreadable-Inv b i s v)

-- No reply of a run has been lost.
abbrev kept_by : Bool → List Event → Bool
kept_by b [] = b
kept_by b (e ∷ es) = kept_by (b && not (is_lost e)) es

run-Inv : (b : Bool) (s : System) (es : List Event) → Inv b s → Inv (kept_by b es) (run s es)
unfolding run
run-Inv b s [] v = v
run-Inv b s (e ∷ es) v = run-Inv (b && not (is_lost e)) (step s e) es (step-Inv b s e v)

kept_by-is_lost : (b : Bool) (es : List Event) → kept_by b es ≡ (b && not (any is_lost es))
kept_by-is_lost true [] = refl
kept_by-is_lost false [] = refl
kept_by-is_lost b (e ∷ es) = ground (arith, kept_by-is_lost (b && not (is_lost e)) es)

-- Whatever the order of answers, at most one refresh is under way at a time, `refreshPromise` is set
-- exactly while one is, and a call waits only while one is; and the backend never sees a used cookie,
-- unless the reply to a refresh was lost after the backend had handled it.
pub single_flight :
    (c : ℕ) (es : List Event)
    → let s = run (fresh c) es in
      (length s.flights ≤ 1)
      × ((s.theft ≡ false) ⊎ (any is_lost es ≡ true))
      × ((s.pending ≡ true) ↔ (s.flights ≢ []))
      × ((any is_waiting s.calls ≡ false) ⊎ (s.pending ≡ true))
single_flight c es =
    let s = run (fresh c) es in
    let v = run-Inv true (fresh c) es (Inv-fresh c) in
    (
      ground (arith, v),
      ground (arith, v, kept_by-is_lost true es),
      ground (arith, v),
      ground (arith, v),
    )

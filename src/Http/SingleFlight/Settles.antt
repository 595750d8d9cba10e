-- ===== src/Http/SingleFlight/Settles.antt =====
-- The calls of web/src/lib/http.ts come to an end.
use ahmed_sila.Base.{
  ℕ, zero, suc, ◌*◌, ◌≤◌, ◌<◌, ◌≡◌, refl, ◌≢◌, ◌↔◌, ◌⊎◌, inl, inr, true, false, some, List, [], ◌∷◌,
  ◌++◌, arith, any, All, length,
}
use mathlib.Core.Path.{subst}
use ahmed_sila.Http.SingleFlight.{
  Phase, fetching, retrying, waiting, finished, Flight, asking, granted, denied, System, Event,
  start, answered, replied, refused, get_elem?, step, run, fresh, is_waiting, on_answered,
  on_refused, on_replied, settle,
}
use ahmed_sila.Http.SingleFlight.Safety.{single_flight}
use ahmed_sila.Http.SingleFlight.Work.{
  cost, toll, work, sum-update_at, sum-remove_at, sum-wake, starts, start-work, run-work, Effective,
  Effective-length,
}

run-append : (s : System) (es more : List Event) → run s (es ++ more) ≡ run (run s es) more
unfolding run
run-append s [] more = refl
run-append s (e ∷ es) more = run-append (step s e) es more

unfinished :
    (ps : List Phase)
    → All (λ p. p ≡ finished) ps
      ⊎ ((i : ℕ) × (p : Phase) × (get_elem? ps i ≡ some p) × (p ≢ finished))
unfinished [] = inl tt
unfinished (finished ∷ ps) = elim (unfinished ps) [
  | inl h ↦ inl (refl, h)
  | inr (i, p, e, k) ↦ inr (suc i, p, e, k)
]
unfinished (fetching ∷ ps) = inr (0, fetching, refl, λ e. ground (arith, e))
unfinished (retrying ∷ ps) = inr (0, retrying, refl, λ e. ground (arith, e))
unfinished (waiting ∷ ps) = inr (0, waiting, refl, λ e. ground (arith, e))

get_elem?-is_waiting :
    (i : ℕ) (ps : List Phase) → get_elem? ps i ≡ some waiting → any is_waiting ps ≡ true
get_elem?-is_waiting i [] h = ground (arith, h)
get_elem?-is_waiting zero (p ∷ ps) h = ground (arith, h)
get_elem?-is_waiting (suc i) (p ∷ ps) h = ground (arith, get_elem?-is_waiting i ps h)

-- An event that lowers the work left.
abbrev Next : System → Type 0
Next s = (e : Event) × (work (step s e) < work s)

answered-Next :
    (s : System) (i : ℕ) (p : Phase)
    → get_elem? s.calls i ≡ some p
    → (p ≡ fetching) ⊎ (p ≡ retrying)
    → Next s
unfolding step on_answered
answered-Next s i fetching h k =
    (answered i, rw h (omega (arith, sum-update_at cost i (λ _. finished) fetching s.calls h)))
answered-Next s i retrying h k =
    (answered i, rw h (omega (arith, sum-update_at cost i (λ _. finished) retrying s.calls h)))
answered-Next s i waiting h k = ground (arith, k)
answered-Next s i finished h k = ground (arith, k)

flight-Next : (s : System) (f : Flight) → get_elem? s.flights 0 ≡ some f → Next s
unfolding step on_refused on_replied settle
flight-Next s (asking c) h =
    (refused 0, rw h (omega (arith, sum-update_at toll 0 (λ _. denied) (asking c) s.flights h)))
flight-Next s (granted c) h = (
  replied 0,
  rw h (
      omega (
        arith,
        sum-remove_at toll 0 (granted c) s.flights h,
        sum-wake retrying s.calls (omega arith),
      )),
)
flight-Next s denied h = (
  replied 0,
  rw h (
      omega
        (arith, sum-remove_at toll 0 denied s.flights h, sum-wake finished s.calls (omega arith))),
)

waiting-Next :
    (s : System) (fs : List Flight)
    → s.flights ≡ fs
    → (s.pending ≡ true) ↔ (s.flights ≢ [])
    → s.pending ≡ true
    → Next s
waiting-Next s [] e pending h = absurd (pending.0 h e)
waiting-Next s (f ∷ fs) e pending h = flight-Next s f (rw e refl)

Next-of :
    (s : System) (i : ℕ) (p : Phase)
    → get_elem? s.calls i ≡ some p
    → p ≢ finished
    → (s.pending ≡ true) ↔ (s.flights ≢ [])
    → (any is_waiting s.calls ≡ false) ⊎ (s.pending ≡ true)
    → Next s
Next-of s i fetching e k pending waits = answered-Next s i fetching e (inl refl)
Next-of s i retrying e k pending waits = answered-Next s i retrying e (inr refl)
Next-of s i waiting e k pending waits =
    waiting-Next s s.flights refl pending (ground (arith, waits, get_elem?-is_waiting i s.calls e))
Next-of s i finished e k pending waits = absurd (k refl)

-- What may still come: nothing, as all calls are over, or an event that changes the system.
abbrev pub Settled : System → Type 0
Settled s = All (λ p. p ≡ finished) s.calls ⊎ ((e : Event) × (e ≢ start) × (step s e ≢ s))

Next-Settled : (s : System) → Next s → Settled s
Next-Settled s (e, lower) = inr (
  e,
  (λ h. omega (arith, start-work s, subst (λ e. work (step s e) < work s) h lower)),
  λ h. omega (arith, subst (λ t. work t < work s) h lower),
)

fresh-Settled : (c : ℕ) (es : List Event) → Settled (run (fresh c) es)
fresh-Settled c es = elim (unfinished (run (fresh c) es).calls) [
  | inl h ↦ inl h
  | inr (i, p, e, k) ↦
      let (_, _, pending, waits) = single_flight c es in
      Next-Settled (run (fresh c) es) (Next-of (run (fresh c) es) i p e k pending waits)
]

-- After any run, no more events that change something can follow without a new call than four for each
-- call that was begun; and as long as a call is not over, there is one that can follow.
pub settles :
    (c : ℕ) (es more : List Event)
    → Effective (run (fresh c) es) more
    → (length more ≤ 4 * starts es) × Settled (run (run (fresh c) es) more)
settles c es more h = (
  omega (arith, run-work (fresh c) es, Effective-length (run (fresh c) es) more h),
  subst Settled (run-append (fresh c) es more) (fresh-Settled c (es ++ more)),
)

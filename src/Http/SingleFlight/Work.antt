-- ===== src/Http/SingleFlight/Work.antt =====
-- What is left for the calls of web/src/lib/http.ts to do, as a number that every answer lowers.
use ahmed_sila.Base.{
  ℕ, zero, suc, ◌+◌, ◌*◌, ◌≤◌, ◌<◌, ◌≡◌, refl, ◌≢◌, ◌⊎◌, inl, inr, Option, none, some, List, [],
  ◌∷◌, ◌++◌, arith, map, length,
}
use ahmed_sila.Http.SingleFlight.{
  Phase, fetching, retrying, waiting, finished, Flight, asking, granted, denied, System, Event,
  start, unauthorized, answered, handled, replied, refused, unreachable, lost, unreadable,
  update_at, remove_at, get_elem?, step, run, wake, on_unauthorized, on_answered, on_handled,
  on_refused, on_replied, on_unreachable, on_lost, on_unreadable, settle, refresh_access_token,
}

-- What is left of a call: a first answer may ask for a refresh (two answers) and a second fetch.
abbrev pub cost : Phase → ℕ
cost fetching = 4
cost retrying = 1
cost waiting = 1
cost finished = 0

abbrev pub toll : Flight → ℕ
toll (asking c) = 2
toll (granted c) = 1
toll denied = 1

abbrev pub sum {ℓ} : {A : Type ℓ} → (A → ℕ) → List A → ℕ
sum w [] = 0
sum w (x ∷ xs) = w x + sum w xs

abbrev pub work : System → ℕ
work s = sum cost s.calls + sum toll s.flights

module _ {ℓ} {A : Type ℓ} (w : A → ℕ) where
  sum-append : (xs ys : List A) → sum w (xs ++ ys) ≡ sum w xs + sum w ys
  sum-append [] ys = omega arith
  sum-append (x ∷ xs) ys = omega (arith, sum-append xs ys)

  pub sum-update_at :
      (i : ℕ) (f : A → A) (x : A) (xs : List A)
      → get_elem? xs i ≡ some x
      → sum w (update_at i f xs) + w x ≡ sum w xs + w (f x)
  sum-update_at i f x [] h = ground (arith, h)
  sum-update_at zero f x (y ∷ ys) h = let e : y ≡ x = ground (arith, h) in rw e (omega arith)
  sum-update_at (suc i) f x (y ∷ ys) h = omega (arith, sum-update_at i f x ys h)

  pub sum-remove_at :
      (i : ℕ) (x : A) (xs : List A)
      → get_elem? xs i ≡ some x
      → sum w (remove_at i xs) + w x ≡ sum w xs
  sum-remove_at i x [] h = ground (arith, h)
  sum-remove_at zero x (y ∷ ys) h = let e : y ≡ x = ground (arith, h) in rw e (omega arith)
  sum-remove_at (suc i) x (y ∷ ys) h = omega (arith, sum-remove_at i x ys h)

pub sum-wake :
    (to : Phase) (ps : List Phase) → cost to ≤ 1 → sum cost (map (wake to) ps) ≤ sum cost ps
sum-wake to [] h = omega arith
sum-wake to (fetching ∷ ps) h = omega (arith, sum-wake to ps h)
sum-wake to (retrying ∷ ps) h = omega (arith, sum-wake to ps h)
sum-wake to (waiting ∷ ps) h = omega (arith, h, sum-wake to ps h)
sum-wake to (finished ∷ ps) h = omega (arith, sum-wake to ps h)

-- The event changes nothing, or lowers the work that is left.
abbrev Lowers : System → System → Type 0
Lowers s t = (t ≡ s) ⊎ (work t < work s)

refresh-work : (s : System) → work (refresh_access_token s) ≤ work s + 2
unfolding refresh_access_token
refresh-work s = ground (arith, sum-append toll s.flights (asking s.cookie ∷ []))

unauthorized-Lowers :
    (i : ℕ) (s : System) (p : Option Phase)
    → get_elem? s.calls i ≡ p
    → Lowers s (on_unauthorized i p s)
unfolding on_unauthorized
unauthorized-Lowers i s (some fetching) h =
    let t = record s { calls = update_at i (λ _. waiting) s.calls } in
    inr (omega (arith, refresh-work t, sum-update_at cost i (λ _. waiting) fetching s.calls h))
unauthorized-Lowers i s (some retrying) h =
    inr (omega (arith, sum-update_at cost i (λ _. finished) retrying s.calls h))
unauthorized-Lowers i s (some waiting) h = inl refl
unauthorized-Lowers i s (some finished) h = inl refl
unauthorized-Lowers i s none h = inl refl

answered-Lowers :
    (i : ℕ) (s : System) (p : Option Phase) → get_elem? s.calls i ≡ p → Lowers s (on_answered i p s)
unfolding on_answered
answered-Lowers i s (some fetching) h =
    inr (omega (arith, sum-update_at cost i (λ _. finished) fetching s.calls h))
answered-Lowers i s (some retrying) h =
    inr (omega (arith, sum-update_at cost i (λ _. finished) retrying s.calls h))
answered-Lowers i s (some waiting) h = inl refl
answered-Lowers i s (some finished) h = inl refl
answered-Lowers i s none h = inl refl

handled-Lowers :
    (i : ℕ) (s : System) (f : Option Flight)
    → get_elem? s.flights i ≡ f
    → Lowers s (on_handled i f s)
unfolding on_handled
handled-Lowers i s (some (asking c)) h = inr (
    ground (
      arith,
      sum-update_at toll i (λ _. granted (s.valid + 1)) (asking c) s.flights h,
      sum-update_at toll i (λ _. denied) (asking c) s.flights h,
    ))
handled-Lowers i s (some (granted c)) h = inl refl
handled-Lowers i s (some denied) h = inl refl
handled-Lowers i s none h = inl refl

refused-Lowers :
    (i : ℕ) (s : System) (f : Option Flight)
    → get_elem? s.flights i ≡ f
    → Lowers s (on_refused i f s)
unfolding on_refused
refused-Lowers i s (some (asking c)) h =
    inr (omega (arith, sum-update_at toll i (λ _. denied) (asking c) s.flights h))
refused-Lowers i s (some (granted c)) h = inl refl
refused-Lowers i s (some denied) h = inl refl
refused-Lowers i s none h = inl refl

replied-Lowers :
    (i : ℕ) (s : System) (f : Option Flight)
    → get_elem? s.flights i ≡ f
    → Lowers s (on_replied i f s)
unfolding on_replied settle
replied-Lowers i s (some (granted c)) h = inr (
    omega (
      arith,
      sum-remove_at toll i (granted c) s.flights h,
      sum-wake retrying s.calls (omega arith),
    ))
replied-Lowers i s (some denied) h = inr (
    omega (arith, sum-remove_at toll i denied s.flights h, sum-wake finished s.calls (omega arith)))
replied-Lowers i s (some (asking c)) h = inl refl
replied-Lowers i s none h = inl refl

unreachable-Lowers :
    (i : ℕ) (s : System) (f : Option Flight)
    → get_elem? s.flights i ≡ f
    → Lowers s (on_unreachable i f s)
unfolding on_unreachable settle
unreachable-Lowers i s (some (asking c)) h = inr (
    omega
      (arith, sum-remove_at toll i (asking c) s.flights h, sum-wake finished s.calls (omega arith)))
unreachable-Lowers i s (some (granted c)) h = inl refl
unreachable-Lowers i s (some denied) h = inl refl
unreachable-Lowers i s none h = inl refl

lost-Lowers :
    (i : ℕ) (s : System) (f : Option Flight) → get_elem? s.flights i ≡ f → Lowers s (on_lost i f s)
unfolding on_lost settle
lost-Lowers i s (some (granted c)) h = inr (
    omega (
      arith,
      sum-remove_at toll i (granted c) s.flights h,
      sum-wake finished s.calls (omega arith),
    ))
lost-Lowers i s (some denied) h = inr (
    omega (arith, sum-remove_at toll i denied s.flights h, sum-wake finished s.calls (omega arith)))
lost-Lowers i s (some (asking c)) h = inl refl
lost-Lowers i s none h = inl refl

unreadable-Lowers :
    (i : ℕ) (s : System) (f : Option Flight)
    → get_elem? s.flights i ≡ f
    → Lowers s (on_unreadable i f s)
unfolding on_unreadable settle
unreadable-Lowers i s (some (granted c)) h = inr (
    omega (
      arith,
      sum-remove_at toll i (granted c) s.flights h,
      sum-wake finished s.calls (omega arith),
    ))
unreadable-Lowers i s (some denied) h = inl refl
unreadable-Lowers i s (some (asking c)) h = inl refl
unreadable-Lowers i s none h = inl refl

step-Lowers : (s : System) (e : Event) → (e ≡ start) ⊎ Lowers s (step s e)
unfolding step
step-Lowers s start = inl refl
step-Lowers s (unauthorized i) = inr (unauthorized-Lowers i s (get_elem? s.calls i) refl)
step-Lowers s (answered i) = inr (answered-Lowers i s (get_elem? s.calls i) refl)
step-Lowers s (handled i) = inr (handled-Lowers i s (get_elem? s.flights i) refl)
step-Lowers s (refused i) = inr (refused-Lowers i s (get_elem? s.flights i) refl)
step-Lowers s (replied i) = inr (replied-Lowers i s (get_elem? s.flights i) refl)
step-Lowers s (unreachable i) = inr (unreachable-Lowers i s (get_elem? s.flights i) refl)
step-Lowers s (lost i) = inr (lost-Lowers i s (get_elem? s.flights i) refl)
step-Lowers s (unreadable i) = inr (unreadable-Lowers i s (get_elem? s.flights i) refl)

abbrev pub starts : List Event → ℕ
starts [] = 0
starts (start ∷ es) = suc (starts es)
starts (_ ∷ es) = starts es

pub start-work : (s : System) → work (step s start) ≡ work s + 4
unfolding step
start-work s = omega (arith, sum-append cost s.calls (fetching ∷ []))

step-work : (s : System) (e : Event) → work (step s e) ≤ work s + 4 * starts (e ∷ [])
step-work s start = omega (arith, start-work s)
step-work s (unauthorized i) = ground (arith, step-Lowers s (unauthorized i))
step-work s (answered i) = ground (arith, step-Lowers s (answered i))
step-work s (handled i) = ground (arith, step-Lowers s (handled i))
step-work s (refused i) = ground (arith, step-Lowers s (refused i))
step-work s (replied i) = ground (arith, step-Lowers s (replied i))
step-work s (unreachable i) = ground (arith, step-Lowers s (unreachable i))
step-work s (lost i) = ground (arith, step-Lowers s (lost i))
step-work s (unreadable i) = ground (arith, step-Lowers s (unreadable i))

starts-cons : (e : Event) (es : List Event) → starts (e ∷ es) ≡ starts (e ∷ []) + starts es
starts-cons e es = ground arith

pub run-work : (s : System) (es : List Event) → work (run s es) ≤ work s + 4 * starts es
unfolding run
run-work s [] = omega arith
run-work s (e ∷ es) = omega (arith, step-work s e, run-work (step s e) es, starts-cons e es)

-- Events that bring something: no call begins, and each changes the system.
abbrev pub Effective : System → List Event → Type 0
Effective s [] = Unit
Effective s (e ∷ es) = (e ≢ start) × (step s e ≢ s) × Effective (step s e) es

pub Effective-length :
    (s : System) (es : List Event) → Effective s es → length es + work (run s es) ≤ work s
unfolding run
Effective-length s [] h = omega arith
Effective-length s (e ∷ es) (a, b, h) = elim (step-Lowers s e) [
  | inl k ↦ absurd (a k)
  | inr (inl k) ↦ absurd (b k)
  | inr (inr k) ↦ omega (arith, k, Effective-length (step s e) es h)
]

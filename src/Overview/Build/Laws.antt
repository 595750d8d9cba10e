-- ===== src/Overview/Build/Laws.antt =====
-- The overview agrees with the clients that it is counted from.
use ahmed_sila.Base.{
  ℕ, zero, suc, ◌+◌, ◌≤◌, ◌≡◌, refl, ap, sym, ◌∙◌, ◌⊎◌, inl, inr, Bool, true, Option, none, some,
  List, [], ◌∷◌, ◌++◌, filter, take, length, leb, length-take, Member, Member-filter, arith,
  Bool-cases,
}
use ahmed_sila.Text.{Text}
use ahmed_sila.Clients.Types.{active, trial, paused, status_eq, status_eq_iff, Client}
use ahmed_sila.Overview.Types.{ExpiringTrial, OverviewEvent}
use ahmed_sila.Overview.Build.{
  horizon, trials_shown, trial_of, trials, count, insert, sort, expiring,
}

-- The numbers of clients that are active, on trial and paused add up to all.
pub count-sum : (cs : List Client) → count active cs + count trial cs + count paused cs ≡ length cs
unfolding count
count-sum [] = refl
count-sum (c ∷ cs) = ground (arith, count-sum cs)

-- A client on trial whose end is the trial's.
abbrev pub IsTrialOf : ExpiringTrial → Client → Type 0
IsTrialOf t c =
    (c.status ≡ trial)
    × (c.trial_ends_at ≡ some t.ends_at)
    × (t.client_id ≡ c.id)
    × (t.name ≡ c.name)

Member-append :
    (t : ExpiringTrial) (xs ys : List ExpiringTrial)
    → Member t (xs ++ ys)
    → Member t xs ⊎ Member t ys
Member-append t [] ys m = inr m
Member-append t (x ∷ xs) ys m = ground (arith, m, Member-append t xs ys)

Member-take :
    (n : ℕ) (t : ExpiringTrial) (xs : List ExpiringTrial) → Member t (take n xs) → Member t xs
Member-take zero t xs m = elim m [ ]
Member-take (suc n) t [] m = m
Member-take (suc n) t (x ∷ xs) m = ground (arith, m, Member-take n t xs)

Member-insert :
    (le : Text → Text → Bool) (t u : ExpiringTrial) (us : List ExpiringTrial)
    → Member t (insert le u us)
    → (t ≡ u) ⊎ Member t us
unfolding insert
Member-insert le t u [] m = ground (arith, m)
Member-insert le t u (v ∷ us) m = ground (arith, m, Member-insert le t u us)

Member-sort :
    (le : Text → Text → Bool) (t : ExpiringTrial) (us : List ExpiringTrial)
    → Member t (sort le us)
    → Member t us
unfolding sort
Member-sort le t [] m = m
Member-sort le t (u ∷ us) m =
    ground (arith, Member-insert le t u (sort le us) m, Member-sort le t us)

trial_of-IsTrialOf :
    (t : ExpiringTrial) (c : Client) (o : Option Text)
    → c.trial_ends_at ≡ o
    → c.status ≡ trial
    → Member t (trial_of c o)
    → IsTrialOf t c
trial_of-IsTrialOf t c none e h m = elim m [ ]
trial_of-IsTrialOf t c (some []) e h m = elim m [ ]
trial_of-IsTrialOf t c (some (x ∷ ends)) e h m = elim m [
  | inl p ↦ (
    h,
    e ∙ ap (λ (u : ExpiringTrial). some u.ends_at) (sym p),
    ap (λ (u : ExpiringTrial). u.client_id) p,
    ap (λ (u : ExpiringTrial). u.name) p,
  )
  | inr z ↦ elim z [ ]
]

pub Member-trials :
    (t : ExpiringTrial) (cs : List Client)
    → Member t (trials cs)
    → (c : Client) × Member c cs × IsTrialOf t c
unfolding trials
Member-trials t [] m = elim m [ ]
Member-trials t (c ∷ cs) m = elim (Bool-cases (status_eq c.status trial)) [
  | inl e ↦
      (let m' : Member t (trial_of c c.trial_ends_at ++ trials cs) = ground (arith, m, e) in
        elim (Member-append t (trial_of c c.trial_ends_at) (trials cs) m') [
          | inl h ↦ (
            c,
            inl refl,
            trial_of-IsTrialOf t c c.trial_ends_at refl ((status_eq_iff c.status trial).0 e) h,
          )
          | inr h ↦ (let (d, k, q) = Member-trials t cs h in (d, inr k, q))
        ])
  | inr e ↦
      (let m' : Member t (trials cs) = ground (arith, m, e) in
        let (d, k, q) = Member-trials t cs m' in (d, inr k, q))
]

-- The ends stand in order.
abbrev pub Sorted : (Text → Text → Bool) → List ExpiringTrial → Type 0
Sorted le [] = Unit
Sorted le (t ∷ []) = Unit
Sorted le (t ∷ u ∷ us) = (le t.ends_at u.ends_at ≡ true) × Sorted le (u ∷ us)

module _ (le : Text → Text → Bool) (total : (a b : Text) → (le a b ≡ true) ⊎ (le b a ≡ true)) where
  insert-Sorted :
      (t : ExpiringTrial) (us : List ExpiringTrial) → Sorted le us → Sorted le (insert le t us)
  unfolding insert
  insert-Sorted t [] h = tt
  insert-Sorted t (u ∷ []) h = ground (arith, total t.ends_at u.ends_at)
  insert-Sorted t (u ∷ v ∷ us) h =
      ground (
        arith,
        h,
        total t.ends_at u.ends_at,
        total t.ends_at v.ends_at,
        insert-Sorted t (v ∷ us) h.1,
      )

  sort-Sorted : (us : List ExpiringTrial) → Sorted le (sort le us)
  unfolding sort
  sort-Sorted [] = tt
  sort-Sorted (u ∷ us) = insert-Sorted u (sort le us) (sort-Sorted us)

  take-Sorted : (n : ℕ) (us : List ExpiringTrial) → Sorted le us → Sorted le (take n us)
  take-Sorted zero us h = tt
  take-Sorted (suc n) [] h = tt
  take-Sorted (suc zero) (u ∷ us) h = tt
  take-Sorted (suc (suc n)) (u ∷ []) h = tt
  take-Sorted (suc (suc n)) (u ∷ v ∷ us) h = (h.0, take-Sorted (suc n) (v ∷ us) h.1)

-- A row of the panel is one of the trials, and its end is near enough.
pub Member-expiring :
    (instant : Text → ℕ) (le : Text → Text → Bool) (events : List OverviewEvent) (now : ℕ)
    (cs : List Client) (t : ExpiringTrial)
    → Member t (expiring instant le events now cs)
    → Member t (trials cs) × (leb (instant t.ends_at) (now + horizon) ≡ true)
unfolding expiring
Member-expiring instant le events now cs t m =
    let p : ExpiringTrial → Bool = λ u. leb (instant u.ends_at) (now + horizon) in
    Member-filter p t (trials cs) (
      Member-sort le t (filter p (trials cs))
        (Member-take trials_shown t (sort le (filter p (trials cs))) m))

-- The panel of the trials that end soon has at most five rows, in the order of their ends (for an order
-- of texts in which any two compare), and each row is a client on trial whose end is at most 14 days
-- away.
pub expiring_lem :
    (instant : Text → ℕ) (le : Text → Text → Bool) (events : List OverviewEvent) (now : ℕ)
    (cs : List Client) (t : ExpiringTrial)
    → ((a b : Text) → (le a b ≡ true) ⊎ (le b a ≡ true))
    → Member t (expiring instant le events now cs)
    → (length (expiring instant le events now cs) ≤ 5)
      × Sorted le (expiring instant le events now cs)
      × (instant t.ends_at ≤ now + horizon)
      × ((c : Client) × Member c cs × IsTrialOf t c)
unfolding expiring
expiring_lem instant le events now cs t total m =
    let p : ExpiringTrial → Bool = λ u. leb (instant u.ends_at) (now + horizon) in
    let us = filter p (trials cs) in
    let (k, e) = Member-expiring instant le events now cs t m in
    (
      omega (arith, length-take 5 (sort le us)),
      take-Sorted le total 5 (sort le us) (sort-Sorted le total us),
      ground (arith, e),
      Member-trials t cs k,
    )

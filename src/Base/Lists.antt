-- ===== src/Base/Lists.antt =====
-- Lists measured by native numbers, with the array methods that the panel uses: `filter`, `find`,
-- `some`, `slice`.
use Prim.Native.Nat.{ℕ, zero, suc, ◌+◌, ◌-◌, ◌≤◌, min}
use mathlib.Core.Path.{◌≡◌, refl, sym, ap, ◌∙◌}
use mathlib.Core.Logic.{◌⊎◌, inl, inr}
use mathlib.Core.Bool.{Bool, true, false, ◌||◌}
use mathlib.Core.List.{List, [], ◌∷◌, ◌++◌, map}
use mathlib.Core.Option.{Option, none, some}
use native.Mathlib.Omega.{arith}
use ahmed_sila.Base.Tests.{if◌then◌else◌, Bool-cases}

module _ {ℓ} {A : Type ℓ} where
  abbrev pub length : List A → ℕ
  length [] = 0
  length (x ∷ xs) = suc (length xs)

  -- `xs.filter(p)`
  abbrev pub filter : (A → Bool) → List A → List A
  filter p [] = []
  filter p (x ∷ xs) = let rest = filter p xs in if p x then x ∷ rest else rest

  -- `xs.find(p)`
  abbrev pub find : (A → Bool) → List A → Option A
  find p [] = none
  find p (x ∷ xs) = let rest = find p xs in if p x then some x else rest

  -- `xs.some(p)`
  abbrev pub any : (A → Bool) → List A → Bool
  any p [] = false
  any p (x ∷ xs) = p x || any p xs

  abbrev pub take : ℕ → List A → List A
  take zero xs = []
  take (suc n) [] = []
  take (suc n) (x ∷ xs) = x ∷ take n xs

  abbrev pub drop : ℕ → List A → List A
  drop zero xs = xs
  drop (suc n) [] = []
  drop (suc n) (x ∷ xs) = drop n xs

  abbrev pub All {κ} : (A → Type κ) → List A → Type κ
  All P [] = Unit
  All P (x ∷ xs) = P x × All P xs

-- `x` stands in the list.
abbrev pub Member : {A : Type 0} → A → List A → Type 0
Member x [] = ⊥
Member x (y ∷ ys) = (x ≡ y) ⊎ Member x ys

module _ {ℓ} {A : Type ℓ} where
  pub length-append : (xs ys : List A) → length (xs ++ ys) ≡ length xs + length ys
  length-append [] ys = omega arith
  length-append (x ∷ xs) ys = omega (arith, length-append xs ys)

  pub length-filter-le : (p : A → Bool) (xs : List A) → length (filter p xs) ≤ length xs
  length-filter-le p [] = omega arith
  length-filter-le p (x ∷ xs) = ground (arith, length-filter-le p xs)

  pub length-take : (n : ℕ) (xs : List A) → length (take n xs) ≡ min n (length xs)
  length-take zero xs = omega arith
  length-take (suc n) [] = omega arith
  length-take (suc n) (x ∷ xs) = omega (arith, length-take n xs)

  pub length-drop : (n : ℕ) (xs : List A) → length (drop n xs) ≡ length xs - n
  length-drop zero xs = omega arith
  length-drop (suc n) [] = omega arith
  length-drop (suc n) (x ∷ xs) = omega (arith, length-drop n xs)

  pub length-map {κ} : {B : Type κ} (f : A → B) (xs : List A) → length (map f xs) ≡ length xs
  length-map f [] = refl
  length-map f (x ∷ xs) = ap suc (length-map f xs)

  pub filter_congr :
      (p q : A → Bool) (xs : List A) → ((x : A) → p x ≡ q x) → filter p xs ≡ filter q xs
  filter_congr p q [] h = refl
  filter_congr p q (x ∷ xs) h = ground (arith, h x, filter_congr p q xs h)

  pub filter_all : (p : A → Bool) (xs : List A) → ((x : A) → p x ≡ true) → filter p xs ≡ xs
  filter_all p [] h = refl
  filter_all p (x ∷ xs) h = ground (arith, h x, filter_all p xs h)

module _ {A : Type 0} (p : A → Bool) where
  pub Member-filter : (x : A) (xs : List A) → Member x (filter p xs) → Member x xs × (p x ≡ true)
  Member-filter x [] m = elim m [ ]
  Member-filter x (y ∷ ys) m = ground (arith, Member-filter x ys)

  pub filter-Member : (x : A) (xs : List A) → Member x xs → p x ≡ true → Member x (filter p xs)
  filter-Member x [] m e = elim m [ ]
  filter-Member x (y ∷ ys) m e = ground (arith, filter-Member x ys)

module _ {A : Type 0} (p : A → Bool) where
  pub Member-find : (x : A) (xs : List A) → find p xs ≡ some x → Member x xs × (p x ≡ true)
  Member-find x [] h = ground (arith, h)
  Member-find x (y ∷ ys) h = elim (Bool-cases (p y)) [
    | inl e ↦ (let same : x ≡ y = ground (arith, h, e) in (inl same, ap p same ∙ e))
    | inr e ↦ (let (m, k) = Member-find x ys (ground (arith, h, e)) in (inr m, k))
  ]

  pub find-some : (x : A) (xs : List A) → Member x xs → p x ≡ true → (y : A) × (find p xs ≡ some y)
  find-some x [] m e = elim m [ ]
  find-some x (y ∷ ys) (inl same) e = (y, rw (ap p (sym same) ∙ e) refl)
  find-some x (y ∷ ys) (inr m) e = elim (Bool-cases (p y)) [
    | inl k ↦ (y, rw k refl)
    | inr k ↦ rw k (find-some x ys m e)
  ]

-- ===== src/Dict.antt =====
-- JavaScript's `Map` with text keys: its entries in the order in which their keys were first set.
use ahmed_sila.Base.{
  ◌≡◌, refl, inl, inr, Option, none, some, List, [], ◌∷◌, arith, if◌then◌else◌, Bool-cases,
}
use mathlib.Core.Path.{subst₂}
use ahmed_sila.Text.{Text, text_eq}
use ahmed_sila.Text.Laws.{text_eq_iff}

abbrev pub Dict {ℓ} : Type ℓ → Type ℓ
Dict V = List (Text × V)

module _ {ℓ} {V : Type ℓ} where
  -- `m.get(key)`
  unfoldable pub get : Text → Dict V → Option V
  get key [] = none
  get key ((k, v) ∷ m) = if text_eq k key then some v else get key m

  -- `m.set(key, value)`
  unfoldable pub set : Text → V → Dict V → Dict V
  set key value [] = (key, value) ∷ []
  set key value ((k, v) ∷ m) = if text_eq k key then (k, value) ∷ m else (k, v) ∷ set key value m

  -- `m.delete(key)`
  unfoldable pub delete : Text → Dict V → Dict V
  delete key [] = []
  delete key ((k, v) ∷ m) = let rest = delete key m in if text_eq k key then rest else (k, v) ∷ rest

  -- `[...m.values()]`
  abbrev pub values : Dict V → List V
  values [] = []
  values ((k, v) ∷ m) = v ∷ values m

  abbrev pub keys : Dict V → List Text
  keys [] = []
  keys ((k, v) ∷ m) = k ∷ keys m

module _ {ℓ} {V : Type ℓ} where
  pub get-set :
      (key j : Text) (v : V) (m : Dict V)
      → get j (set key v m) ≡ (if text_eq key j then some v else get j m)
  unfolding get set
  get-set key j v [] = refl
  get-set key j v ((i, w) ∷ m) =
      ground (arith, text_eq_iff key j, text_eq_iff i key, text_eq_iff i j, get-set key j v m)

  pub get-delete :
      (key j : Text) (m : Dict V) → get j (delete key m) ≡ (if text_eq key j then none else get j m)
  unfolding get delete
  get-delete key j [] = ground arith
  get-delete key j ((i, w) ∷ m) =
      ground (arith, text_eq_iff key j, text_eq_iff i key, text_eq_iff i j, get-delete key j m)

pub ruleset dict_laws = (get-set, get-delete)

-- What holds of every entry.
abbrev pub Each {ℓ κ} : {V : Type ℓ} → (Text → V → Type κ) → Dict V → Type κ
Each P [] = Unit
Each P ((k, v) ∷ m) = P k v × Each P m

module _ {ℓ κ} {V : Type ℓ} (P : Text → V → Type κ) where
  pub Each-set : (key : Text) (v : V) (m : Dict V) → P key v → Each P m → Each P (set key v m)
  unfolding set
  Each-set key v [] p h = (p, tt)
  Each-set key v ((k, w) ∷ m) p h = elim (Bool-cases (text_eq k key)) [
    | inl e ↦ rw e (rw ((text_eq_iff k key).0 e) p, h.1)
    | inr e ↦ rw e (h.0, Each-set key v m p h.1)
  ]

  pub Each-delete : (key : Text) (m : Dict V) → Each P m → Each P (delete key m)
  unfolding delete
  Each-delete key [] h = tt
  Each-delete key ((k, w) ∷ m) h = elim (Bool-cases (text_eq k key)) [
    | inl e ↦ rw e (Each-delete key m h.1)
    | inr e ↦ rw e (h.0, Each-delete key m h.1)
  ]

  pub Each-get : (key : Text) (v : V) (m : Dict V) → Each P m → get key m ≡ some v → P key v
  unfolding get
  Each-get key v [] h e = cc
  Each-get key v ((k, w) ∷ m) h e = elim (Bool-cases (text_eq k key)) [
    | inl hit ↦ let same : w ≡ v = ground arith in subst₂ P ((text_eq_iff k key).0 hit) same h.0
    | inr miss ↦ Each-get key v m h.1 (ground arith)
  ]

-- No key stands twice, as in every `Map`.
abbrev pub IsMap {ℓ} : {V : Type ℓ} → Dict V → Type ℓ
IsMap [] = Unit
IsMap ((k, v) ∷ m) = (get k m ≡ none) × IsMap m

module _ {ℓ} {V : Type ℓ} where
  pub IsMap-set : (key : Text) (v : V) (m : Dict V) → IsMap m → IsMap (set key v m)
  unfolding set get
  IsMap-set key v [] h = (refl, tt)
  IsMap-set key v ((k, w) ∷ m) h =
      ground (arith, IsMap-set key v m, get-set key k v m, text_eq_iff k key, text_eq_iff key k)

  pub IsMap-delete : (key : Text) (m : Dict V) → IsMap m → IsMap (delete key m)
  unfolding delete get
  IsMap-delete key [] h = tt
  IsMap-delete key ((k, w) ∷ m) h =
      ground (arith, IsMap-delete key m, get-delete key k m, text_eq_iff k key, text_eq_iff key k)

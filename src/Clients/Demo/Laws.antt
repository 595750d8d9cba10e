-- ===== src/Clients/Demo/Laws.antt =====
-- The store with which the panel starts is sound, so every store that it can come to is.
use ahmed_sila.Base.{
  ℕ, zero, suc, ◌+◌, Bool, true, ◌&&◌, map, is_none, Option-cases, ◌≡◌, refl, ◌⊎◌, inl, inr, none,
  List, [], ◌∷◌, All, arith, Bool-cases,
}
use mathlib.Core.Path.{subst}
use ahmed_sila.Text.{Text, text_eq}
use ahmed_sila.Text.Decimal.{show}
use ahmed_sila.Dict
use ahmed_sila.Dict.{Dict, Each, IsMap}
use ahmed_sila.Clients.Types.{ClientStatus, active, trial, paused, Client, ClientDetail}
use ahmed_sila.Clients.Store.Invariant.{IsSound, IsEntry, Issued}
use ahmed_sila.Clients.Demo.{reason_of, detailed, with_showcase, demo, base_clients}
use ahmed_sila.Clients.Demo.Tickets.{showcase_id}

reason_of-paused : (s : ClientStatus) → (reason_of s ≡ none) ⊎ (s ≡ paused)
reason_of-paused active = inl refl
reason_of-paused trial = inl refl
reason_of-paused paused = inr refl

detailed-Each :
    (lower : Text → Text) (n : ℕ) (cs : List Client)
    → All (λ (c : Client). Issued n c.id) cs
    → Each (IsEntry n) (detailed lower cs)
detailed-Each lower n [] h = tt
detailed-Each lower n (c ∷ cs) (h, hs) =
    ((refl, reason_of-paused c.status, h), detailed-Each lower n cs hs)

with_showcase-Each :
    (n : ℕ) (m : Dict ClientDetail) → Each (IsEntry n) m → Each (IsEntry n) (with_showcase m)
with_showcase-Each n [] h = tt
with_showcase-Each n ((k, c) ∷ m) (h, hs) = elim (Bool-cases (text_eq k showcase_id)) [
  | inl e ↦ rw e (h, with_showcase-Each n m hs)
  | inr e ↦ rw e (h, with_showcase-Each n m hs)
]

-- The ids of `n` clients, from the number `k` on.
abbrev numbers : ℕ → ℕ → List Text
numbers k zero = []
numbers k (suc n) = show k ∷ numbers (suc k) n

counted : (k n : ℕ) → suc k + n ≡ k + suc n
counted k n = omega arith

numbers-Issued :
    (k n : ℕ) (cs : List Client)
    → map (λ (c : Client). c.id) cs ≡ numbers k n
    → All (λ (c : Client). Issued (k + n) c.id) cs
numbers-Issued k n [] h = tt
numbers-Issued k zero (c ∷ cs) h = ground (arith, h)
numbers-Issued k (suc n) (c ∷ cs) h =
    let (e, es) : (c.id ≡ show k) × (map (λ (d : Client). d.id) cs ≡ numbers (suc k) n) =
      ground (arith, h) in
    (
      (k, e, omega arith),
      subst (λ m. All (λ (d : Client). Issued m d.id) cs) (counted k n)
          (numbers-Issued (suc k) n cs es),
    )

base_clients-Issued :
    (iso : ℕ → Text) (now : ℕ) → All (λ (c : Client). Issued 17 c.id) (base_clients iso now)
unfolding show
base_clients-Issued iso now = numbers-Issued 1 16 (base_clients iso now) refl

-- No key stands twice.
abbrev is_map : Dict ClientDetail → Bool
is_map [] = true
is_map ((k, c) ∷ m) = is_none (Dict.get k m) && is_map m

is_map-IsMap : (m : Dict ClientDetail) → is_map m ≡ true → IsMap m
is_map-IsMap [] h = tt
is_map-IsMap ((k, c) ∷ m) h = ground (arith, h, is_map-IsMap m, Option-cases (Dict.get k m))

demo-IsMap :
    (lower : Text → Text) (iso : ℕ → Text) (now : ℕ)
    → IsMap (with_showcase (detailed lower (base_clients iso now)))
unfolding Dict.get text_eq
demo-IsMap lower iso now = is_map-IsMap (with_showcase (detailed lower (base_clients iso now))) refl

pub demo-IsSound : (lower : Text → Text) (iso : ℕ → Text) (now : ℕ) → IsSound (demo lower iso now)
unfolding demo
demo-IsSound lower iso now = record {
  entries =
      with_showcase-Each 17 (detailed lower (base_clients iso now))
        (detailed-Each lower 17 (base_clients iso now) (base_clients-Issued iso now));
  distinct = demo-IsMap lower iso now;
}

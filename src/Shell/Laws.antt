-- ===== src/Shell/Laws.antt =====
-- The name in the top bar, and the breadcrumbs.
use ahmed_sila.Base.{
  ℕ, ◌≡◌, refl, ◌∙◌, ap, true, false, Option, none, List, [], ◌∷◌, ◌++◌, All, arith,
}
use ahmed_sila.Text.{Text, txt, is_space, trim}
use ahmed_sila.Shell.{split_spaces, initials_of, short_name_of, Crumb, drawn}

-- A text with no white space, and white space alone.
abbrev pub Solid : Text → Type 0
Solid = All (λ c. is_space c ≡ false)

abbrev pub Gap : Text → Type 0
Gap = All (λ c. is_space c ≡ true)

Solid-split_spaces : (w : Text) → Solid w → split_spaces w ≡ w ∷ []
unfolding split_spaces
Solid-split_spaces [] h = refl
Solid-split_spaces (c ∷ w) (h, hs) = rw h (rw (Solid-split_spaces w hs) refl)

Gap-split_spaces :
    (b c : ℕ) (g v : Text)
    → Gap (b ∷ g)
    → Solid (c ∷ v)
    → split_spaces (b ∷ (g ++ (c ∷ v))) ≡ [] ∷ (c ∷ v) ∷ []
unfolding split_spaces
Gap-split_spaces b c [] v (h, hs) (k, ks) = ground (arith, h, k, Solid-split_spaces (c ∷ v) (k, ks))
Gap-split_spaces b c (d ∷ g) v (h, (k, ks)) w =
    ground (arith, h, k, Gap-split_spaces d c g v (k, ks) w)

split_spaces-two :
    (w : Text) (b c : ℕ) (g v : Text)
    → Solid w
    → Gap (b ∷ g)
    → Solid (c ∷ v)
    → split_spaces (w ++ (b ∷ (g ++ (c ∷ v)))) ≡ w ∷ (c ∷ v) ∷ []
unfolding split_spaces
split_spaces-two [] b c g v h k l = Gap-split_spaces b c g v k l
split_spaces-two (a ∷ w) b c g v (h, hs) k l = rw h (rw (split_spaces-two w b c g v hs k l) refl)

-- A name of two words, with any white space between and around them, is shown as its first word with
-- the capital of the second and a dot, and its initials are the capitals of the two.
pub short_name_of_lem :
    (upper : Text → Text) (full_name : Text) (a b c : ℕ) (w g v : Text)
    → Solid (a ∷ w)
    → Gap (b ∷ g)
    → Solid (c ∷ v)
    → trim full_name ≡ (a ∷ w) ++ (b ∷ (g ++ (c ∷ v)))
    → (short_name_of upper full_name ≡ (a ∷ w) ++ (txt " " ++ (upper (c ∷ []) ++ txt ".")))
      × (initials_of upper full_name ≡ upper (a ∷ []) ++ (upper (c ∷ []) ++ []))
unfolding short_name_of initials_of
short_name_of_lem upper full_name a b c w g v h k l e =
    let parts = ap split_spaces e ∙ split_spaces-two (a ∷ w) b c g v h k l in rw parts (refl, refl)

-- The links of the breadcrumbs: each has its own, but the last one, which is the present place, none.
abbrev pub last_link : List (Text × Option Text) → Option Text
last_link [] = none
last_link ((l, to) ∷ []) = to
last_link (c ∷ d ∷ cs) = last_link (d ∷ cs)

pub drawn-last_link : (cs : List Crumb) → last_link (drawn cs) ≡ none
unfolding drawn
drawn-last_link [] = refl
drawn-last_link (c ∷ []) = refl
drawn-last_link (c ∷ d ∷ cs) = drawn-last_link (d ∷ cs)

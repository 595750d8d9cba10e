-- ===== src/Text/Laws.antt =====
-- Laws of the string operations.
use ahmed_sila.Base.{
  ℕ, ◌≡◌, refl, ap, ◌↔◌, inl, inr, true, false, [], ◌∷◌, ◌++◌, arith, ◌==◌, Bool-cases, All,
}
use ahmed_sila.Text.{
  Text, txt, text_eq, is_space, trim_start, keep_unless_blank, trim_end, trim, before, starts_with,
  includes,
}

pub text_eq_iff : (s t : Text) → (text_eq s t ≡ true) ↔ (s ≡ t)
unfolding text_eq
text_eq_iff [] [] = ground arith
text_eq_iff [] (y ∷ ys) = ground arith
text_eq_iff (x ∷ xs) [] = ground arith
text_eq_iff (x ∷ xs) (y ∷ ys) = ground (arith, text_eq_iff xs ys)

pub text_eq_refl : (s : Text) → text_eq s s ≡ true
text_eq_refl s = (text_eq_iff s s).1 refl

trim_end-keep :
    (c : ℕ) (s : Text) → trim_end (keep_unless_blank c s) ≡ keep_unless_blank c (trim_end s)
unfolding trim_end
trim_end-keep c [] = ground arith
trim_end-keep c (d ∷ s) = refl

trim_end_idem : (s : Text) → trim_end (trim_end s) ≡ trim_end s
unfolding trim_end
trim_end_idem [] = refl
trim_end_idem (c ∷ s) = rw (trim_end-keep c (trim_end s), trim_end_idem s) refl

-- Text that starts with no white space.
abbrev IsStripped : Text → Type 0
IsStripped [] = Unit
IsStripped (c ∷ s) = is_space c ≡ false

trim_start-IsStripped : (s : Text) → IsStripped (trim_start s)
unfolding trim_start
trim_start-IsStripped [] = tt
trim_start-IsStripped (c ∷ s) = ground (arith, trim_start-IsStripped s)

trim_end-IsStripped : (s : Text) → IsStripped s → IsStripped (trim_end s)
unfolding trim_end
trim_end-IsStripped [] h = tt
trim_end-IsStripped (c ∷ s) h = ground arith

trim_start_of_IsStripped : (s : Text) → IsStripped s → trim_start s ≡ s
unfolding trim_start
trim_start_of_IsStripped [] h = refl
trim_start_of_IsStripped (c ∷ s) h = ground arith

-- Trimming twice is trimming once.
pub trim_idem : (s : Text) → trim (trim s) ≡ trim s
unfolding trim
trim_idem s =
    rw
      (trim_start_of_IsStripped (trim_end (trim_start s))
        (trim_end-IsStripped (trim_start s) (trim_start-IsStripped s)))
      (trim_end_idem (trim_start s))

-- Every text includes the empty one.
pub includes-nil : (s : Text) → includes s [] ≡ true
unfolding includes
includes-nil [] = refl
includes-nil (c ∷ s) = refl

pub starts_with-append : (p s : Text) → starts_with (p ++ s) p ≡ true
unfolding starts_with
starts_with-append [] [] = refl
starts_with-append [] (c ∷ s) = refl
starts_with-append (x ∷ p) s = ground (arith, starts_with-append p s)

-- A text includes each of its infixes.
pub includes-append : (a t b : Text) → includes (a ++ (t ++ b)) t ≡ true
unfolding includes
includes-append [] [] [] = refl
includes-append [] [] (c ∷ b) = refl
includes-append [] (x ∷ t) b = ground (arith, starts_with-append t b)
includes-append (c ∷ a) t b = ground (arith, includes-append a t b)

starts_with_split : (s t : Text) → starts_with s t ≡ true → (b : Text) × (s ≡ t ++ b)
unfolding starts_with
starts_with_split s [] h = (s, refl)
starts_with_split [] (p ∷ ps) h = cc
starts_with_split (c ∷ s) (p ∷ ps) h =
    let (b, e) = starts_with_split s ps (ground arith) in (b, ground arith)

pub includes_split :
    (s t : Text) → includes s t ≡ true → (a : Text) × (b : Text) × (s ≡ a ++ (t ++ b))
unfolding includes
includes_split [] t h = let (b, e) = starts_with_split [] t h in ([], b, e)
includes_split (c ∷ s) t h = elim (Bool-cases (starts_with (c ∷ s) t)) [
  | inl here ↦ let (b, e) = starts_with_split (c ∷ s) t here in ([], b, e)
  | inr later ↦ let (a, b, e) = includes_split s t (ground arith) in (c ∷ a, b, ap (◌∷◌ c) e)
]

-- What stands before the separator holds none.
pub before_free : (sep : ℕ) (s : Text) → All (λ c. (c == sep) ≡ false) (before sep s)
unfolding before
before_free sep [] = tt
before_free sep (c ∷ s) = ground (arith, before_free sep s)

trim_test : trim (txt "  a b ") ≡ txt "a b"
unfolding trim
trim_test = refl

before_test : before b',' (txt "Шымкент, ул. 41") ≡ txt "Шымкент"
unfolding before
before_test = refl

includes_test :
    (includes (txt "береке") (txt "рек") ≡ true) × (includes (txt "береке") (txt "рик") ≡ false)
unfolding includes
includes_test = (refl, refl)

-- ===== src/Text/Decimal.antt =====
-- `String(n)` of a whole number: its decimal digits.
use ahmed_sila.Base.{
  ℕ, zero, suc, ◌+◌, ◌-◌, ◌*◌, ◌/◌, ◌%◌, ◌<◌, ◌≡◌, refl, ap, sym, ◌∙◌, true, [], ◌∷◌, arith, ◌==◌,
  if◌then◌else◌, All,
}
use ahmed_sila.Text.{Text, txt, is_digit}

-- The digits of `n` in front of `acc`; the fuel `n + 1` is enough.
unfoldable pub digits_onto : ℕ → ℕ → Text → Text
digits_onto zero n acc = acc
digits_onto (suc f) n acc =
    let more = digits_onto f (n / 10) ((b'0' + n % 10) ∷ acc) in
    if n / 10 == 0 then (b'0' + n % 10) ∷ acc else more

unfoldable pub show : ℕ → Text
unfolding digits_onto
show n = digits_onto (suc n) n []

-- The number that digits stand for, after the number `acc`.
read_onto : ℕ → Text → ℕ
read_onto acc [] = acc
read_onto acc (c ∷ s) = read_onto (10 * acc + (c - b'0')) s

-- `Number(s)` of a text of digits
unfoldable pub read : Text → ℕ
unfolding read_onto
read s = read_onto 0 s

read_onto-digits_onto :
    (f n : ℕ) (acc : Text) → n < f → read_onto 0 (digits_onto f n acc) ≡ read_onto n acc
unfolding read_onto digits_onto
read_onto-digits_onto zero n acc h = elim h [ ]
read_onto-digits_onto (suc f) n acc h =
    ground (arith, read_onto-digits_onto f (n / 10) ((b'0' + n % 10) ∷ acc))

pub read-show : (n : ℕ) → read (show n) ≡ n
unfolding read show
read-show n = read_onto-digits_onto (suc n) n [] (omega arith)

pub show_injective : (m n : ℕ) → show m ≡ show n → m ≡ n
show_injective m n h = sym (read-show m) ∙ ap read h ∙ read-show n

digits_onto-All :
    (f n : ℕ) (acc : Text)
    → All (λ c. is_digit c ≡ true) acc
    → All (λ c. is_digit c ≡ true) (digits_onto f n acc)
unfolding digits_onto
digits_onto-All zero n acc h = h
digits_onto-All (suc f) n acc h = ground (arith, digits_onto-All f (n / 10) ((b'0' + n % 10) ∷ acc))

pub show-All : (n : ℕ) → All (λ c. is_digit c ≡ true) (show n)
unfolding show
show-All n = digits_onto-All (suc n) n [] tt

show_test : show 1207 ≡ txt "1207"
unfolding show
show_test = refl

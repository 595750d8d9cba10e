-- ===== src/Format/Plural.antt =====
-- `plural` and `formatDelta` of web/src/lib/format.ts.
use ahmed_sila.Base.{
  ℕ, zero, suc, ◌*◌, ◌+◌, ◌%◌, ◌<◌, ◌≡◌, ◌&&◌, not, ◌++◌, leb, ◌==◌, if◌then◌else◌, arith,
}
use ahmed_sila.Base.Int.{ℤ, pos, negsuc}
use ahmed_sila.Text.{Text, txt}

pub data Category : Type 0 where
  one few many : Category

-- `pluralRules.select(count)` for the locale ru-RU at a whole number
unfoldable pub select : ℕ → Category
select n =
    if n % 10 == 1 && not (n % 100 == 11)
    then one
    else if leb 2 (n % 10) && leb (n % 10) 4 && not (leb 12 (n % 100) && leb (n % 100) 14)
    then few
    else many

unfoldable pub plural : ℕ → Text → Text → Text → Text
unfolding select
plural count for_one for_few for_many = elim (select count) [
  | one ↦ for_one
  | few ↦ for_few
  | _ ↦ for_many
]

-- `formatDelta`; `show` is `formatNumber`, and the minus is U+2212
unfoldable pub format_delta : (ℕ → Text) → ℤ → Text
format_delta show (pos zero) = txt "0"
format_delta show (pos (suc n)) = txt "+" ++ show (suc n)
format_delta show (negsuc n) = txt "−" ++ show (suc n)

-- The word goes by the last two digits: the tens digit 1 takes the third form, and otherwise the
-- units digit decides: 1 the first form, 2 to 4 the second, any other the third.
pub plural_digits :
    (h t u : ℕ) (for_one for_few for_many : Text)
    → t < 10
    → u < 10
    → plural (100 * h + 10 * t + u) for_one for_few for_many ≡ (
        if t == 1
        then for_many
        else if u == 1
        then for_one
        else if leb 2 u && leb u 4
        then for_few
        else for_many)
unfolding plural
plural_digits h t u a b c p q =
    let e : (100 * h + 10 * t + u) % 100 ≡ 10 * t + u = omega arith in
    let f : (100 * h + 10 * t + u) % 10 ≡ u = omega arith in ground (arith, e, f)

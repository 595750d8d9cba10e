-- ===== src/Clients/Store/Codes.antt =====
-- The confirmation codes: `randomCode` of web/src/features/clients/mock.ts.
use ahmed_sila.Base.{
  ℕ, zero, suc, ◌+◌, ◌*◌, ◌/◌, ◌<◌, ◌≡◌, refl, ◌≢◌, inl, inr, [], ◌∷◌, ◌++◌, arith, length, Member,
  All,
}
use ahmed_sila.Text.{Text}
use ahmed_sila.Clients.Store.{alphabet, char_at, random_char, pick, random_code}

char_at-Member : (s : Text) (i : ℕ) → i < length s → (c : ℕ) × (char_at s i ≡ c ∷ []) × Member c s
char_at-Member [] i h = elim h [ ]
char_at-Member (c ∷ s) zero h = (c, refl, inl refl)
char_at-Member (c ∷ s) (suc i) h = let (d, e, m) = char_at-Member s i (omega arith) in (d, e, inr m)

-- A character of the alphabet, which has none of the look-alikes 0, O, 1 and I.
abbrev pub IsCodeChar : ℕ → Type 0
IsCodeChar c = Member c alphabet × (c ≢ b'0') × (c ≢ b'O') × (c ≢ b'1') × (c ≢ b'I')

unlike : (c : ℕ) → Member c alphabet → IsCodeChar c
unlike c m = ground arith

random_char-IsCodeChar :
    (k : ℕ) → k < 9007199254740992 → (c : ℕ) × (random_char k ≡ c ∷ []) × IsCodeChar c
unfolding random_char
random_char-IsCodeChar k h =
    let (c, e, m) = char_at-Member alphabet (k * 32 / 9007199254740992) (omega arith) in
    (c, e, unlike c m)

-- Four characters of the alphabet.
abbrev pub IsGroup : Text → Type 0
IsGroup s = All IsCodeChar s × (length s ≡ 4)

pick-IsGroup :
    (draw : ℕ → ℕ) (i : ℕ) → ((k : ℕ) → draw k < 9007199254740992) → IsGroup (pick draw i)
unfolding pick
pick-IsGroup draw i h =
    let (a, ea, pa) = random_char-IsCodeChar (draw i) (h i) in
    let (b, eb, pb) = random_char-IsCodeChar (draw (i + 1)) (h (i + 1)) in
    let (c, ec, pc) = random_char-IsCodeChar (draw (i + 2)) (h (i + 2)) in
    let (d, ed, pd) = random_char-IsCodeChar (draw (i + 3)) (h (i + 3)) in
    rw (ea, eb, ec, ed) ((pa, (pb, (pc, (pd, tt)))), refl)

-- A code is two groups of four characters with a dash between, without 0, O, 1 and I.
pub random_code-IsGroup :
    (draw : ℕ → ℕ)
    → ((k : ℕ) → draw k < 9007199254740992)
    → (g h : Text) × (random_code draw ≡ g ++ (b'-' ∷ h)) × IsGroup g × IsGroup h
unfolding random_code
random_code-IsGroup draw h =
    (pick draw 0, pick draw 4, refl, pick-IsGroup draw 0 h, pick-IsGroup draw 4 h)

-- ===== src/Text/Email.antt =====
-- The pattern of an email in web/src/features/clients/NewClientPage.tsx and
-- web/src/features/team/TeamPage.tsx, `/^[^@\s]+@[^@\s]+\.[^@\s]+$/`, as a test that reads the text
-- once, and the description of its matches.
use ahmed_sila.Base.{
  ℕ, ◌≡◌, refl, ap, ◌∙◌, ==_iff, ◌≢◌, ◌↔◌, ◌⊎◌, inl, inr, Bool, true, false, ◌&&◌, ◌||◌, not, [],
  ◌∷◌, ◌++◌, ◌==◌, All, arith,
}
use ahmed_sila.Text.{Text, is_space}

-- `[^@\s]`
abbrev pub is_plain : ℕ → Bool
is_plain c = not (c == b'@') && not (is_space c)

-- `[^@\s]*$`
abbrev plain_rest : Text → Bool
plain_rest [] = true
plain_rest (c ∷ s) = is_plain c && plain_rest s

-- `[^@\s]+$`
abbrev plain_end : Text → Bool
plain_end [] = false
plain_end (c ∷ s) = is_plain c && plain_rest s

-- `[^@\s]*\.[^@\s]+$`
abbrev after_part : Text → Bool
after_part [] = false
after_part (c ∷ s) = (c == b'.' && plain_end s) || (is_plain c && after_part s)

-- `[^@\s]+\.[^@\s]+$`
abbrev domain : Text → Bool
domain [] = false
domain (c ∷ s) = is_plain c && after_part s

-- `[^@\s]*@[^@\s]+\.[^@\s]+$`
abbrev local_rest : Text → Bool
local_rest [] = false
local_rest (c ∷ s) = (c == b'@' && domain s) || (is_plain c && local_rest s)

unfoldable pub is_email : Text → Bool
is_email [] = false
is_email (c ∷ s) = is_plain c && local_rest s

-- A part of an email: some units, none of them `@` or white space.
abbrev Plain : Text → Type 0
Plain = All (λ c. is_plain c ≡ true)

abbrev pub Part : Text → Type 0
Part s = (s ≢ []) × Plain s

plain_rest-Plain : (s : Text) → plain_rest s ≡ true → Plain s
plain_rest-Plain [] h = tt
plain_rest-Plain (c ∷ s) h = ground (arith, plain_rest-Plain s)

Plain-plain_rest : (s : Text) → Plain s → plain_rest s ≡ true
Plain-plain_rest [] h = refl
Plain-plain_rest (c ∷ s) (h, hs) = rw h (Plain-plain_rest s hs)

-- The email's description: three parts, around an `@` and a dot.
abbrev pub Email : Text → Type 0
Email s = (a b c : Text) × (s ≡ a ++ (b'@' ∷ (b ++ (b'.' ∷ c)))) × Part a × Part b × Part c

or_cases : (x y : Bool) → (x || y) ≡ true → (x ≡ true) ⊎ (y ≡ true)
or_cases x y h = ground (arith, h)

and_split : (x y : Bool) → (x && y) ≡ true → (x ≡ true) × (y ≡ true)
and_split x y h = ground (arith, h)

plain_end-Part : (s : Text) → plain_end s ≡ true → Part s
plain_end-Part [] h = ground (arith, h)
plain_end-Part (c ∷ s) h =
    let (p, r) = and_split (is_plain c) (plain_rest s) h in
    (λ e. ground (arith, e), (p, plain_rest-Plain s r))

after_part-parts :
    (s : Text) → after_part s ≡ true → (b c : Text) × (s ≡ b ++ (b'.' ∷ c)) × Plain b × Part c
after_part-parts [] h = ground (arith, h)
after_part-parts (x ∷ s) h =
    elim (or_cases (x == b'.' && plain_end s) (is_plain x && after_part s) h) [
      | inl e ↦
          (let (d, p) = and_split (x == b'.') (plain_end s) e in
            ([], s, ap (λ y. y ∷ s) ((==_iff x b'.').0 d), tt, plain_end-Part s p))
      | inr e ↦
          (let (d, p) = and_split (is_plain x) (after_part s) e in
            let (b, c, q, pb, pc) = after_part-parts s p in
            (x ∷ b, c, ap (λ t. x ∷ t) q, (d, pb), pc))
    ]

domain-parts : (s : Text) → domain s ≡ true → (b c : Text) × (s ≡ b ++ (b'.' ∷ c)) × Part b × Part c
domain-parts [] h = ground (arith, h)
domain-parts (x ∷ s) h =
    let (d, p) = and_split (is_plain x) (after_part s) h in
    let (b, c, q, pb, pc) = after_part-parts s p in
    (x ∷ b, c, ap (λ t. x ∷ t) q, (λ e. ground (arith, e), (d, pb)), pc)

local_rest-parts :
    (s : Text)
    → local_rest s ≡ true
    → (a b c : Text) × (s ≡ a ++ (b'@' ∷ (b ++ (b'.' ∷ c)))) × Plain a × Part b × Part c
local_rest-parts [] h = ground (arith, h)
local_rest-parts (x ∷ s) h =
    elim (or_cases (x == b'@' && domain s) (is_plain x && local_rest s) h) [
      | inl e ↦
          (let (d, p) = and_split (x == b'@') (domain s) e in
            let (b, c, q, pb, pc) = domain-parts s p in
            ([], b, c, ap (λ y. y ∷ s) ((==_iff x b'@').0 d) ∙ ap (λ t. b'@' ∷ t) q, tt, pb, pc))
      | inr e ↦
          (let (d, p) = and_split (is_plain x) (local_rest s) e in
            let (a, b, c, q, pa, pb, pc) = local_rest-parts s p in
            (x ∷ a, b, c, ap (λ t. x ∷ t) q, (d, pa), pb, pc))
    ]

Part-plain_end : (s : Text) → Part s → plain_end s ≡ true
Part-plain_end [] (n, p) = elim (n refl) [ ]
Part-plain_end (c ∷ s) (n, (h, hs)) = rw h (Plain-plain_rest s hs)

after_part-append : (b c : Text) → Plain b → Part c → after_part (b ++ (b'.' ∷ c)) ≡ true
after_part-append [] c pb pc = rw (Part-plain_end c pc) refl
after_part-append (x ∷ b) c (h, hb) pc = ground (arith, h, after_part-append b c hb pc)

domain-append : (b c : Text) → Part b → Part c → domain (b ++ (b'.' ∷ c)) ≡ true
domain-append [] c (n, pb) pc = elim (n refl) [ ]
domain-append (x ∷ b) c (n, (h, hb)) pc = rw h (after_part-append b c hb pc)

local_rest-append :
    (a b c : Text) → Plain a → Part b → Part c → local_rest (a ++ (b'@' ∷ (b ++ (b'.' ∷ c)))) ≡ true
local_rest-append [] b c pa pb pc = rw (domain-append b c pb pc) refl
local_rest-append (x ∷ a) b c (h, ha) pb pc = ground (arith, h, local_rest-append a b c ha pb pc)

is_email-append :
    (a b c : Text) → Part a → Part b → Part c → is_email (a ++ (b'@' ∷ (b ++ (b'.' ∷ c)))) ≡ true
unfolding is_email
is_email-append [] b c (n, pa) pb pc = elim (n refl) [ ]
is_email-append (x ∷ a) b c (n, (h, ha)) pb pc = rw h (local_rest-append a b c ha pb pc)

is_email-parts : (s : Text) → is_email s ≡ true → Email s
unfolding is_email
is_email-parts [] h = ground (arith, h)
is_email-parts (x ∷ s) h =
    let (d, p) = and_split (is_plain x) (local_rest s) h in
    let (a, b, c, q, pa, pb, pc) = local_rest-parts s p in
    (x ∷ a, b, c, ap (λ t. x ∷ t) q, (λ e. ground (arith, e), (d, pa)), pb, pc)

-- A text passes the test of the email fields exactly when it is some units, an `@`, some units, a dot
-- and some units, where the units of the three groups are neither `@` nor white space.
pub is_email_iff : (s : Text) → (is_email s ≡ true) ↔ Email s
is_email_iff s =
    (is_email-parts s, λ (a, b, c, q, pa, pb, pc). ap is_email q ∙ is_email-append a b c pa pb pc)

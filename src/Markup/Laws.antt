-- ===== src/Markup/Laws.antt =====
-- What a gesture on a page can do.
use ahmed_sila.Base.{
  ℕ, zero, suc, ◌≡◌, refl, inl, inr, Bool-cases, Bool, true, false, Option, none, some, List, [],
  ◌∷◌, ◌++◌, All, map,
}
use ahmed_sila.Text.{Text, text_eq}
use ahmed_sila.Shell.{Tone}
use ahmed_sila.Markup.{
  join, when, filter_chip, Choice, Node, button, toggle, row_button, field, select, Markup, Gesture,
  press, enter, choose, part_at, at, pressed, entered, option_of, chosen, gives,
}

module _ {E : Type 0} (P : E → Type 0) where
  -- Every event that the part can give is one of `P`.
  abbrev pub Offers : Node E → Type 0
  Offers (button label true e) = Unit {0}
  Offers (button label false e) = P e
  Offers (toggle label selected e) = P e
  Offers (row_button e) = P e
  Offers (field value on_change) = (t : Text) → P (on_change t)
  Offers (select true cs) = Unit {0}
  Offers (select false cs) = All (λ (c : Choice E). P c.on_choose) cs
  Offers n = Unit {0}

  abbrev pub Allowed : Option E → Type 0
  Allowed none = Unit {0}
  Allowed (some e) = P e

  at-Offers :
      (f : Node E → Option E) (i : ℕ) (ns : Markup E)
      → ((n : Node E) → Offers n → Allowed (f n))
      → All Offers ns
      → Allowed (at f (part_at i ns))
  at-Offers f i [] keep h = tt
  at-Offers f zero (n ∷ ns) keep (h, hs) = keep n h
  at-Offers f (suc i) (n ∷ ns) keep (h, hs) = at-Offers f i ns keep hs

  pressed-Offers : (n : Node E) → Offers n → Allowed (pressed n)
  pressed-Offers (button label true e) h = tt
  pressed-Offers (button label false e) h = h
  pressed-Offers (toggle label selected e) h = h
  pressed-Offers (row_button e) h = h
  pressed-Offers _ h = tt

  entered-Offers : (t : Text) (n : Node E) → Offers n → Allowed (entered t n)
  entered-Offers t (field value on_change) h = h t
  entered-Offers t _ h = tt

  option_of-Allowed :
      (t : Text) (cs : List (Choice E))
      → All (λ (c : Choice E). P c.on_choose) cs
      → Allowed (option_of t cs)
  option_of-Allowed t [] h = tt
  option_of-Allowed t (c ∷ cs) (h, hs) = elim (Bool-cases (text_eq c.label t)) [
    | inl same ↦ elim (Bool-cases c.selected) [
      | inl old ↦ rw same (rw old tt)
      | inr new ↦ rw same (rw new h)
    ]
    | inr other ↦ rw other (option_of-Allowed t cs hs)
  ]

  chosen-Offers : (t : Text) (n : Node E) → Offers n → Allowed (chosen t n)
  chosen-Offers t (select true cs) h = tt
  chosen-Offers t (select false cs) h = option_of-Allowed t cs h
  chosen-Offers t _ h = tt

  -- Whatever the gesture, what it does is something that a part of the page offers.
  pub gives-Allowed : (g : Gesture) (ns : Markup E) → All Offers ns → Allowed (gives g ns)
  unfolding gives
  gives-Allowed (press i) ns h = at-Offers pressed i ns pressed-Offers h
  gives-Allowed (enter i t) ns h = at-Offers (entered t) i ns (entered-Offers t) h
  gives-Allowed (choose i t) ns h = at-Offers (chosen t) i ns (chosen-Offers t) h

  pub All-append : (ms ns : Markup E) → All Offers ms → All Offers ns → All Offers (ms ++ ns)
  All-append [] ns h k = k
  All-append (m ∷ ms) ns (h, hs) k = (h, All-append ms ns hs k)

  pub button-Offers :
      (label : Text) (disabled : Bool) (e : E)
      → (disabled ≡ false → P e)
      → Offers (button label disabled e)
  button-Offers label true e h = tt
  button-Offers label false e h = h refl

  pub All-join :
      {A : Type 0} (f : A → Markup E) (xs : List A)
      → ((x : A) → All Offers (f x))
      → All Offers (join (map f xs))
  All-join f [] h = tt
  All-join f (x ∷ xs) h = All-append (f x) (join (map f xs)) (h x) (All-join f xs h)

  pub All-when : (b : Bool) (ns : Markup E) → All Offers ns → All Offers (when b ns)
  All-when true ns h = h
  All-when false ns h = tt

  pub filter_chip-Offers :
      (label : Text) (count : Option ℕ) (tone : Option Tone) (selected : Bool) (e : E)
      → P e
      → All Offers (filter_chip label count tone selected e)
  filter_chip-Offers label none none selected e h = (h, tt)
  filter_chip-Offers label none (some t) selected e h = (tt, (h, tt))
  filter_chip-Offers label (some n) none selected e h = (h, (tt, tt))
  filter_chip-Offers label (some n) (some t) selected e h = (tt, (h, (tt, tt)))

pub All-map {ℓ} :
    {A B : Type 0} (P : B → Type ℓ) (f : A → B) (xs : List A)
    → ((x : A) → P (f x))
    → All P (map f xs)
All-map P f [] h = tt
All-map P f (x ∷ xs) h = (h x, All-map P f xs h)

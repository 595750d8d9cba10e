-- ===== src/Settings/Screen/Laws.antt =====
-- The preview, and what happens to the text that is typed.
use ahmed_sila.Base.{
  ℕ, zero, ◌≡◌, refl, ap, ◌∙◌, Bool, true, false, some, List, [], ◌∷◌, ◌++◌, ◌==◌, length, map, All,
  arith,
}
use ahmed_sila.Text.{Text, txt, starts_with}
use ahmed_sila.Text.Laws.{text_eq_refl, starts_with-append}
use ahmed_sila.Settings.Types.{Settings}
use ahmed_sila.Settings.Store.{Store, get, save_template}
use ahmed_sila.Settings.Screen.{
  replace_from, replace_all, fill, render_preview, State, on_data, dirty, save_disabled, type_text,
  saved_at, init,
}

-- Texts without the unit `t`.
abbrev pub Free : ℕ → Text → Type 0
Free t = All (λ c. (c == t) ≡ false)

replace_from-Free :
    (t : ℕ) (rest sample s : Text) → Free t s → replace_from zero t rest sample s ≡ s
unfolding replace_from starts_with
replace_from-Free t rest sample [] h = refl
replace_from-Free t rest sample (c ∷ s) (h, hs) =
    ground (arith, h, replace_from-Free t rest sample s hs)

abbrev braced : Text × Text → Text × Text
braced (rest, sample) = (b'{' ∷ rest, sample)

fill-Free : (vars : List (Text × Text)) (s : Text) → Free b'{' s → fill (map braced vars) s ≡ s
fill-Free [] s h = refl
fill-Free ((rest, sample) ∷ vars) s h =
    ap (fill (map braced vars)) (replace_from-Free b'{' rest sample s h) ∙ fill-Free vars s h

-- A text without an opening brace is its own preview.
pub render_preview-Free : (s : Text) → Free b'{' s → render_preview s ≡ s
unfolding render_preview
render_preview-Free s h =
    fill-Free
      ((txt "владелец}", txt "Ержан")
        ∷ (txt "клиент}", txt "Береке Супермаркет")
        ∷ (txt "код}", txt "K7QF-3M2D")
        ∷ (txt "срок}", txt "21.08.2026")
        ∷ [])
      s h

replace_from-skip :
    (t : ℕ) (rest sample p s : Text)
    → replace_from (length p) t rest sample (p ++ s) ≡ replace_from zero t rest sample s
unfolding replace_from
replace_from-skip t rest sample [] s = refl
replace_from-skip t rest sample (c ∷ p) s = replace_from-skip t rest sample p s

replace_from-token :
    (t : ℕ) (rest sample s : Text)
    → replace_from zero t rest sample (t ∷ (rest ++ s))
      ≡ sample ++ replace_from zero t rest sample s
unfolding replace_from
replace_from-token t rest sample s =
    rw (starts_with-append (t ∷ rest) s) (rw (replace_from-skip t rest sample rest s) refl)

-- Where a text reads: a part without the variable's first unit, the variable, and more, the variable is
-- replaced by its sample there and everything after it is treated in the same way.
pub replace_all-append :
    (t : ℕ) (rest sample a s : Text)
    → Free t a
    → replace_all (t ∷ rest) sample (a ++ (t ∷ (rest ++ s)))
      ≡ a ++ (sample ++ replace_all (t ∷ rest) sample s)
unfolding replace_from starts_with
replace_all-append t rest sample [] s h = replace_from-token t rest sample s
replace_all-append t rest sample (c ∷ a) s (h, hs) =
    ground (arith, h, replace_all-append t rest sample a s hs)

-- The data that the query brings, one after the other.
abbrev pub arrive : List Settings → State → State
arrive [] st = st
arrive (d ∷ ds) st = arrive ds (on_data (some d) st)

on_data-seeded : (d : Settings) (st : State) → st.seeded ≡ true → on_data (some d) st ≡ st
unfolding on_data
on_data-seeded d st h = ground (arith, h)

arrive-seeded : (ds : List Settings) (st : State) → st.seeded ≡ true → arrive ds st ≡ st
arrive-seeded [] st h = refl
arrive-seeded (d ∷ ds) st h = ap (arrive ds) (on_data-seeded d st h) ∙ arrive-seeded ds st h

-- What has been typed stays, whatever data the query brings later; the first data give the editor its
-- first text.
pub arrive-type_text :
    (d : Settings) (ds : List Settings) (v : Text)
    → ((on_data (some d) init).text ≡ d.template.text)
      × ((arrive ds (type_text v (on_data (some d) init))).text ≡ v)
unfolding on_data
arrive-type_text d ds v = (
  refl,
  ap (λ (st : State). st.text) (arrive-seeded ds (type_text v (on_data (some d) init)) refl),
)

-- Without a backend: once a text has been saved and the settings have been read again, the editor that
-- still has that text offers no saving, and tells the time of this one.
pub save_template-dirty :
    (c : ℕ) (now v : Text) (s : Store) (st : State) (is_pending : Bool)
    → let s' = (save_template (c ∷ now) v s).1 in
      (save_disabled (some (get s')) (type_text v st) is_pending ≡ true)
      × (saved_at (get s') (type_text v st) ≡ some (c ∷ now))
unfolding save_template get save_disabled saved_at dirty
save_template-dirty c now v s st is_pending = rw (text_eq_refl v) (refl, refl)

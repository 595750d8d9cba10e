-- ===== src/Settings/Journey/Laws.antt =====
-- The text of the editor, and what the mark of a saving tells.
use ahmed_sila.Base.{
  ◌≡◌, refl, sym, ap, ◌∙◌, ◌⊎◌, inl, inr, Bool, true, false, Option, none, some, List, [], ◌∷◌,
  ◌++◌, arith,
}
use ahmed_sila.Text.{Text}
use ahmed_sila.Text.Laws.{text_eq_iff}
use ahmed_sila.Settings.Types.{Settings}
use ahmed_sila.Settings.Store.{default_template, get, save_template}
use ahmed_sila.Settings.Screen.{State, on_data, dirty, save_disabled, saved_at}
use ahmed_sila.Settings.Journey.{Press, typed, restore, save, arrive, Page, start, act, acts}

-- The text that has been written last: typed, or the default.
abbrev pub written : List Press → Text
written [] = default_template
written (typed v ∷ past) = v
written (restore ∷ past) = default_template
written (save now ∷ past) = written past
written (arrive ∷ past) = written past

-- Among the presses is one of «Сохранить» at the instant `t`, made while `v` was written.
abbrev pub Sent : List Press → Text → Text → Type 0
Sent past t v =
    (later : List Press) × (before : List Press) × (past ≡ later ++ (save t ∷ before))
    × (written before ≡ v)

Sent-step : (e : Press) (past : List Press) (t v : Text) → Sent past t v → Sent (e ∷ past) t v
Sent-step e past t v (later, before, p, q) = (e ∷ later, before, ap (λ ps. e ∷ ps) p, q)

-- What is known of a template: it has never been saved, or its text has been sent at its time.
abbrev Known : List Press → Option Text → Text → Type 0
Known past o v = (o ≡ none) ⊎ (t : Text) × (o ≡ some t) × Sent past t v

Known-step :
    (e : Press) (past : List Press) (o : Option Text) (v : Text)
    → Known past o v
    → Known (e ∷ past) o v
Known-step e past o v (inl h) = inl h
Known-step e past o v (inr (t, h, s)) = inr (t, h, Sent-step e past t v s)

record Told (past : List Press) (p : Page) : Type 0 where
  text : p.state.text ≡ written past
  seeded : p.state.seeded ≡ true
  default : p.query_data.template.default_text ≡ default_template
  store : Known past p.store.updated_at p.store.text
  read : Known past p.query_data.template.updated_at p.query_data.template.text

start-Told : Told [] start
unfolding get on_data
start-Told = record {
  text = refl;
  seeded = refl;
  default = refl;
  store = inl refl;
  read = inl refl;
}

module _ (past : List Press) (p : Page) (told : Told past p) where
  kept : (e : Press) → written (e ∷ past) ≡ written past → Told (e ∷ past) p
  kept e h = record {
    text = told.text ∙ sym h;
    seeded = told.seeded;
    default = told.default;
    store = Known-step e past p.store.updated_at p.store.text told.store;
    read = Known-step e past p.query_data.template.updated_at p.query_data.template.text told.read;
  }

  sent :
      (now : Text)
      → Told (save now ∷ past) (record p { store = (save_template now p.state.text p.store).1 })
  unfolding save_template
  sent now =
      let same = kept (save now) refl in
      record {
        text = same.text;
        seeded = same.seeded;
        default = same.default;
        store = inr (now, refl, ([], past, refl, sym told.text));
        read = same.read;
      }

  save-Told :
      (now : Text) (b : Bool)
      → save_disabled (some p.query_data) p.state false ≡ b
      → Told (save now ∷ past) (act (save now) p)
  unfolding act
  save-Told now true e = rw e (kept (save now) refl)
  save-Told now false e = rw e (sent now)

  arrive-Told : Told (arrive ∷ past) (act arrive p)
  unfolding act get on_data
  arrive-Told =
      let same = kept arrive refl in
      rw told.seeded (record {
        text = same.text;
        seeded = refl;
        default = refl;
        store = same.store;
        read = same.store;
      })

  act-Told : (e : Press) → Told (e ∷ past) (act e p)
  unfolding act
  act-Told (typed v) = record {
    text = refl;
    seeded = told.seeded;
    default = told.default;
    store = Known-step (typed v) past p.store.updated_at p.store.text told.store;
    read =
        Known-step (typed v) past p.query_data.template.updated_at p.query_data.template.text
          told.read;
  }
  act-Told restore = record {
    text = told.default;
    seeded = told.seeded;
    default = told.default;
    store = Known-step restore past p.store.updated_at p.store.text told.store;
    read =
        Known-step restore past p.query_data.template.updated_at p.query_data.template.text
          told.read;
  }
  act-Told (save now) = save-Told now (save_disabled (some p.query_data) p.state false) refl
  act-Told arrive = arrive-Told

acts-Told : (past : List Press) → Told past (acts past)
unfolding acts
acts-Told [] = start-Told
acts-Told (e ∷ past) = act-Told past (acts past) (acts-Told past) e

-- A mark stands only next to the text of the template that the query has, with its time.
saved_at-some :
    (d : Settings) (st : State) (t : Text)
    → saved_at d st ≡ some t
    → (st.text ≡ d.template.text) × (d.template.updated_at ≡ some t)
unfolding saved_at dirty
saved_at-some d st t h = ground (arith, h, text_eq_iff st.text d.template.text)

known-Sent :
    (past : List Press) (o : Option Text) (v t : Text) → Known past o v → o ≡ some t → Sent past t v
known-Sent past o v t (inl h) e = ground (arith, h, e)
known-Sent past o v t (inr (u, h, s)) e = let same : u ≡ t = ground (arith, h, e) in rw (sym same) s

-- Whatever is pressed on the page of the settings without a backend, and whenever the query answers: where
-- «Сохранено» stands with a time, the editor has the text that has been written last, and that text was
-- written when the button was pressed at that time.
pub acts-saved_at :
    (past : List Press) (t : Text)
    → saved_at (acts past).query_data (acts past).state ≡ some t
    → ((acts past).state.text ≡ written past) × Sent past t (written past)
acts-saved_at past t h =
    let told = acts-Told past in
    let (same, at) = saved_at-some (acts past).query_data (acts past).state t h in
    let d = (acts past).query_data.template in
    (told.text, rw (sym told.text ∙ same) (known-Sent past d.updated_at d.text t told.read at))

-- ===== src/Clients/Form/Page/Laws.antt =====
-- What a visit of the form of a new client sends.
use ahmed_sila.Base.{
  ◌≡◌, refl, ap, Bool, false, Option, none, some, List, [], ◌∷◌, ◌++◌, map, All, arith,
}
use ahmed_sila.Text.{Text, txt}
use ahmed_sila.Markup.{gives, join}
use ahmed_sila.Markup.Laws.{Offers, Allowed, gives-Allowed, All-append, All-join, button-Offers}
use ahmed_sila.Clients.Types.{NewClient, ActivationCode, ClientDetail}
use ahmed_sila.Clients.Form.{
  FieldKey, fields, Start, with_trial, at_once, Form, EmailCheck, input_of, on_submit, shown_error,
  footer,
}
use ahmed_sila.Clients.Created.{field_spec}
use ahmed_sila.Clients.Form.Laws.{IsValid, on_submit-input_of_iff}
use ahmed_sila.Clients.Form.Page.{
  Event, submit, create_another, Creation, pending, done, is_pending, is_failed, error_or_hint,
  form_row, plan_row, trial_days_input, start_note, start_row, footer_nodes, buttons, code_nodes,
  code_note, modal_footer, created_modal, page, Mark, sent, answered, Visit, send_client, act,
  Happening, gesture, created, end_creation, on_event, happen, visit, start,
}

abbrev pub IsClosed : List Mark → Type 0
IsClosed (sent i ∷ log) = ⊥
IsClosed _ = Unit {0}

module _ (lower : Text → Text) where
  -- The values of a valid form, as they are sent.
  abbrev pub FromValid : NewClient → Type 0
  FromValid i = (f : Form) × (q : EmailCheck) × IsValid f q × (input_of lower f ≡ i)

  -- Each client that was sent comes from a valid form, and the one before it had been answered.
  abbrev pub IsOrderly : List Mark → Type 0
  IsOrderly [] = Unit {0}
  IsOrderly (sent i ∷ log) = FromValid i × IsClosed log × IsOrderly log
  IsOrderly (answered ∷ log) = IsOrderly log

-- The button is offered only while, and that of another client only where, no creation is under way.
abbrev Ready : Creation → Event → Type 0
Ready c submit = is_pending c ≡ false
Ready c create_another = is_pending c ≡ false
Ready c _ = Unit {0}

module _ (date : Text → Text) (f : Form) (q : EmailCheck) (c : Creation) (copied : Bool) where
  abbrev R : Event → Type 0
  R = Ready c

  hint-Offers : (t : Text) (o : Option Text) → All (Offers R) (error_or_hint t o)
  hint-Offers (c ∷ t) o = (tt, tt)
  hint-Offers [] none = tt
  hint-Offers [] (some h) = (tt, tt)

  row-Offers : (key : FieldKey) → All (Offers R) (form_row f q key)
  row-Offers key = (tt, ((λ t. tt), hint-Offers (shown_error f q key) (field_spec key).2))

  plan-Offers : All (Offers R) (plan_row f)
  plan-Offers = ground arith

  days-Offers : (s : Start) → All (Offers R) (trial_days_input f s)
  days-Offers with_trial = (tt, ((λ t. tt), tt))
  days-Offers at_once = tt

  note-Offers : (s : Start) → All (Offers R) (start_note f s)
  note-Offers at_once = (tt, tt)
  note-Offers with_trial = ground arith

  footer-Offers : (o : Option (Text × Bool)) → All (Offers R) (footer_nodes o)
  footer-Offers none = tt
  footer-Offers (some (t, muted)) = (tt, tt)

  start-Offers : All (Offers R) (start_row f)
  start-Offers =
      let below =
        All-append R (trial_days_input f f.start) (start_note f f.start) (days-Offers f.start)
          (note-Offers f.start) in
      (tt, (tt, (tt, below)))

  buttons-Offers : All (Offers R) (buttons f q c)
  buttons-Offers =
      let sending = button-Offers R (txt "Создать клиента") (is_pending c) submit (λ h. h) in
      (sending, (tt, footer-Offers (footer (is_failed c) f q)))

  code-Offers : (o : Option ActivationCode) → All (Offers R) (code_nodes date copied o)
  code-Offers none = tt
  code-Offers (some a) = ground arith

  modal-Offers : (k : Creation) → c ≡ k → All (Offers R) (created_modal date copied k)
  modal-Offers (done d) e =
      let code = code-Offers d.activation_code in
      let inside =
        All-append R (code_nodes date copied d.activation_code) code_note code (tt, tt) in
      (
        tt,
        (
          tt,
          (
            tt,
            (
              tt,
              (
                tt,
                All-append R (code_nodes date copied d.activation_code ++ code_note) modal_footer
                    inside (tt, (ap is_pending e, tt)),
              ),
            ),
          ),
        ),
      )
  modal-Offers _ e = tt

  page-Offers : All (Offers R) (page date f q c copied)
  unfolding page
  page-Offers =
      let rows = All-join R (form_row f q) fields row-Offers in
      let ends = All-append R (start_row f) (buttons f q c) start-Offers buttons-Offers in
      let inner = All-append R (plan_row f) (start_row f ++ buttons f q c) plan-Offers ends in
      let body =
        All-append R (join (map (form_row f q) fields))
          (plan_row f ++ (start_row f ++ buttons f q c)) rows inner in
      (
        tt,
        (
          tt,
          (
            tt,
            All-append R
                (join (map (form_row f q) fields) ++ (plan_row f ++ (start_row f ++ buttons f q c)))
                (created_modal date copied c) body (modal-Offers c refl),
          ),
        ),
      )

record Keeps (lower : Text → Text) (v : Visit) : Type 0 where
  orderly : IsOrderly lower v.log
  closed : is_pending v.creation ≡ false → IsClosed v.log

module _ (date lower : Text → Text) where
  sent-Keeps :
      (f : Form) (o : Option NewClient) (v : Visit)
      → on_submit lower v.form v.check ≡ (f, o)
      → is_pending v.creation ≡ false
      → Keeps lower v
      → Keeps lower (send_client (f, o) v)
  sent-Keeps f none v e free k = record { orderly = k.orderly; closed = k.closed }
  sent-Keeps f (some i) v e free k =
      let (valid, still, same) =
        (on_submit-input_of_iff lower v.form v.check i).0
          (ap (λ (r : Form × Option NewClient). r.1) e) in
      record {
        orderly = ((v.form, v.check, valid, same), k.closed free, k.orderly);
        closed = λ h. absurd (ground (arith, h));
      }

  act-Keeps :
      (e : Event) (v : Visit) → Ready v.creation e → Keeps lower v → Keeps lower (act lower e v)
  unfolding act
  act-Keeps submit v free k =
      let o = on_submit lower v.form v.check in sent-Keeps o.0 o.1 v refl free k
  act-Keeps create_another v free k = record { orderly = k.orderly; closed = λ h. k.closed free }
  act-Keeps e v free k = record { orderly = k.orderly; closed = k.closed }

  on_event-Keeps :
      (o : Option Event) (v : Visit)
      → Allowed (Ready v.creation) o
      → Keeps lower v
      → Keeps lower (on_event date lower o v)
  on_event-Keeps none v free k = k
  on_event-Keeps (some e) v free k = act-Keeps e v free k

  end-Keeps :
      (c : Creation) (o : Option ClientDetail) (v : Visit)
      → Keeps lower v
      → Keeps lower (end_creation c o v)
  end-Keeps pending o v k = record { orderly = k.orderly; closed = λ h. tt }
  end-Keeps _ o v k = k

  happen-Keeps : (h : Happening) (v : Visit) → Keeps lower v → Keeps lower (happen date lower h v)
  unfolding happen
  happen-Keeps (gesture g) v k =
      let drawn = page date v.form v.check v.creation v.copied in
      on_event-Keeps (gives g drawn) v
        (gives-Allowed (Ready v.creation) g drawn
          (page-Offers date v.form v.check v.creation v.copied))
        k
  happen-Keeps (created o) v k = end-Keeps v.creation o v k
  happen-Keeps h v k = record { orderly = k.orderly; closed = k.closed }

  visits-Keeps :
      (hs : List Happening) (v : Visit) → Keeps lower v → Keeps lower (visit date lower hs v)
  visits-Keeps [] v k = k
  visits-Keeps (h ∷ hs) v k = visits-Keeps hs (happen date lower h v) (happen-Keeps h v k)

  -- Whatever is done on the form of a new client as it is drawn, and in whatever order the answers come: every client
  -- that is sent comes from a valid form, and the one sent before it had been answered.
  pub visit-form-IsOrderly : (hs : List Happening) → IsOrderly lower (visit date lower hs start).log
  visit-form-IsOrderly hs =
      (visits-Keeps hs start (record { orderly = tt; closed = λ h. tt })).orderly

-- ===== src/Clients/Access/Page/Laws.antt =====
-- The tab of the access as it is drawn does no more than the presses of Clients/Journey.
use ahmed_sila.Base.{
  ℕ, ◌≡◌, refl, ap, ◌∙◌, ◌⊎◌, inl, inr, Bool, true, false, Option, none, some, List, [], ◌∷◌, All,
  if◌then◌else◌, arith,
}
use ahmed_sila.Text.{Text, txt}
use ahmed_sila.Http.{Network}
use ahmed_sila.Markup.{button, span, Markup, Gesture, gives, when}
use ahmed_sila.Markup.Laws.{Offers, Allowed, gives-Allowed, All-append, All-when, button-Offers}
use ahmed_sila.Clients.Types.{ClientDetail, ActivationCode}
use ahmed_sila.Clients.Store.{get_client}
use ahmed_sila.Clients.Card.{is_paused}
use ahmed_sila.Clients.Access.{
  Panel, Danger, on_access, access_disabled, access_text, shows_form, can_delete, deletes,
  delete_disabled,
}
use ahmed_sila.Clients.Journey.{At, send_reason, Press, act, acts}
use ahmed_sila.Clients.Journey
use ahmed_sila.Clients.Access.Page.{
  Event, issue, access, suspend, close_form, delete, Busy, code_box, reason_form, access_panel,
  confirm_modal, danger_panel, tab, sends, answer_event, Step, step, steps,
}

-- The button that suspends stands only in the form.
abbrev Ready : Option ClientDetail → Panel → Event → Type 0
Ready c p suspend = shows_form (is_paused c) p ≡ true
Ready c p _ = Unit {0}

module _ (date lower : Text → Text) (c : ClientDetail) (p : Panel) (d : Danger) (busy : Busy) where
  abbrev R : Event → Type 0
  R = Ready (some c) p

  code-Offers : (o : Option ActivationCode) → All (Offers R) (code_box date p.copied o)
  code-Offers none = tt
  code-Offers (some a) = ground arith

  form-Offers :
      (b : Bool)
      → shows_form (is_paused (some c)) p ≡ b
      → All (Offers R) (when b (reason_form busy.suspending p))
  form-Offers true e =
      let buttons : Markup Event =
        button (txt "Приостановить") busy.suspending suspend
        ∷ button (txt "Отмена") false close_form
        ∷ [] in
      let sending = button-Offers R (txt "Приостановить") busy.suspending suspend (λ h. e) in
      let missing : Markup Event =
        when p.reason_missing (span (txt "Укажите причину — она попадёт в журнал действий") ∷ []) in
      let told =
        All-when R p.reason_missing
          (span (txt "Укажите причину — она попадёт в журнал действий") ∷ []) (tt, tt) in
      (tt, ((λ t. tt), All-append R missing buttons told (sending, (tt, tt))))
  form-Offers false e = tt

  access-Offers : All (Offers R) (access_panel date lower c p busy)
  unfolding access_panel
  access-Offers =
      let label : Text =
        if is_paused (some c) then txt "Возобновить доступ" else txt "Приостановить доступ" in
      let disabled : Bool = access_disabled busy.suspending busy.resuming in
      let shown : Markup Event =
        when (shows_form (is_paused (some c)) p) (reason_form busy.suspending p) in
      let below : Markup Event =
        button label disabled access
        ∷ span (access_text lower (is_paused (some c)) c.suspended_reason)
        ∷ shown in
      let issuing =
        button-Offers R (txt "Сгенерировать новый код подтверждения") busy.issuing issue
          (λ h. tt) in
      let toggling = button-Offers R label disabled access (λ h. tt) in
      let form = form-Offers (shows_form (is_paused (some c)) p) refl in
      (
        tt,
        (
          issuing,
          (
            tt,
            All-append R (code_box date p.copied c.activation_code) below
                (code-Offers c.activation_code) (toggling, (tt, form)),
          ),
        ),
      )

  modal-Offers : All (Offers R) (confirm_modal c.name busy.removing d)
  modal-Offers =
      let deletion =
        button-Offers R (txt "Удалить клиента") (delete_disabled c.name busy.removing d) delete
          (λ h. tt) in
      (tt, (tt, (tt, (tt, (tt, ((λ t. tt), (deletion, (tt, tt))))))))

  danger-Offers : All (Offers R) (danger_panel c.name d busy.removing)
  unfolding danger_panel
  danger-Offers = (
    tt,
    (tt, (tt, (tt, All-when R d.confirm_open (confirm_modal c.name busy.removing d) modal-Offers))),
  )

  tab-Offers : All (Offers R) (tab date lower (some c) p d busy)
  unfolding tab
  tab-Offers =
      let both =
        All-append R (access_panel date lower c p busy) (danger_panel c.name d busy.removing)
          access-Offers danger-Offers in
      (tt, (tt, (tt, (tt, (tt, (tt, (tt, (tt, both))))))))

access_sends : (b : Bool) (p : Panel) → (on_access b p).1 ≡ b
unfolding on_access
access_sends true p = refl
access_sends false p = refl

deletes_lem : (name : Text) (d : Danger) → deletes name false d ≡ can_delete name d
unfolding deletes delete_disabled
deletes_lem name d = ground arith

module _ (n : Network) (lower : Text → Text) (iso : ℕ → Text) (encode : Text → Text) where
  -- The change that an event makes is none, or that of a press.
  abbrev pub IsPress : ℕ → (ℕ → ℕ) → At n lower iso encode → At n lower iso encode → Type 0
  IsPress now draw s t = (t ≡ s) ⊎ ((b : Press) × (t ≡ act n lower iso encode (now, draw, b) s))

  module _ (now : ℕ) (draw : ℕ → ℕ) (id : Text) (p : Panel) (d : Danger)
      (s : At n lower iso encode) where
    -- The client that the store has.
    abbrev Stored : ClientDetail → Type 0
    Stored c = get_client id s.1 ≡ some c

    sends-IsPress :
        (c : ClientDetail) (e : Event)
        → Stored c
        → Ready (some c) p e
        → IsPress now draw s (sends n lower iso encode now draw id c p d e s)
    unfolding sends act
    sends-IsPress c issue e h = inr (Journey.issue id, rw e refl)
    sends-IsPress c access e h =
        inr (Journey.access id p, rw (e, access_sends (is_paused (some c)) p) refl)
    sends-IsPress c suspend e h = inr (Journey.suspend id p, rw e (rw h refl))
    sends-IsPress c delete e h = inr (Journey.delete id false d, rw (e, deletes_lem c.name d) refl)
    sends-IsPress c _ e h = inl refl

    answer-IsPress :
        (date : Text → Text) (busy : Busy) (g : Gesture) (o : Option ClientDetail)
        → get_client id s.1 ≡ o
        → IsPress now draw s (
            answer_event n lower iso encode now draw id o p d
              (gives g (tab date lower o p d busy))
              s)
    answer-IsPress date busy g none h = inl refl
    answer-IsPress date busy g (some c) h =
        let drawn = tab date lower (some c) p d busy in
        event_at c h (gives g drawn)
          (gives-Allowed (Ready (some c) p) g drawn (tab-Offers date lower c p d busy))
      where
        event_at :
            (c : ClientDetail)
            → Stored c
            → (o : Option Event) → Allowed (Ready (some c) p) o
            → IsPress now draw s (answer_event n lower iso encode now draw id (some c) p d o s)
        event_at c h none ready = inl refl
        event_at c h (some e) ready = sends-IsPress c e h ready

  -- Whatever is done on the tab of the access as it is drawn, with any local state and any calls under way,
  -- and with the client that the store has: the store ends as after presses of the journey.
  pub steps-acts :
      (date : Text → Text) (ts : List Step) (s : At n lower iso encode)
      → (ps : List (ℕ × (ℕ → ℕ) × Press)) × (steps n date lower iso encode ts s
          ≡ acts n lower iso encode ps s)
  unfolding acts step
  steps-acts date [] s = ([], refl)
  steps-acts date (t ∷ ts) s =
      let (ps, later) = steps-acts date ts (step n date lower iso encode t s) in
      elim (answer-IsPress t.now t.draw t.id t.panel t.danger s date t.busy t.gesture
        (get_client t.id s.1) refl) [
          | inl same ↦ (ps, later ∙ ap (acts n lower iso encode ps) same)
          | inr (b, same) ↦ ((t.now, t.draw, b) ∷ ps, later ∙ ap (acts n lower iso encode ps) same)
        ]

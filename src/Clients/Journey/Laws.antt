-- ===== src/Clients/Journey/Laws.antt =====
-- Every press comes down to at most one operation of the store, and which ones a person can reach.
use ahmed_sila.Base.{
  ℕ, ◌≡◌, refl, sym, ap, ◌∙◌, ◌≢◌, ◌⊎◌, inl, inr, Bool, true, false, Bool-cases, Option, none, some,
  [], arith,
}
use mathlib.Core.Path.{subst}
use ahmed_sila.Text.{Text, trim}
use ahmed_sila.Http.{Network, World}
use ahmed_sila.Clients.Types.{paused, ClientDetail, NewClient, status_eq_iff}
use ahmed_sila.Clients.Store.{Store, get_client}
use ahmed_sila.Clients.Store.Invariant.{Call, creates, suspends, resumes, issues, removes, step}
use ahmed_sila.Clients.Api.{
  create_client, suspend_client, resume_client, issue_activation_code, delete_client,
}
use ahmed_sila.Clients.Store.Refinement.{step-loses}
use ahmed_sila.Clients.Card.{Toggle, resume_now, go_to, is_paused, on_toggle_access}
use ahmed_sila.Clients.Card.Laws.{on_toggle_access_iff}
use ahmed_sila.Clients.Access.{Panel, Danger, on_suspend, on_access, shows_form, deletes}
use ahmed_sila.Clients.Access.Laws.{on_suspend-sent, deletes_iff}
use ahmed_sila.Clients.Form.{on_submit}
use ahmed_sila.Clients.Journey.{
  Press, submit, toggle, access, suspend, issue, delete, create_sent, toggled, press_toggle,
  press_access, press_suspend, send_reason, press_issue, press_delete, act,
}

-- The operation that a press allows: a suspension has a reason, and its client is not paused yet; only a
-- paused client is resumed; a client is removed only where its name has been typed.
abbrev pub Allowed : Press → Store → Call → Type 0
Allowed a s (creates input) = Unit
Allowed a s (suspends id reason) =
    (c : ClientDetail) × (get_client id s ≡ some c) × (c.status ≢ paused) × (reason ≢ [])
Allowed a s (resumes id) = (c : ClientDetail) × (get_client id s ≡ some c) × (c.status ≡ paused)
Allowed a s (issues id) = Unit
Allowed a s (removes id) =
    (c : ClientDetail) × (d : Danger) × (get_client id s ≡ some c)
    × (trim d.typed_name ≡ c.name)
    × (a ≡ delete id false d)

shown :
    (c : ClientDetail) (panel : Panel)
    → shows_form (is_paused (some c)) panel ≡ true
    → c.status ≢ paused
unfolding shows_form
shown c panel h = ground (arith, h, status_eq_iff c.status paused)

named :
    (s : Store) (j : Text) (b c : ClientDetail) (d : Danger)
    → get_client j s ≡ some c
    → get_client j s ≡ some b
    → trim d.typed_name ≡ b.name
    → trim d.typed_name ≡ c.name
named s j b c d e shown typed = ground (arith, e, shown, typed)

removal_named :
    (a : Press) (s : Store) (j : Text) (c : ClientDetail) (call : Call)
    → call ≡ removes j
    → get_client j s ≡ some c
    → Allowed a s call
    → (d : Danger) × (a ≡ delete j false d) × (trim d.typed_name ≡ c.name)
removal_named a s j c call h e l =
    let (b, d, shown, typed, made) = subst (Allowed a s) h l in
    (d, made, named s j b c d e shown typed)

module _ (n : Network) (lower : Text → Text) (iso : ℕ → Text) (encode : Text → Text) where
  -- Nothing happens, or one operation that the press allows.
  abbrev pub Does : ℕ → (ℕ → ℕ) → Press → World n × Store → World n × Store → Type 0
  Does now draw a p q =
      (q ≡ p) ⊎ (c : Call) × (q ≡ (p.0, step lower iso p.1 (now, draw, c))) × Allowed a p.1 c

  submit-Does :
      (now : ℕ) (draw : ℕ → ℕ) (a : Press) (w : World n) (s : Store) (o : Option NewClient)
      → Does now draw a (w, s) (create_sent n lower iso encode now draw (w, s) o)
  unfolding create_client step
  submit-Does now draw a w s none = inl refl
  submit-Does now draw a w s (some input) = inr (creates input, refl, tt)

  resume-Does :
      (now : ℕ) (draw : ℕ → ℕ) (a : Press) (id : Text) (w : World n) (s : Store) (c : ClientDetail)
      → get_client id s ≡ some c
      → c.status ≡ paused
      → Does now draw a (w, s) (resume_client n true lower iso encode now id (w, s)).1
  unfolding resume_client step
  resume-Does now draw a id w s c e h = inr (resumes id, refl, (c, e, h))

  toggled-Does :
      (now : ℕ) (draw : ℕ → ℕ) (a : Press) (id : Text) (w : World n) (s : Store) (c : ClientDetail)
      (t : Toggle)
      → get_client id s ≡ some c
      → on_toggle_access id (some c) ≡ t
      → Does now draw a (w, s) (toggled n lower iso encode now id (w, s) t)
  toggled-Does now draw a id w s c resume_now e h =
      resume-Does now draw a id w s c e ((on_toggle_access_iff id c).0.0 h)
  toggled-Does now draw a id w s c (go_to path) e h = inl refl

  toggle-Does :
      (now : ℕ) (draw : ℕ → ℕ) (a : Press) (id : Text) (w : World n) (s : Store)
      (o : Option ClientDetail)
      → get_client id s ≡ o
      → Does now draw a (w, s) (press_toggle n lower iso encode now id (w, s) o)
  toggle-Does now draw a id w s none e = inl refl
  toggle-Does now draw a id w s (some c) e =
      toggled-Does now draw a id w s c (on_toggle_access id (some c)) e refl

  access-Does :
      (now : ℕ) (draw : ℕ → ℕ) (a : Press) (id : Text) (panel : Panel) (w : World n) (s : Store)
      (o : Option ClientDetail)
      → get_client id s ≡ o
      → Does now draw a (w, s) (press_access n lower iso encode now id panel (w, s) o)
  unfolding on_access
  access-Does now draw a id panel w s none e = inl refl
  access-Does now draw a id panel w s (some c) e = elim (Bool-cases (is_paused (some c))) [
    | inl h ↦ rw h (resume-Does now draw a id w s c e ((status_eq_iff c.status paused).0 h))
    | inr h ↦ rw h (inl refl)
  ]

  send_reason-Does :
      (now : ℕ) (draw : ℕ → ℕ) (a : Press) (id : Text) (w : World n) (s : Store) (c : ClientDetail)
      (o : Option Text)
      → get_client id s ≡ some c
      → c.status ≢ paused
      → ((r : Text) → o ≡ some r → r ≢ [])
      → Does now draw a (w, s) (send_reason n lower iso encode now id (w, s) o)
  unfolding suspend_client step
  send_reason-Does now draw a id w s c none e h k = inl refl
  send_reason-Does now draw a id w s c (some r) e h k =
      inr (suspends id r, refl, (c, e, h, k r refl))

  suspend-Does :
      (now : ℕ) (draw : ℕ → ℕ) (a : Press) (id : Text) (panel : Panel) (w : World n) (s : Store)
      (o : Option ClientDetail)
      → get_client id s ≡ o
      → Does now draw a (w, s) (press_suspend n lower iso encode now id panel (w, s) o)
  suspend-Does now draw a id panel w s none e = inl refl
  suspend-Does now draw a id panel w s (some c) e =
      elim (Bool-cases (shows_form (is_paused (some c)) panel)) [
        | inl h ↦ rw h (
            send_reason-Does now draw a id w s c (on_suspend panel).1 e (shown c panel h)
              (λ r k. (on_suspend-sent panel r k).0))
        | inr h ↦ rw h (inl refl)
      ]

  issue-Does :
      (now : ℕ) (draw : ℕ → ℕ) (a : Press) (id : Text) (w : World n) (s : Store)
      (o : Option ClientDetail)
      → Does now draw a (w, s) (press_issue n lower iso encode now draw id (w, s) o)
  unfolding issue_activation_code step
  issue-Does now draw a id w s none = inl refl
  issue-Does now draw a id w s (some c) = inr (issues id, refl, tt)

  delete-Does :
      (now : ℕ) (draw : ℕ → ℕ) (id : Text) (is_pending : Bool) (d : Danger) (w : World n)
      (s : Store) (o : Option ClientDetail)
      → get_client id s ≡ o
      → Does now draw
          (delete id is_pending d)
          (w, s)
          (press_delete n lower iso encode id is_pending d (w, s) o)
  unfolding delete_client step
  delete-Does now draw id is_pending d w s none e = inl refl
  delete-Does now draw id is_pending d w s (some c) e =
      elim (Bool-cases (deletes c.name is_pending d)) [
        | inl h ↦
            let (typed, idle) = (deletes_iff c.name is_pending d).0.0 h in
            rw h (inr (removes id, refl, (c, d, e, typed, rw idle refl)))
        | inr h ↦ rw h (inl refl)
      ]

  -- A press does nothing, or is one operation of the store that it allows: a suspension has a reason and
  -- its client was not paused, a client that is resumed was paused, and a client is removed only by the
  -- press of the modal in which its name stands.
  pub act-Allowed :
      (now : ℕ) (draw : ℕ → ℕ) (a : Press) (p : World n × Store)
      → Does now draw a p (act n lower iso encode (now, draw, a) p)
  unfolding act
  act-Allowed now draw (submit f q) (w, s) =
      submit-Does now draw (submit f q) w s (on_submit lower f q).1
  act-Allowed now draw (toggle id) (w, s) =
      toggle-Does now draw (toggle id) id w s (get_client id s) refl
  act-Allowed now draw (access id panel) (w, s) =
      access-Does now draw (access id panel) id panel w s (get_client id s) refl
  act-Allowed now draw (suspend id panel) (w, s) =
      suspend-Does now draw (suspend id panel) id panel w s (get_client id s) refl
  act-Allowed now draw (issue id) (w, s) = issue-Does now draw (issue id) id w s (get_client id s)
  act-Allowed now draw (delete id is_pending d) (w, s) =
      delete-Does now draw id is_pending d w s (get_client id s) refl

  -- A press loses no client but the one whose name has been typed into its modal.
  pub act-keeps :
      (now : ℕ) (draw : ℕ → ℕ) (a : Press) (p : World n × Store) (j : Text) (c : ClientDetail)
      → get_client j p.1 ≡ some c
      → get_client j (act n lower iso encode (now, draw, a) p).1 ≡ none
      → (d : Danger) × (a ≡ delete j false d) × (trim d.typed_name ≡ c.name)
  act-keeps now draw a p j c e lost = elim (act-Allowed now draw a p) [
    | inl same ↦ ground (arith, same, e, lost)
    | inr (call, q, l) ↦
        let gone : get_client j (step lower iso p.1 (now, draw, call)) ≡ none =
          sym (ap (λ (r : World n × Store). get_client j r.1) q) ∙ lost in
        removal_named a p.1 j c call (step-loses lower iso p.1 now draw call j c e gone) e l
  ]

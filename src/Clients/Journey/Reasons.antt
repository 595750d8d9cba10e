-- ===== src/Clients/Journey/Reasons.antt =====
-- From the panel's start on, whatever is pressed: a paused client has a reason, and the store is sound.
use ahmed_sila.Base.{
  ℕ, ◌≡◌, refl, sym, ◌≢◌, ◌⊎◌, inl, inr, Bool-cases, Option, none, some, List, [], ◌∷◌, arith,
}
use mathlib.Core.Path.{subst}
use ahmed_sila.Text.{Text, txt, text_eq}
use ahmed_sila.Text.Decimal.{show}
use ahmed_sila.Dict
use ahmed_sila.Dict.{Dict, Each, Each-set, Each-get, Each-delete}
use ahmed_sila.Http.{Network, World}
use ahmed_sila.Clients.Types.{ClientStatus, active, trial, paused, Client, ClientDetail, NewClient}
use ahmed_sila.Clients.Store.{
  Store, add_journal_entry, new_client, create, suspend_found, suspend, resume_found, resume,
  issue_found, issue_activation_code, remove,
}
use ahmed_sila.Clients.Store.Invariant.{
  Call, creates, suspends, resumes, issues, removes, step, run, IsSound, run-IsSound,
}
use ahmed_sila.Clients.Demo.{reason_of, detailed, with_showcase, demo, base_clients}
use ahmed_sila.Clients.Demo.Tickets.{showcase_id}
use ahmed_sila.Clients.Demo.Laws.{demo-IsSound}
use ahmed_sila.Clients.Journey.{Press, act, acts}
use ahmed_sila.Clients.Journey.Laws.{Allowed, Does, act-Allowed}

-- A client that is paused has a reason, and any other has none.
abbrev pub HasReason : Text → ClientDetail → Type 0
HasReason k c =
    (c.status ≡ paused) × ((r : Text) × (c.suspended_reason ≡ some r) × (r ≢ []))
    ⊎ (c.status ≢ paused) × (c.suspended_reason ≡ none)

module _ (lower : Text → Text) (iso : ℕ → Text) where
  suspend_found-HasReason :
      (now : ℕ) (id reason : Text) (s : Store) (o : Option ClientDetail)
      → reason ≢ []
      → Each HasReason s.clients
      → Each HasReason (suspend_found iso lower now id reason s o).1.clients
  unfolding add_journal_entry
  suspend_found-HasReason now id reason s none k h = h
  suspend_found-HasReason now id reason s (some c) k h =
      Each-set HasReason id _ s.clients (inl (refl, (reason, refl, k))) h

  resume_found-HasReason :
      (now : ℕ) (id : Text) (s : Store) (o : Option ClientDetail)
      → Each HasReason s.clients
      → Each HasReason (resume_found iso now id s o).1.clients
  unfolding add_journal_entry
  resume_found-HasReason now id s none h = h
  resume_found-HasReason now id s (some c) h =
      Each-set HasReason id _ s.clients (inr ((λ e. ground (arith, e)), refl)) h

  issue_found-HasReason :
      (now : ℕ) (draw : ℕ → ℕ) (id : Text) (s : Store) (o : Option ClientDetail)
      → Dict.get id s.clients ≡ o
      → Each HasReason s.clients
      → Each HasReason (issue_found iso now draw id s o).1.clients
  unfolding add_journal_entry
  issue_found-HasReason now draw id s none e h = h
  issue_found-HasReason now draw id s (some c) e h =
      Each-set HasReason id _ s.clients (Each-get HasReason id c s.clients h e) h

  created_ne :
      (now : ℕ) (draw : ℕ → ℕ) (id : Text) (input : NewClient)
      → (new_client iso now draw id input).status ≢ paused
  created_ne now draw id input e = ground (arith, e)

  create-HasReason :
      (now : ℕ) (draw : ℕ → ℕ) (input : NewClient) (s : Store)
      → Each HasReason s.clients
      → Each HasReason (create iso now draw input s).1.clients
  unfolding create add_journal_entry
  create-HasReason now draw input s h =
      Each-set HasReason (show s.next_id) _ s.clients
        (inr (created_ne now draw (show s.next_id) input, refl)) h

  pub step-HasReason :
      (now : ℕ) (draw : ℕ → ℕ) (a : Press) (s : Store) (c : Call)
      → Allowed a s c
      → Each HasReason s.clients
      → Each HasReason (step lower iso s (now, draw, c)).clients
  unfolding step suspend resume issue_activation_code remove
  step-HasReason now draw a s (creates input) l h = create-HasReason now draw input s h
  step-HasReason now draw a s (suspends id reason) (c, _, _, k) h =
      suspend_found-HasReason now id reason s (Dict.get id s.clients) k h
  step-HasReason now draw a s (resumes id) l h =
      resume_found-HasReason now id s (Dict.get id s.clients) h
  step-HasReason now draw a s (issues id) l h =
      issue_found-HasReason now draw id s (Dict.get id s.clients) refl h
  step-HasReason now draw a s (removes id) l h = Each-delete HasReason id s.clients h

reason_of_cases :
    (t : ClientStatus)
    → (t ≡ paused) × ((r : Text) × (reason_of t ≡ some r) × (r ≢ []))
      ⊎ (t ≢ paused) × (reason_of t ≡ none)
reason_of_cases active = inr ((λ e. ground (arith, e)), refl)
reason_of_cases trial = inr ((λ e. ground (arith, e)), refl)
reason_of_cases paused = inl (refl, (txt "Просрочка оплаты", refl, λ e. ground (arith, e)))

demo-HasReason :
    (lower : Text → Text) (cs : List Client) → Each HasReason (with_showcase (detailed lower cs))
demo-HasReason lower [] = tt
demo-HasReason lower (c ∷ cs) = elim (Bool-cases (text_eq c.id showcase_id)) [
  | inl e ↦ rw e (reason_of_cases c.status, demo-HasReason lower cs)
  | inr e ↦ rw e (reason_of_cases c.status, demo-HasReason lower cs)
]

module _ (n : Network) (lower : Text → Text) (iso : ℕ → Text) (encode : Text → Text) where
  -- What holds of the store at any time.
  abbrev pub Holds : World n × Store → Type 0
  Holds p = Each HasReason p.1.clients × IsSound p.1

  step-Holds :
      (now : ℕ) (draw : ℕ → ℕ) (a : Press) (p q : World n × Store)
      → Does n lower iso encode now draw a p q
      → Holds p
      → Holds q
  unfolding run
  step-Holds now draw a p q (inl e) h = subst Holds (sym e) h
  step-Holds now draw a p q (inr (c, e, l)) (h, v) = subst Holds (sym e) (
    step-HasReason lower iso now draw a p.1 c l h,
    run-IsSound lower iso p.1 ((now, draw, c) ∷ []) v,
  )

  pub acts-Holds :
      (presses : List (ℕ × (ℕ → ℕ) × Press)) (p : World n × Store)
      → Holds p
      → Holds (acts n lower iso encode presses p)
  unfolding acts
  acts-Holds [] p h = h
  acts-Holds ((now, draw, a) ∷ rest) p h =
      acts-Holds rest (act n lower iso encode (now, draw, a) p)
        (step-Holds now draw a p _ (act-Allowed n lower iso encode now draw a p) h)

  -- Whatever is pressed from the panel's start on, without a backend: a paused client has a reason that is
  -- not empty and any other has none, each client stands under its own id, no id stands twice, and all
  -- ids are ones that the store has given out.
  pub acts-HasReason :
      (now : ℕ) (w : World n) (presses : List (ℕ × (ℕ → ℕ) × Press))
      → Holds (acts n lower iso encode presses (w, demo lower iso now))
  unfolding demo
  acts-HasReason now w presses =
      acts-Holds presses (w, demo lower iso now)
        (demo-HasReason lower (base_clients iso now), demo-IsSound lower iso now)

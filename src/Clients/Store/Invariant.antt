-- ===== src/Clients/Store/Invariant.antt =====
-- What holds of the store of clients after any sequence of operations.
use ahmed_sila.Base.{
  ℕ, ◌+◌, ◌<◌, ◌≡◌, refl, ◌⊎◌, inl, inr, Option, none, some, List, [], ◌∷◌, arith, Option-cases,
}
use ahmed_sila.Text.{Text}
use ahmed_sila.Text.Decimal.{show, show_injective}
use ahmed_sila.Dict
use ahmed_sila.Dict.{Dict, Each, IsMap, Each-set, Each-delete, Each-get, IsMap-set, IsMap-delete}
use ahmed_sila.Clients.Types.{paused, ClientDetail, NewClient}
use ahmed_sila.Clients.Store.{
  Store, create, suspend_found, suspend, resume_found, resume, issue_found, issue_activation_code,
  remove, add_journal_entry,
}

-- An id that the store has given out.
abbrev pub Issued : ℕ → Text → Type 0
Issued next id = (i : ℕ) × (id ≡ show i) × (i < next)

abbrev pub ReasonOnlyPaused : ClientDetail → Type 0
ReasonOnlyPaused c = (c.suspended_reason ≡ none) ⊎ (c.status ≡ paused)

abbrev pub IsEntry : ℕ → Text → ClientDetail → Type 0
IsEntry next k c = (c.id ≡ k) × ReasonOnlyPaused c × Issued next k

-- Clients stand under their ids, each id once and given out by the store; a reason for a suspension
-- is there only while the client is paused.
pub record IsSound (s : Store) : Type 0 where
  pub entries : Each (IsEntry s.next_id) s.clients
  pub distinct : IsMap s.clients

pub data Call : Type 0 where
  creates : NewClient → Call
  suspends : (id reason : Text) → Call
  resumes issues removes : Text → Call

Each-suc : (n : ℕ) (m : Dict ClientDetail) → Each (IsEntry n) m → Each (IsEntry (n + 1)) m
Each-suc n [] h = tt
Each-suc n ((k, c) ∷ m) ((a, b, (i, e, l)), h) = ((a, b, (i, e, omega arith)), Each-suc n m h)

module _ (lower : Text → Text) (iso : ℕ → Text) where
  unfoldable pub step : Store → ℕ × (ℕ → ℕ) × Call → Store
  step s (now, draw, creates input) = (create iso now draw input s).1
  step s (now, draw, suspends id reason) = (suspend iso lower now id reason s).1
  step s (now, draw, resumes id) = (resume iso now id s).1
  step s (now, draw, issues id) = (issue_activation_code iso now draw id s).1
  step s (now, draw, removes id) = remove id s

  unfoldable pub run : Store → List (ℕ × (ℕ → ℕ) × Call) → Store
  run s [] = s
  run s (c ∷ cs) = run (step s c) cs

  set-IsSound :
      (now : ℕ) (id text : Text) (c : ClientDetail) (s : Store)
      → IsEntry s.next_id id c
      → IsSound s
      → IsSound (add_journal_entry iso now id text (record s { clients = Dict.set id c s.clients }))
  unfolding add_journal_entry
  set-IsSound now id text c s e v = record {
    entries = Each-set (IsEntry s.next_id) id c s.clients e v.entries;
    distinct = IsMap-set id c s.clients v.distinct;
  }

  suspend_found-IsSound :
      (now : ℕ) (id reason : Text) (s : Store) (o : Option ClientDetail)
      → Dict.get id s.clients ≡ o
      → IsSound s
      → IsSound (suspend_found iso lower now id reason s o).1
  suspend_found-IsSound now id reason s none e v = v
  suspend_found-IsSound now id reason s (some c) e v =
      let (same, _, issued) = Each-get (IsEntry s.next_id) id c s.clients v.entries e in
      set-IsSound now id _ _ s (same, inr refl, issued) v

  resume_found-IsSound :
      (now : ℕ) (id : Text) (s : Store) (o : Option ClientDetail)
      → Dict.get id s.clients ≡ o
      → IsSound s
      → IsSound (resume_found iso now id s o).1
  resume_found-IsSound now id s none e v = v
  resume_found-IsSound now id s (some c) e v =
      let (same, _, issued) = Each-get (IsEntry s.next_id) id c s.clients v.entries e in
      set-IsSound now id _ _ s (same, inl refl, issued) v

  issue_found-IsSound :
      (now : ℕ) (draw : ℕ → ℕ) (id : Text) (s : Store) (o : Option ClientDetail)
      → Dict.get id s.clients ≡ o
      → IsSound s
      → IsSound (issue_found iso now draw id s o).1
  issue_found-IsSound now draw id s none e v = v
  issue_found-IsSound now draw id s (some c) e v =
      set-IsSound now id _ _ s (Each-get (IsEntry s.next_id) id c s.clients v.entries e) v

  create-IsSound :
      (now : ℕ) (draw : ℕ → ℕ) (input : NewClient) (s : Store)
      → IsSound s
      → IsSound (create iso now draw input s).1
  unfolding create
  create-IsSound now draw input s v =
      set-IsSound now (show s.next_id) _ _ (record s { next_id = s.next_id + 1 })
        (refl, inl refl, (s.next_id, refl, omega arith))
        (record { entries = Each-suc s.next_id s.clients v.entries; distinct = v.distinct })

  step-IsSound : (s : Store) (c : ℕ × (ℕ → ℕ) × Call) → IsSound s → IsSound (step s c)
  unfolding step suspend resume issue_activation_code remove
  step-IsSound s (now, draw, creates input) v = create-IsSound now draw input s v
  step-IsSound s (now, draw, suspends id reason) v =
      suspend_found-IsSound now id reason s (Dict.get id s.clients) refl v
  step-IsSound s (now, draw, resumes id) v =
      resume_found-IsSound now id s (Dict.get id s.clients) refl v
  step-IsSound s (now, draw, issues id) v =
      issue_found-IsSound now draw id s (Dict.get id s.clients) refl v
  step-IsSound s (now, draw, removes id) v = record {
    entries = Each-delete (IsEntry s.next_id) id s.clients v.entries;
    distinct = IsMap-delete id s.clients v.distinct;
  }

  -- Whatever operations run on a sound store, every client stands under its own id, no id stands
  -- twice, all ids are ones that the store has given out, and a reason for a suspension is there only
  -- while the client is paused.
  pub run-IsSound : (s : Store) (cs : List (ℕ × (ℕ → ℕ) × Call)) → IsSound s → IsSound (run s cs)
  unfolding run
  run-IsSound s [] v = v
  run-IsSound s (c ∷ cs) v = run-IsSound (step s c) cs (step-IsSound s c v)

-- The id of the next client is free: it is not that of a client of the store.
pub next_id-free : (s : Store) → IsSound s → Dict.get (show s.next_id) s.clients ≡ none
next_id-free s v = elim (Option-cases (Dict.get (show s.next_id) s.clients)) [
  | inl e ↦ e
  | inr (c, e) ↦
      let (_, _, (i, same, below)) = Each-get (IsEntry s.next_id) _ c s.clients v.entries e in
      absurd (omega (arith, show_injective s.next_id i same))
]

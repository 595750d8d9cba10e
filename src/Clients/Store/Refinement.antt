-- ===== src/Clients/Store/Refinement.antt =====
-- What the store of clients promises to its callers: a directory, of which only the lookups can be seen,
-- and the store as an implementation of it.
use mathlib.Core.Option
use mathlib.Core.Path.{◌≡◌, refl, sym}
use ahmed_sila.Base.{
  ℕ, ◌+◌, ◌&&◌, Option, none, some, is_some, List, [], ◌∷◌, ◌++◌, arith, if◌then◌else◌, ◌∙◌,
}
use ahmed_sila.Text.{Text, txt, text_eq}
use ahmed_sila.Text.Laws.{text_eq_iff}
use ahmed_sila.Text.Decimal.{show}
use ahmed_sila.Clients.Types.{ClientDetail, Ticket, JournalEntry}
use ahmed_sila.Clients.Store.{
  Store, current_user, add_journal_entry, created_text, new_client, new_code, journal_entry, create,
  suspend, resume, issue_activation_code, remove, get_client, list_tickets, list_journal,
}
use ahmed_sila.Clients.Store.Invariant.{
  Call, creates, suspends, resumes, issues, removes, step, run,
}
use ahmed_sila.Clients.Store.Laws.{
  Edits, pausing, resuming, recoding, suspend-Edits, create_lem, remove_lem,
}

-- The abstract state: three functions of the id, and the number of the next client.
pub record Directory : Type 0 where
  pub client : Text → Option ClientDetail
  pub tickets : Text → List Ticket
  pub journal : Text → List JournalEntry
  pub next : ℕ

-- The store and the directory cannot be told apart by a lookup.
pub record Represents (s : Store) (d : Directory) : Type 0 where
  pub clients_agree : (j : Text) → get_client j s ≡ d.client j
  pub tickets_agree : (j : Text) → list_tickets j s ≡ d.tickets j
  pub journal_agree : (j : Text) → list_journal j s ≡ d.journal j
  pub next_agrees : s.next_id ≡ d.next

-- What can be seen of a store.
abbrev pub seen : Store → Directory
seen s = record {
  client = λ j. get_client j s;
  tickets = λ j. list_tickets j s;
  journal = λ j. list_journal j s;
  next = s.next_id;
}

-- An edit of one client that is there, with its line in the client's journal.
abbrev pub edited :
    Text
    → (ClientDetail → ClientDetail)
    → JournalEntry
    → Directory
    → Option ClientDetail × Directory
edited id f line d = (
  Option.map f (d.client id),
  record d {
    client = λ j. if text_eq id j then Option.map f (d.client id) else d.client j;
    journal =
        λ j. if text_eq id j && is_some (d.client id) then line ∷ d.journal j else d.journal j;
  },
)

module _ (lower : Text → Text) (iso : ℕ → Text) where
  -- What a call answers, and the directory after it.
  abbrev pub spec_step : Directory → ℕ × (ℕ → ℕ) × Call → Option ClientDetail × Directory
  spec_step d (now, draw, creates input) =
      let id = show d.next in
      let c = new_client iso now draw id input in
      (
        some c,
        record {
          client = λ j. if text_eq id j then some c else d.client j;
          tickets = d.tickets;
          journal = λ j.
              if text_eq id j
              then journal_entry iso now (created_text iso input) ∷ d.journal j
              else d.journal j;
          next = d.next + 1;
        },
      )
  spec_step d (now, draw, suspends id reason) =
      edited id (pausing iso reason)
        (journal_entry iso now
          (current_user ++ (txt " приостановил доступ, причина: " ++ lower reason)))
        d
  spec_step d (now, draw, resumes id) =
      edited id (resuming iso) (journal_entry iso now (current_user ++ txt " возобновил доступ")) d
  spec_step d (now, draw, issues id) =
      edited id (recoding iso (new_code iso now draw))
        (journal_entry iso now (current_user ++ txt " сгенерировал новый код подтверждения")) d
  spec_step d (now, draw, removes id) = (
    none,
    record d {
      client = λ j. if text_eq id j then none else d.client j;
      tickets = λ j. if text_eq id j then [] else d.tickets j;
      journal = λ j. if text_eq id j then [] else d.journal j;
    },
  )

  -- What a method of the store returns.
  abbrev pub answer : Store → ℕ × (ℕ → ℕ) × Call → Option ClientDetail
  answer s (now, draw, creates input) = some ((create iso now draw input s).0)
  answer s (now, draw, suspends id reason) = (suspend iso lower now id reason s).0
  answer s (now, draw, resumes id) = (resume iso now id s).0
  answer s (now, draw, issues id) = (issue_activation_code iso now draw id s).0
  answer s (now, draw, removes id) = none

  abbrev pub answers : Store → List (ℕ × (ℕ → ℕ) × Call) → List (Option ClientDetail)
  answers s [] = []
  answers s (c ∷ cs) = answer s c ∷ answers (step lower iso s c) cs

  -- The same calls on the directory.
  abbrev pub replay : Directory → List (ℕ × (ℕ → ℕ) × Call) → List (Option ClientDetail) × Directory
  replay d [] = ([], d)
  replay d (c ∷ cs) = let (a, d') = spec_step d c in let (rest, e) = replay d' cs in (a ∷ rest, e)

  edited-Represents :
      (id : Text) (f : ClientDetail → ClientDetail) (line : JournalEntry) (s : Store)
      (d : Directory) (out : Option ClientDetail × Store)
      → Represents s d
      → Edits id f line s out
      → out.1.next_id ≡ s.next_id
      → (out.0 ≡ (edited id f line d).0) × Represents out.1 (edited id f line d).1
  edited-Represents id f line s d out r (same, c, l, t) n =
      let e = r.clients_agree id in
      (
        rw (sym e) same,
        record {
          clients_agree = λ j. ground (arith, c j, r.clients_agree j, e, same);
          tickets_agree = λ j. t j ∙ r.tickets_agree j;
          journal_agree = λ j. ground (arith, l j, r.journal_agree j, e);
          next_agrees = n ∙ r.next_agrees;
        },
      )

  edit-next_id :
      (now : ℕ) (draw : ℕ → ℕ) (id reason : Text) (s : Store)
      → ((suspend iso lower now id reason s).1.next_id ≡ s.next_id)
        × ((resume iso now id s).1.next_id ≡ s.next_id)
        × ((issue_activation_code iso now draw id s).1.next_id ≡ s.next_id)
  unfolding suspend resume issue_activation_code add_journal_entry
  edit-next_id now draw id reason s = ground arith

  -- One call.
  pub step-Represents :
      (s : Store) (d : Directory) (c : ℕ × (ℕ → ℕ) × Call)
      → Represents s d
      → (answer s c ≡ (spec_step d c).0) × Represents (step lower iso s c) (spec_step d c).1
  unfolding step create remove list_tickets add_journal_entry
  step-Represents s d (now, draw, creates input) r =
      let e = r.next_agrees in
      rw (sym e) (
        refl,
        record {
          clients_agree = λ j. ground (arith, create_lem iso now draw input s j, r.clients_agree j);
          tickets_agree = r.tickets_agree;
          journal_agree = λ j. ground (arith, create_lem iso now draw input s j, r.journal_agree j);
          next_agrees = refl;
        },
      )
  step-Represents s d (now, draw, suspends id reason) r =
      edited-Represents id _ _ s d (suspend iso lower now id reason s) r
        (suspend-Edits lower iso now draw id reason s).0 (edit-next_id now draw id reason s).0
  step-Represents s d (now, draw, resumes id) r =
      let (_, e, _) = suspend-Edits lower iso now draw id [] s in
      let (_, n, _) = edit-next_id now draw id [] s in
      edited-Represents id _ _ s d (resume iso now id s) r e n
  step-Represents s d (now, draw, issues id) r =
      let (_, _, e) = suspend-Edits lower iso now draw id [] s in
      let (_, _, n) = edit-next_id now draw id [] s in
      edited-Represents id _ _ s d (issue_activation_code iso now draw id s) r e n
  step-Represents s d (now, draw, removes id) r = (
    refl,
    record {
      clients_agree = λ j. ground (arith, remove_lem id j s, r.clients_agree j);
      tickets_agree = λ j. ground (arith, remove_lem id j s, r.tickets_agree j);
      journal_agree = λ j. ground (arith, remove_lem id j s, r.journal_agree j);
      next_agrees = r.next_agrees;
    },
  )

  pub seen-Represents : (s : Store) → Represents s (seen s)
  seen-Represents s = record {
    clients_agree = λ j. refl;
    tickets_agree = λ j. refl;
    journal_agree = λ j. refl;
    next_agrees = refl;
  }

  spec-loses :
      (s : Directory) (now : ℕ) (draw : ℕ → ℕ) (c : Call) (j : Text) (d : ClientDetail)
      → s.client j ≡ some d
      → (spec_step s (now, draw, c)).1.client j ≡ none
      → c ≡ removes j
  spec-loses s now draw (creates input) j d e lost = ground (arith, e, lost)
  spec-loses s now draw (suspends id reason) j d e lost = ground (arith, e, lost, text_eq_iff id j)
  spec-loses s now draw (resumes id) j d e lost = ground (arith, e, lost, text_eq_iff id j)
  spec-loses s now draw (issues id) j d e lost = ground (arith, e, lost, text_eq_iff id j)
  spec-loses s now draw (removes id) j d e lost = ground (arith, e, lost, text_eq_iff id j)

  -- Through the lookups and the answers of its methods, the store is the directory: any calls give the
  -- same answers on both, and leave them telling the same of every client.
  pub run_refines :
      (s : Store) (d : Directory) (cs : List (ℕ × (ℕ → ℕ) × Call))
      → Represents s d
      → (answers s cs ≡ (replay d cs).0) × Represents (run lower iso s cs) (replay d cs).1
  unfolding run
  run_refines s d [] r = (refl, r)
  run_refines s d (c ∷ cs) r =
      let (e, r') = step-Represents s d c r in
      let (es, r'') = run_refines (step lower iso s c) (spec_step d c).1 cs r' in
      (rw (e, es) refl, r'')

  -- Only the removal of a client loses it.
  pub step-loses :
      (s : Store) (now : ℕ) (draw : ℕ → ℕ) (c : Call) (j : Text) (d : ClientDetail)
      → get_client j s ≡ some d
      → get_client j (step lower iso s (now, draw, c)) ≡ none
      → c ≡ removes j
  step-loses s now draw c j d e lost = spec-loses (seen s) now draw c j d e (
      sym ((step-Represents s (seen s) (now, draw, c) (seen-Represents s)).1.clients_agree j)
      ∙ lost)

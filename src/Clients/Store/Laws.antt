-- ===== src/Clients/Store/Laws.antt =====
-- What each operation of the store of clients changes, and what it leaves alone.
use mathlib.Core.Option
use ahmed_sila.Base.{
  ℕ, ◌*◌, ◌+◌, ◌≤◌, ◌<◌, ◌≡◌, refl, sym, ◌∙◌, ◌≢◌, ◌⊎◌, true, ◌&&◌, Option, none, some, is_some,
  get_or, List, [], ◌∷◌, ◌++◌, any, arith, if◌then◌else◌,
}
use ahmed_sila.Text.{Text, txt, text_eq, trim}
use ahmed_sila.Text.Laws.{text_eq_iff, text_eq_refl}
use ahmed_sila.Text.Decimal.{show, show_injective}
use ahmed_sila.Dict
use ahmed_sila.Dict.{Dict, values, get-set, get-delete}
use ahmed_sila.Clients.Types.{
  active, trial, paused, ClientDetail, NewClient, JournalEntry, ActivationCode,
}
use ahmed_sila.Clients.Store.{
  Store, current_user, day, code_term, create, created_text, new_client, new_code, suspend_found,
  suspend, resume_found, resume, issue_found, issue_activation_code, remove, add_journal_entry,
  put_client, journal_entry, get_client, list_tickets, list_journal, with_status, is_email_taken,
  random_code,
}
use ahmed_sila.Clients.Store.Invariant.{
  Call, creates, suspends, resumes, issues, removes, step, run,
}

-- `out` is what a method returns and the store that it leaves: the client `id`, if there is one, is
-- edited by `f`, returned, and gets the line at the head of its journal. Nothing else changes.
abbrev pub Edits :
    Text
    → (ClientDetail → ClientDetail)
    → JournalEntry
    → Store
    → Option ClientDetail × Store
    → Type 0
Edits id f line s out =
    (out.0 ≡ Option.map f (get_client id s))
    × ((j : Text) → get_client j out.1 ≡ (if text_eq id j then out.0 else get_client j s))
    × ((j : Text)
        → list_journal j out.1 ≡ (
            if text_eq id j && is_some (get_client id s)
            then line ∷ list_journal j s
            else list_journal j s))
    × ((j : Text) → list_tickets j out.1 ≡ list_tickets j s)

module _ (iso : ℕ → Text) where
  get_client-put_client :
      (now : ℕ) (id text : Text) (c : ClientDetail) (s : Store) (j : Text)
      → get_client j (put_client iso now id c text s)
        ≡ (if text_eq id j then some c else get_client j s)
  unfolding get_client add_journal_entry
  get_client-put_client now id text c s j = get-set id j c s.clients

  list_journal-put_client :
      (now : ℕ) (id text : Text) (c : ClientDetail) (s : Store) (j : Text)
      → list_journal j (put_client iso now id c text s)
        ≡ (if text_eq id j then journal_entry iso now text ∷ list_journal j s else list_journal j s)
  unfolding list_journal add_journal_entry
  list_journal-put_client now id text c s j = ground (
    arith,
    text_eq_iff id j,
    get-set id j (journal_entry iso now text ∷ get_or (Dict.get id s.journal) []) s.journal,
  )

  unchanged-Edits :
      (id : Text) (f : ClientDetail → ClientDetail) (line : JournalEntry) (s : Store)
      → get_client id s ≡ none
      → Edits id f line s (none, s)
  unchanged-Edits id f line s e = (
    rw e refl,
    λ j. ground (arith, text_eq_iff id j),
    λ j. ground (arith, text_eq_iff id j),
    λ j. refl,
  )

  put_client-Edits :
      (now : ℕ) (id text : Text) (f : ClientDetail → ClientDetail) (c : ClientDetail) (s : Store)
      → get_client id s ≡ some c
      → Edits id f (journal_entry iso now text) s (some (f c), put_client iso now id (f c) text s)
  unfolding list_tickets add_journal_entry
  put_client-Edits now id text f c s e = (
    rw e refl,
    λ j. get_client-put_client now id text (f c) s j,
    λ j. ground (arith, list_journal-put_client now id text (f c) s j),
    λ j. refl,
  )

  abbrev pub pausing : Text → ClientDetail → ClientDetail
  pausing reason c = with_status iso c (record (c.client) { status = paused }) (some reason)

  abbrev pub resuming : ClientDetail → ClientDetail
  resuming c = with_status iso c (record (c.client) { status = active }) none

  abbrev pub recoding : ActivationCode → ClientDetail → ClientDetail
  recoding code c = record c { activation_code = some code }

  suspend_found-Edits :
      (lower : Text → Text) (now : ℕ) (id reason : Text) (s : Store) (o : Option ClientDetail)
      → get_client id s ≡ o
      → Edits id
          (pausing reason)
          (journal_entry iso now
            (current_user ++ (txt " приостановил доступ, причина: " ++ lower reason)))
          s
          (suspend_found iso lower now id reason s o)
  suspend_found-Edits lower now id reason s none e = unchanged-Edits id _ _ s e
  suspend_found-Edits lower now id reason s (some c) e =
      put_client-Edits now id _ (pausing reason) c s e

  resume_found-Edits :
      (now : ℕ) (id : Text) (s : Store) (o : Option ClientDetail)
      → get_client id s ≡ o
      → Edits id resuming
          (journal_entry iso now (current_user ++ txt " возобновил доступ"))
          s
          (resume_found iso now id s o)
  resume_found-Edits now id s none e = unchanged-Edits id _ _ s e
  resume_found-Edits now id s (some c) e = put_client-Edits now id _ resuming c s e

  issue_found-Edits :
      (now : ℕ) (draw : ℕ → ℕ) (id : Text) (s : Store) (o : Option ClientDetail)
      → get_client id s ≡ o
      → Edits id
          (recoding (new_code iso now draw))
          (journal_entry iso now (current_user ++ txt " сгенерировал новый код подтверждения"))
          s
          (issue_found iso now draw id s o)
  issue_found-Edits now draw id s none e = unchanged-Edits id _ _ s e
  issue_found-Edits now draw id s (some c) e =
      put_client-Edits now id _ (recoding (new_code iso now draw)) c s e

-- Suspending pauses the client with the reason, resuming makes it active without one, and issuing a
-- code replaces the code; each returns the new record and puts its line at the head of the client's
-- journal. An unknown id gives `undefined` and changes nothing, and no other client, journal or
-- ticket is touched.
pub suspend-Edits :
    (lower : Text → Text) (iso : ℕ → Text) (now : ℕ) (draw : ℕ → ℕ) (id reason : Text) (s : Store)
    → Edits id
        (pausing iso reason)
        (journal_entry iso now
          (current_user ++ (txt " приостановил доступ, причина: " ++ lower reason)))
        s
        (suspend iso lower now id reason s)
      × Edits id
          (resuming iso)
          (journal_entry iso now (current_user ++ txt " возобновил доступ"))
          s
          (resume iso now id s)
      × Edits id
          (recoding iso (new_code iso now draw))
          (journal_entry iso now (current_user ++ txt " сгенерировал новый код подтверждения"))
          s
          (issue_activation_code iso now draw id s)
unfolding suspend resume issue_activation_code get_client
suspend-Edits lower iso now draw id reason s = (
  suspend_found-Edits iso lower now id reason s (Dict.get id s.clients) refl,
  resume_found-Edits iso now id s (Dict.get id s.clients) refl,
  issue_found-Edits iso now draw id s (Dict.get id s.clients) refl,
)

-- A client with a trial period that is suspended keeps the date of its end, though it is paused.
pub suspend-keeps_trial_end :
    (lower : Text → Text) (iso : ℕ → Text) (now : ℕ) (id reason : Text) (s : Store)
    (c : ClientDetail) (ends : Text)
    → get_client id s ≡ some c
    → c.status ≡ trial
    → c.trial_ends_at ≡ some ends
    → (d : ClientDetail) × (get_client id (suspend iso lower now id reason s).1 ≡ some d)
      × (d.status ≡ paused)
      × (d.trial_ends_at ≡ some ends)
suspend-keeps_trial_end lower iso now id reason s c ends e t h =
    let (out, after, _, _) = (suspend-Edits lower iso now (λ _. 0) id reason s).0 in
    (pausing iso reason c, after id ∙ rw (text_eq_refl id) (out ∙ rw e refl), refl, h)

-- A new client is returned and stored under its id, with the journal's first line; it is on trial
-- with an end exactly when days are given, and has a code that runs out in seven days. All else stays.
pub create_lem :
    (iso : ℕ → Text) (now : ℕ) (draw : ℕ → ℕ) (input : NewClient) (s : Store) (j : Text)
    → let out = create iso now draw input s in
      let id = show s.next_id in
      (out.0.id ≡ id)
      × (get_client j out.1 ≡ (if text_eq id j then some out.0 else get_client j s))
      × (list_journal j out.1 ≡ (
          if text_eq id j
          then journal_entry iso now (created_text iso input) ∷ list_journal j s
          else list_journal j s))
      × ((input.trial_days ≡ 0) × (out.0.status ≡ active) × (out.0.trial_ends_at ≡ none)
          ⊎ (0 < input.trial_days)
            × (out.0.status ≡ trial)
            × (out.0.trial_ends_at ≡ some (iso (now + input.trial_days * day))))
      × (out.0.activation_code
          ≡ some (record { code = random_code draw; expires_at = iso (now + code_term) }))
      × (out.1.next_id ≡ s.next_id + 1)
unfolding create get_client list_journal add_journal_entry
create_lem iso now draw input s j =
    let id = show s.next_id in
    let c = new_client iso now draw id input in
    let t = record s { next_id = s.next_id + 1 } in
    (
      refl,
      get_client-put_client iso now id (created_text iso input) c t j,
      list_journal-put_client iso now id (created_text iso input) c t j,
      ground arith,
      refl,
      refl,
    )

-- Removing a client leaves nothing of it: no record, no tickets, no journal. All else stays.
pub remove_lem :
    (id j : Text) (s : Store)
    → (get_client j (remove id s) ≡ (if text_eq id j then none else get_client j s))
      × (list_tickets j (remove id s) ≡ (if text_eq id j then [] else list_tickets j s))
      × (list_journal j (remove id s) ≡ (if text_eq id j then [] else list_journal j s))
unfolding remove get_client list_tickets list_journal
remove_lem id j s = (
  get-delete id j s.clients,
  ground (arith, get-delete id j s.tickets),
  ground (arith, get-delete id j s.journal),
)

step-next_id :
    (lower : Text → Text) (iso : ℕ → Text) (s : Store) (c : ℕ × (ℕ → ℕ) × Call)
    → s.next_id ≤ (step lower iso s c).next_id
unfolding step create suspend resume issue_activation_code remove add_journal_entry
step-next_id lower iso s (now, draw, creates input) = omega arith
step-next_id lower iso s (now, draw, suspends id reason) = ground arith
step-next_id lower iso s (now, draw, resumes id) = ground arith
step-next_id lower iso s (now, draw, issues id) = ground arith
step-next_id lower iso s (now, draw, removes id) = omega arith

run-next_id :
    (lower : Text → Text) (iso : ℕ → Text) (s : Store) (cs : List (ℕ × (ℕ → ℕ) × Call))
    → s.next_id ≤ (run lower iso s cs).next_id
unfolding run
run-next_id lower iso s [] = omega arith
run-next_id lower iso s (c ∷ cs) =
    omega (arith, step-next_id lower iso s c, run-next_id lower iso (step lower iso s c) cs)

create-next_id :
    (iso : ℕ → Text) (now : ℕ) (draw : ℕ → ℕ) (input : NewClient) (s : Store)
    → (create iso now draw input s).1.next_id ≡ s.next_id + 1
unfolding create add_journal_entry
create-next_id iso now draw input s = refl

-- An id is never given to a second client, also not after the first one has been removed.
pub create-id_ne :
    (lower : Text → Text) (iso : ℕ → Text) (now later : ℕ) (draw draw' : ℕ → ℕ)
    (input input' : NewClient) (s : Store) (cs : List (ℕ × (ℕ → ℕ) × Call))
    → let out = create iso now draw input s in
      out.0.id ≢ (create iso later draw' input' (run lower iso out.1 cs)).0.id
unfolding create
create-id_ne lower iso now later draw draw' input input' s cs h =
    let t = (create iso now draw input s).1 in
    let e : s.next_id ≡ (run lower iso t cs).next_id =
      show_injective s.next_id (run lower iso t cs).next_id h in
    omega (arith, run-next_id lower iso t cs, create-next_id iso now draw input s)

any-set :
    (lower : Text → Text) (needle id : Text) (c : ClientDetail) (m : Dict ClientDetail)
    → lower c.email ≡ needle
    → any (λ (d : ClientDetail). text_eq (lower d.email) needle) (values (Dict.set id c m)) ≡ true
unfolding Dict.set
any-set lower needle id c [] h = ground (arith, text_eq_iff (lower c.email) needle)
any-set lower needle id c ((k, d) ∷ m) h =
    ground (arith, text_eq_iff (lower c.email) needle, any-set lower needle id c m h)

-- After a client is created, an email whose trimmed form in lower case is the new client's email in
-- lower case is taken.
pub create-is_email_taken :
    (lower : Text → Text) (iso : ℕ → Text) (now : ℕ) (draw : ℕ → ℕ) (input : NewClient) (s : Store)
    (email : Text)
    → lower (trim email) ≡ lower input.email
    → is_email_taken lower email (create iso now draw input s).1 ≡ true
unfolding is_email_taken create add_journal_entry
create-is_email_taken lower iso now draw input s email h =
    any-set lower (lower (trim email)) (show s.next_id) _ s.clients (sym h)

-- ===== src/Clients/Store.antt =====
-- web/src/features/clients/mock.ts: the store of clients in memory, which answers when the panel runs
-- without a backend. Parameters: `lower` is `toLowerCase`, `iso` the text of an instant in
-- milliseconds (`toISOString`). An operation gets the instant at which it runs, the same for all its
-- reads of the clock, and the draws of `Math.random()`, each a number k that stands for k / 2^53.
pub mod Invariant
pub mod Laws
pub mod Refinement
pub mod Codes
pub mod Tests
use ahmed_sila.Base.{
  ℕ, zero, suc, ◌+◌, ◌*◌, ◌/◌, Bool, true, false, Option, none, some, get_or, List, [], ◌∷◌, ◌++◌,
  map, any, ltb, if◌then◌else◌,
}
use ahmed_sila.Text.{Text, txt, text_eq, trim, before}
use ahmed_sila.Text.Decimal.{show}
use ahmed_sila.Dict
use ahmed_sila.Dict.{Dict, values}
use ahmed_sila.Clients.Types.{
  active, trial, paused, Client, ActivationCode, ClientDetail, NewClient, Ticket, JournalEntry,
}

pub record Store : Type 0 where
  pub clients : Dict ClientDetail
  pub tickets : Dict (List Ticket)
  pub journal : Dict (List JournalEntry)
  pub next_id : ℕ

abbrev pub current_user : Text
current_user = txt "Айдар К."

-- 7 days and one day, in milliseconds
abbrev pub code_term : ℕ
code_term = 7 * 24 * 60 * 60000

abbrev pub day : ℕ
day = 24 * 60 * 60000

abbrev pub alphabet : Text
alphabet = txt "ABCDEFGHJKLMNPQRSTUVWXYZ23456789"

abbrev char_at : Text → ℕ → Text
char_at [] i = []
char_at (c ∷ s) zero = c ∷ []
char_at (c ∷ s) (suc i) = char_at s i

-- `alphabet[Math.floor(Math.random() * alphabet.length)]`; `join` writes `undefined` as nothing
unfoldable pub random_char : ℕ → Text
random_char k = char_at alphabet (k * 32 / 9007199254740992)

-- Four characters, from the draw with the number `i`.
unfoldable pub pick : (ℕ → ℕ) → ℕ → Text
unfolding random_char
pick draw i =
    random_char (draw i)
    ++ (random_char (draw (i + 1)) ++ (random_char (draw (i + 2)) ++ random_char (draw (i + 3))))

unfoldable pub random_code : (ℕ → ℕ) → Text
unfolding pick
random_code draw = pick draw 0 ++ (b'-' ∷ pick draw 4)

unfoldable pub list_clients : Store → List Client
list_clients s = map (λ c. c.client) (values s.clients)

unfoldable pub get_client : Text → Store → Option ClientDetail
get_client id s = Dict.get id s.clients

unfoldable pub list_tickets : Text → Store → List Ticket
list_tickets id s = get_or (Dict.get id s.tickets) []

unfoldable pub list_journal : Text → Store → List JournalEntry
list_journal id s = get_or (Dict.get id s.journal) []

module _ (iso : ℕ → Text) where
  abbrev pub journal_entry : ℕ → Text → JournalEntry
  journal_entry now text = record { id = b'j' ∷ show now; occurred_at = iso now; text = text }

  unfoldable pub add_journal_entry : ℕ → Text → Text → Store → Store
  add_journal_entry now id text s = record s {
    journal = Dict.set id (journal_entry now text ∷ get_or (Dict.get id s.journal) []) s.journal;
  }

  -- The client's new record takes the old one's place, and the journal gets a line.
  abbrev pub put_client : ℕ → Text → ClientDetail → Text → Store → Store
  put_client now id c text s =
      add_journal_entry now id text (record s { clients = Dict.set id c s.clients })

  abbrev pub new_code : ℕ → (ℕ → ℕ) → ActivationCode
  new_code now draw = record { code = random_code draw; expires_at = iso (now + code_term) }

  abbrev pub new_client : ℕ → (ℕ → ℕ) → Text → NewClient → ClientDetail
  new_client now draw id input =
      let is_trial = ltb 0 input.trial_days in
      record {
        client = record {
          id = id;
          name = input.name;
          city = trim (before b',' input.address);
          status = if is_trial then trial else active;
          plan = input.plan;
          employees = 0;
          last_active_at = iso now;
          created_at = iso now;
          trial_ends_at = if is_trial then some (iso (now + input.trial_days * day)) else none;
        };
        address = input.address;
        owner_name = input.owner_name;
        phone = input.phone;
        email = input.email;
        open_tickets = 0;
        suspended_reason = none;
        activation_code = some (new_code now draw);
      }

  abbrev pub created_text : NewClient → Text
  created_text input =
      if ltb 0 input.trial_days
      then current_user
        ++ (txt " создал клиента, пробный период " ++ (show input.trial_days ++ txt " дн."))
      else current_user ++ txt " создал клиента без пробного периода"

  -- `create(input)`: the store and the client that it returns
  unfoldable pub create : ℕ → (ℕ → ℕ) → NewClient → Store → ClientDetail × Store
  create now draw input s =
      let id = show s.next_id in
      let c = new_client now draw id input in
      (c, put_client now id c (created_text input) (record s { next_id = s.next_id + 1 }))

  abbrev pub with_status : ClientDetail → Client → Option Text → ClientDetail
  with_status c base reason = record c { client = base; suspended_reason = reason }

  -- The rest of each method, after `clients.get(id)`.
  abbrev pub suspend_found :
      (Text → Text) → ℕ → Text → Text → Store → Option ClientDetail → Option ClientDetail × Store
  suspend_found lower now id reason s none = (none, s)
  suspend_found lower now id reason s (some c) =
      let c' = with_status c (record (c.client) { status = paused }) (some reason) in
      (
        some c',
        put_client now id c'
            (current_user ++ (txt " приостановил доступ, причина: " ++ lower reason)) s,
      )

  unfoldable pub suspend : (Text → Text) → ℕ → Text → Text → Store → Option ClientDetail × Store
  suspend lower now id reason s = suspend_found lower now id reason s (Dict.get id s.clients)

  abbrev pub resume_found : ℕ → Text → Store → Option ClientDetail → Option ClientDetail × Store
  resume_found now id s none = (none, s)
  resume_found now id s (some c) =
      let c' = with_status c (record (c.client) { status = active }) none in
      (some c', put_client now id c' (current_user ++ txt " возобновил доступ") s)

  unfoldable pub resume : ℕ → Text → Store → Option ClientDetail × Store
  resume now id s = resume_found now id s (Dict.get id s.clients)

  abbrev pub issue_found :
      ℕ → (ℕ → ℕ) → Text → Store → Option ClientDetail → Option ClientDetail × Store
  issue_found now draw id s none = (none, s)
  issue_found now draw id s (some c) =
      let c' = record c { activation_code = some (new_code now draw) } in
      (
        some c',
        put_client now id c' (current_user ++ txt " сгенерировал новый код подтверждения") s,
      )

  unfoldable pub issue_activation_code : ℕ → (ℕ → ℕ) → Text → Store → Option ClientDetail × Store
  issue_activation_code now draw id s = issue_found now draw id s (Dict.get id s.clients)

unfoldable pub remove : Text → Store → Store
remove id s = record s {
  clients = Dict.delete id s.clients;
  tickets = Dict.delete id s.tickets;
  journal = Dict.delete id s.journal;
}

unfoldable pub is_email_taken : (Text → Text) → Text → Store → Bool
is_email_taken lower email s =
    let needle = lower (trim email) in
    any (λ (c : ClientDetail). text_eq (lower c.email) needle) (values s.clients)

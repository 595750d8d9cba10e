-- ===== src/Clients/Api.antt =====
-- web/src/features/clients/api.ts. `use_mock` is `USE_MOCK`; `encode` stands for
-- `encodeURIComponent`; the other parameters are those of the store in memory. An `AbortSignal` is not
-- modelled: it only cancels a request.
pub mod Laws
use ahmed_sila.Base.{ℕ, Bool, Option, none, some, List, [], ◌∷◌, ◌++◌, map, get_or, if◌then◌else◌}
use ahmed_sila.Text.{Text, txt}
use ahmed_sila.Http.{Network, World, Outcome, ok, str, num, Field}
use ahmed_sila.Http.Payloads.{tenants, tenant, client_tickets, client_journal, taken, nothing}
use ahmed_sila.Http.Calls.{
  getting, posting, posting_json, deleting, or_error, On, remote, remote_void, local,
}
use ahmed_sila.Clients.Types.{
  plan_key, Client, ActivationCode, ClientDetail, NewClient, TicketMessage, Ticket, JournalEntry,
}
use ahmed_sila.Clients.Wire.{
  TenantWire, ActivationCodeWire, TenantDetailWire, TicketMessageWire, ClientTicketWire,
  ClientJournalEntryWire, TakenWire,
}
use ahmed_sila.Clients.Store

abbrev pub to_client : TenantWire → Client
to_client w = record {
  id = w.id;
  name = w.name;
  city = w.city;
  status = w.status;
  plan = w.plan;
  employees = w.employees;
  last_active_at = get_or w.last_active_at w.created_at;
  created_at = w.created_at;
  trial_ends_at = w.trial_ends_at;
}

abbrev pub to_activation_code : Option ActivationCodeWire → Option ActivationCode
to_activation_code none = none
to_activation_code (some c) = some (record { code = c.code; expires_at = c.expires_at })

abbrev pub to_client_detail : TenantDetailWire → ClientDetail
to_client_detail w = record {
  client = to_client w.tenant;
  address = w.address;
  owner_name = w.owner_name;
  phone = w.phone;
  email = w.email;
  open_tickets = w.open_tickets;
  suspended_reason = w.suspended_reason;
  activation_code = to_activation_code w.activation_code;
}

abbrev pub to_message : TicketMessageWire → TicketMessage
to_message m = record {
  id = m.id;
  author = m.author;
  author_name = m.author_name;
  sent_at = m.sent_at;
  text = m.text;
}

abbrev pub to_ticket : ClientTicketWire → Ticket
to_ticket w = record {
  id = w.id;
  client_id = w.client_id;
  subject = w.subject;
  status = w.status;
  assignee = w.assignee;
  last_message_at = w.last_message_at;
  messages = map to_message w.messages;
}

abbrev pub to_journal_entry : ClientJournalEntryWire → JournalEntry
to_journal_entry e = record { id = e.id; occurred_at = e.occurred_at; text = e.text }

abbrev pub client_path : Text → Text → Text
client_path id rest = txt "/clients/" ++ (id ++ rest)

abbrev pub not_found : Text → Text
not_found id = txt "Клиент " ++ (id ++ txt " не найден")

-- The body that `createClient` sends.
abbrev pub create_body : NewClient → List (Text × Field)
create_body input =
    (txt "name", str input.name)
    ∷ (txt "address", str input.address)
    ∷ (txt "owner_name", str input.owner_name)
    ∷ (txt "phone", str input.phone)
    ∷ (txt "email", str input.email)
    ∷ (txt "plan", str (plan_key input.plan))
    ∷ (txt "trial_days", num input.trial_days)
    ∷ []

-- A method of the store in memory, and the error where it has no such client.
abbrev pub known : Text → Option ClientDetail × Store.Store → Outcome ClientDetail × Store.Store
known id (r, s) = (or_error (not_found id) r, s)

module _ (n : Network) (use_mock : Bool) (lower : Text → Text) (iso : ℕ → Text)
    (encode : Text → Text) where
  abbrev pub Call : Type 0 → Type 0
  Call A = On n Store.Store A

  unfoldable pub fetch_clients : Call (List Client)
  fetch_clients =
      if use_mock
      then local n Store.Store (λ s. (ok (Store.list_clients s), s))
      else remote n Store.Store tenants (txt "/clients") getting (map to_client)

  unfoldable pub fetch_client : Text → Call ClientDetail
  fetch_client id =
      if use_mock
      then local n Store.Store (λ s. known id (Store.get_client id s, s))
      else remote n Store.Store tenant (client_path id []) getting to_client_detail

  unfoldable pub fetch_client_tickets : Text → Call (List Ticket)
  fetch_client_tickets id =
      if use_mock
      then local n Store.Store (λ s. (ok (Store.list_tickets id s), s))
      else remote n Store.Store client_tickets (client_path id (txt "/tickets")) getting
          (map to_ticket)

  unfoldable pub fetch_client_journal : Text → Call (List JournalEntry)
  fetch_client_journal id =
      if use_mock
      then local n Store.Store (λ s. (ok (Store.list_journal id s), s))
      else remote n Store.Store client_journal (client_path id (txt "/journal")) getting
          (map to_journal_entry)

  -- `now` and `draw` are the clock and the random draws that the store in memory reads.
  unfoldable pub create_client : ℕ → (ℕ → ℕ) → NewClient → Call ClientDetail
  create_client now draw input =
      if use_mock
      then local n Store.Store
          (λ s. (let (c, s') = Store.create iso now draw input s in (ok c, s')))
      else remote n Store.Store tenant (txt "/clients") (posting_json (create_body input))
          to_client_detail

  unfoldable pub is_email_taken : Text → Call Bool
  is_email_taken email =
      if use_mock
      then local n Store.Store (λ s. (ok (Store.is_email_taken lower email s), s))
      else remote n Store.Store taken (txt "/clients/email-taken?email=" ++ encode email) getting
          (λ (t : TakenWire). t.taken)

  unfoldable pub suspend_client : ℕ → Text → Text → Call ClientDetail
  suspend_client now id reason =
      if use_mock
      then local n Store.Store (λ s. known id (Store.suspend iso lower now id reason s))
      else remote n Store.Store tenant (client_path id (txt "/suspend"))
          (posting_json ((txt "reason", str reason) ∷ [])) to_client_detail

  unfoldable pub resume_client : ℕ → Text → Call ClientDetail
  resume_client now id =
      if use_mock
      then local n Store.Store (λ s. known id (Store.resume iso now id s))
      else remote n Store.Store tenant (client_path id (txt "/resume")) posting to_client_detail

  unfoldable pub issue_activation_code : ℕ → (ℕ → ℕ) → Text → Call ClientDetail
  issue_activation_code now draw id =
      if use_mock
      then local n Store.Store (λ s. known id (Store.issue_activation_code iso now draw id s))
      else remote n Store.Store tenant (client_path id (txt "/activation-code")) posting
          to_client_detail

  unfoldable pub delete_client : Text → Call Unit
  delete_client id =
      if use_mock
      then local n Store.Store (λ s. (ok tt, Store.remove id s))
      else remote_void n Store.Store nothing (client_path id []) deleting

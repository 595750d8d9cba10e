-- ===== src/Clients/Api/Laws.antt =====
-- Without a backend, what the calls of web/src/features/clients/api.ts answer one after the other;
-- with one, what they make of the backend's answers.
use ahmed_sila.Base.{ℕ, ◌≡◌, refl, ap, ◌∙◌, true, Option, none, some}
use ahmed_sila.Text.{Text}
use ahmed_sila.Text.Decimal.{show}
use ahmed_sila.Text.Laws.{text_eq_refl}
use ahmed_sila.Http.{Network, World, Outcome, ok, thrown, plain_error}
use ahmed_sila.Http.Calls.{or_error}
use ahmed_sila.Clients.Types.{ActivationCode, ClientDetail, NewClient}
use ahmed_sila.Clients.Wire.{ActivationCodeWire, TenantDetailWire}
use ahmed_sila.Clients.Store.{Store, get_client, create, remove}
use ahmed_sila.Clients.Store.Laws.{suspend-Edits, create_lem, remove_lem}
use ahmed_sila.Clients.Api.{
  to_client_detail, not_found, fetch_client, create_client, suspend_client, resume_client,
  issue_activation_code, delete_client,
}

module _ (n : Network) (lower : Text → Text) (iso : ℕ → Text) (encode : Text → Text)
    (p : World n × Store) where
  abbrev pub fetched : Text → World n × Store → Outcome ClientDetail
  fetched id q = (fetch_client n true lower iso encode id q).0

  fetched-get_client :
      (id : Text) (w : World n) (s : Store) (o : Option ClientDetail)
      → get_client id s ≡ o
      → fetched id (w, s) ≡ or_error (not_found id) o
  unfolding fetch_client
  fetched-get_client id w s o e = ap (or_error (not_found id)) e

  -- Without a backend, a client that is fetched after it has been suspended, resumed or given a new
  -- code is what that call answered: the same card, or the same error for an unknown id.
  pub suspend_client-fetch_client :
      (now : ℕ) (draw : ℕ → ℕ) (id reason : Text)
      → let s = suspend_client n true lower iso encode now id reason p in
        let r = resume_client n true lower iso encode now id p in
        let i = issue_activation_code n true lower iso encode now draw id p in
        (fetched id s.1 ≡ s.0) × (fetched id r.1 ≡ r.0) × (fetched id i.1 ≡ i.0)
  unfolding suspend_client resume_client issue_activation_code
  suspend_client-fetch_client now draw id reason =
      let ((_, s, _, _), (_, r, _, _), (_, i, _, _)) =
        suspend-Edits lower iso now draw id reason p.1 in
      (
        fetched-get_client id p.0 _ _ (s id ∙ rw (text_eq_refl id) refl),
        fetched-get_client id p.0 _ _ (r id ∙ rw (text_eq_refl id) refl),
        fetched-get_client id p.0 _ _ (i id ∙ rw (text_eq_refl id) refl),
      )

  -- Without a backend, a client that is fetched after its creation is the card that the creation
  -- answered, and one that is fetched after its removal is an error that names its id.
  pub create_client-fetch_client :
      (now : ℕ) (draw : ℕ → ℕ) (input : NewClient) (id : Text)
      → let c = create_client n true lower iso encode now draw input p in
        let d = delete_client n true lower iso encode id p in
        (fetched (show (p.1.next_id)) c.1 ≡ c.0)
        × (d.0 ≡ ok tt)
        × (fetched id d.1 ≡ thrown (plain_error (not_found id)))
  unfolding create_client delete_client
  create_client-fetch_client now draw input id =
      let new = show (p.1.next_id) in
      let (_, c, _, _, _, _) = create_lem iso now draw input p.1 new in
      let (d, _, _) = remove_lem id id p.1 in
      (
        fetched-get_client new p.0 (create iso now draw input p.1).1
            (some (create iso now draw input p.1).0) (c ∙ rw (text_eq_refl new) refl),
        refl,
        fetched-get_client id p.0 (remove id p.1) none (d ∙ rw (text_eq_refl id) refl),
      )

-- The answer of a backend that has the client `c`.
abbrev code_wire : Option ActivationCode → Option ActivationCodeWire
code_wire none = none
code_wire (some c) = some (record { code = c.code; expires_at = c.expires_at })

abbrev pub wire_of : (last_active_at : Option Text) → ClientDetail → TenantDetailWire
wire_of last c = record {
  tenant = record {
    id = c.id;
    name = c.name;
    city = c.city;
    status = c.status;
    plan = c.plan;
    employees = c.employees;
    last_active_at = last;
    created_at = c.created_at;
    trial_ends_at = c.trial_ends_at;
  };
  address = c.address;
  owner_name = c.owner_name;
  phone = c.phone;
  email = c.email;
  open_tickets = c.open_tickets;
  suspended_reason = c.suspended_reason;
  activation_code = code_wire c.activation_code;
}

code_wire-id :
    (o : Option ActivationCode) → (ahmed_sila.Clients.Api.to_activation_code (code_wire o)) ≡ o
code_wire-id none = refl
code_wire-id (some c) = refl

-- The card read from a backend's record of a client is that client, and a client that has never
-- signed in is shown as last active when it was created.
pub to_client_detail-wire_of :
    (c : ClientDetail)
    → (to_client_detail (wire_of (some c.last_active_at) c) ≡ c)
      × (to_client_detail (wire_of none c)
          ≡ record c { client = record (c.client) { last_active_at = c.created_at } })
to_client_detail-wire_of c = (
  ap (λ o. record c { activation_code = o }) (code_wire-id c.activation_code),
  ap
      (λ o. record c {
        client = record (c.client) { last_active_at = c.created_at };
        activation_code = o;
      })
      (code_wire-id c.activation_code),
)

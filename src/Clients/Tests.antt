-- ===== src/Clients/Tests.antt =====
-- Instances of the laws of the clients' API, list and form.
use ahmed_sila.Base.{
  ℕ, ◌+◌, ◌≤◌, ◌≡◌, refl, ap, ◌∙◌, ◌++◌, ◌&&◌, Bool, any, ◌↔◌, ◌⊎◌, true, false, none, some, List,
  All, [], ◌∷◌, length, Member, arith,
}
use ahmed_sila.Text.{Text, txt, trim, includes, text_eq, is_digit}
use ahmed_sila.Text.Decimal.{show, read}
use ahmed_sila.Text.Email.{Email, is_email, is_email_iff}
use ahmed_sila.Session.{init}
use ahmed_sila.Http.{World}
use ahmed_sila.Http.Tests.{backend}
use ahmed_sila.Clients.Types.{starter, all, only, trial, Client}
use ahmed_sila.Clients.Store.{Store}
use ahmed_sila.Clients.Store.Tests.{lower, order, rodnik, one_client}
use ahmed_sila.Clients.Api.{delete_client}
use ahmed_sila.Clients.Queries.{
  count_of, count_by_status, filter_clients, create_effects, mutation_effects, delete_effects,
}
use ahmed_sila.Clients.Queries.Laws.{count_by_status-filter_clients, Member-filter_clients_iff}
use ahmed_sila.Text.Laws.{text_eq_iff}
use ahmed_sila.Clients.Keys
use ahmed_sila.Clients.Keys.{Key}
use ahmed_sila.Clients.Queries.Stale.{ByPrefix, refreshes, mutation_effects-refreshes}
use ahmed_sila.Clients.Screen.{State}
use ahmed_sila.Clients.Form.{
  Form, EmailCheck, FieldKey, name, address, owner_name, phone, email, empty_form, on_submit,
}
use ahmed_sila.Clients.Form.Laws.{IsValid, IsTakenFrom, on_submit_iff}
use ahmed_sila.Dict
use ahmed_sila.Clients.Types.{Ticket, opened, resolved}
use ahmed_sila.Clients.Store.{get_client, create, remove}
use ahmed_sila.Clients.Queries.{Effect, ticket_effects}
use ahmed_sila.Cache.{
  Options, use_tickets, use_ticket, use_client_tickets, use_journal, ticket_mutation_effects,
}
use ahmed_sila.Cache.Laws.{ticket_effects-refreshes}
use ahmed_sila.Clients.Created.{on_send_to_whats_app}
use ahmed_sila.Clients.Created.Laws.{on_submit-on_send_to_whats_app}
use ahmed_sila.Clients.Access.{Panel, panel_init, Danger, deletes, delete_disabled, can_delete}
use ahmed_sila.Clients.Demo.{demo}
use ahmed_sila.Markup.{Gesture, press, enter}
use ahmed_sila.Clients.Access.Page.{Step, steps}
use ahmed_sila.Clients.Access.Page.Laws.{steps-acts}
use ahmed_sila.Clients.Journey.{Press, submit, suspend, toggle, delete, act, acts}
use ahmed_sila.Clients.Journey.Laws.{act-keeps}
use ahmed_sila.Clients.Journey.Reasons.{Holds, acts-HasReason}

abbrev panel : World backend × Store
panel = (record { store = init; server = 0 }, one_client)

abbrev draw : ℕ → ℕ
draw k = 0

abbrev clients : List Client
clients = rodnik.client ∷ []

count_by_status-filter_clients_example :
    let k = count_by_status clients in
    (count_of (only trial) k ≡ length (filter_clients lower clients (only trial) []))
    × (k.active_clients + k.trial_clients + k.paused_clients ≡ k.all_clients)
unfolding trim
count_by_status-filter_clients_example =
    count_by_status-filter_clients lower clients (only trial) [] refl

Member-filter_clients_iff_example :
    Member (rodnik.client) (filter_clients lower clients (only trial) (txt "одн")) ↔ (
      Member (rodnik.client) clients
      × ((only trial ≡ all) ⊎ (only trial ≡ only trial))
      × ((lower (trim (txt "одн")) ≡ [])
          ⊎ (includes (lower (txt "родник")) (lower (trim (txt "одн"))) ≡ true)))
Member-filter_clients_iff_example =
    Member-filter_clients_iff lower clients (only trial) (txt "одн") (rodnik.client)

is_email_iff_example : (is_email (txt "a@rodnik.kz") ≡ true) ↔ Email (txt "a@rodnik.kz")
is_email_iff_example = is_email_iff (txt "a@rodnik.kz")

abbrev value : FieldKey → Text
value name = txt "родник "
value address = txt "Актау, ул. Жамбыла 7"
value owner_name = txt "Алия"
value phone = txt "+7 701 000 00 00"
value email = txt " a@rodnik.kz"

abbrev form : Form
form = record empty_form { values = value; plan = starter }

abbrev free : EmailCheck
free = record { data_taken = some false; is_fetching = false }

sent : (on_submit lower form free).1 ≡ some order
unfolding on_submit is_email trim read
sent = refl

on_submit_iff_example :
    ((on_submit lower form free).1 ≡ some order)
    ↔ (IsValid form free × (false ≡ false) × IsTakenFrom lower form order)
on_submit_iff_example = on_submit_iff lower form free order

abbrev searching : State
searching = record {
  status_param = some (txt "trial");
  query = txt "нет";
  page_index = 0;
  page_size = 25;
}

abbrev begins : Key → Key → Bool
begins [] k = true
begins (a ∷ f) [] = false
begins (a ∷ f) (b ∷ k) = text_eq b a && begins f k

begins-ByPrefix : ByPrefix begins
begins-ByPrefix [] k = (λ _. (k, refl), λ _. refl)
begins-ByPrefix (a ∷ f) [] = (λ e. ground (arith, e), λ (rest, q). ground (arith, q))
begins-ByPrefix (a ∷ f) (b ∷ k) = (
  λ e.
      (let (h, g) : (text_eq b a ≡ true) × (begins f k ≡ true) = ground (arith, e) in
        let (rest, q) = (begins-ByPrefix f k).0 g in
        (rest, ap (λ x. x ∷ k) ((text_eq_iff b a).0 h) ∙ ap (λ l. a ∷ l) q)),
  λ (rest, q).
      (let (h, g) : (b ≡ a) × (k ≡ f ++ rest) = ground (arith, q) in
        ground (arith, (text_eq_iff b a).1 h, (begins-ByPrefix f k).1 (rest, g))),
)

mutation_effects-refreshes_example :
    (any (refreshes begins Keys.list) mutation_effects ≡ true)
    × (any (refreshes begins (Keys.detail (txt "1"))) mutation_effects ≡ true)
    × (any (refreshes begins (Keys.journal (txt "1"))) mutation_effects ≡ true)
    × (any (refreshes begins Keys.list) (create_effects rodnik) ≡ true)
    × (any (refreshes begins (Keys.email_taken (txt "a@rodnik.kz"))) (create_effects rodnik)
        ≡ false)
    × (any (refreshes begins (Keys.detail (txt "1"))) (delete_effects (txt "1")) ≡ true)
    × (any (refreshes begins Keys.list) (delete_effects (txt "1")) ≡ true)
    × (any (refreshes begins (Keys.email_taken (txt "a@rodnik.kz"))) (delete_effects (txt "1"))
        ≡ false)
mutation_effects-refreshes_example =
    mutation_effects-refreshes begins begins-ByPrefix rodnik (txt "1") (txt "a@rodnik.kz")

ticket_effects-refreshes_example :
    let stale : Options → List Effect → Bool = λ o es. any (refreshes begins o.key) es in
    (stale use_tickets ticket_mutation_effects ≡ true)
    × (stale (use_ticket (some (txt "t-1"))) ticket_mutation_effects ≡ true)
    × (stale (use_client_tickets (txt "5")) ticket_mutation_effects ≡ false)
    × (stale (use_client_tickets (txt "5")) (ticket_effects (txt "5")) ≡ true)
    × (stale use_tickets (ticket_effects (txt "5")) ≡ false)
    × (stale (use_ticket (some (txt "t-1"))) (ticket_effects (txt "5")) ≡ false)
    × (stale use_journal mutation_effects ≡ false)
ticket_effects-refreshes_example =
    ticket_effects-refreshes begins begins-ByPrefix (txt "5") (txt "t-1")

on_submit-on_send_to_whats_app_example :
    (digits text : Text) × (on_send_to_whats_app lower lower (create show 5 draw order one_client).0
      ≡ some (txt "https://wa.me/" ++ (digits ++ (txt "?text=" ++ lower text))))
    × (11 ≤ length digits)
    × All (λ c. is_digit c ≡ true) digits
on_submit-on_send_to_whats_app_example =
    on_submit-on_send_to_whats_app lower lower lower show 5 draw form free order one_client sent

abbrev ticket : Ticket
ticket = record {
  id = txt "t1";
  client_id = txt "1";
  subject = txt "Не приходит код";
  status = opened;
  assignee = none;
  last_message_at = txt "2026-08-14T11:02:00";
  messages = [];
}

-- The list has come anew, with the ticket solved.
abbrev later : List Ticket
later = record ticket { status = resolved } ∷ []

-- A reason of white space is refused, then the client is paused, resumed and deleted.
abbrev with_reason : Text → Panel
with_reason r = record (panel_init true) { reason = r }

abbrev confirmed : Danger
confirmed = record { confirm_open = true; typed_name = txt " родник " }

abbrev presses : List (ℕ × (ℕ → ℕ) × Press)
presses =
    (10, draw, submit form free)
    ∷ (20, draw, suspend (txt "4") (with_reason (txt " ")))
    ∷ (30, draw, suspend (txt "5") (with_reason (txt "долг ")))
    ∷ (40, draw, toggle (txt "4"))
    ∷ (50, draw, delete (txt "17") false confirmed)
    ∷ []

abbrev start : World backend
start = record { store = init; server = 0 }

acts-HasReason_example :
    Holds backend lower show lower
      (acts backend lower show lower presses (start, demo lower show 0))
acts-HasReason_example = acts-HasReason backend lower show lower 0 start presses

abbrev deleting : Press
deleting = delete (txt "1") false confirmed

there : get_client (txt "1") one_client ≡ some rodnik
unfolding get_client Dict.get text_eq
there = refl

lost : get_client (txt "1") (act backend lower show lower (5, draw, deleting) panel).1 ≡ none
unfolding act get_client Dict.get text_eq deletes delete_disabled can_delete delete_client remove
    trim Dict.delete
lost = refl

act-keeps_example :
    (d : Danger) × (deleting ≡ delete (txt "1") false d) × (trim d.typed_name ≡ txt "родник")
act-keeps_example =
    act-keeps backend lower show lower 5 draw deleting panel (txt "1") rodnik there lost

-- The code of a client is issued, and a name is typed into the modal of its removal.
abbrev on_tab : Gesture → Danger → Step
on_tab g d = record {
  id = txt "1";
  now = 10;
  draw = draw;
  panel = with_reason (txt "долг");
  danger = d;
  busy = record { issuing = false; suspending = false; resuming = true; removing = false };
  gesture = g;
}

abbrev tab_steps : List Step
tab_steps = on_tab (press 9) confirmed ∷ on_tab (enter 22 (txt "родник")) confirmed ∷ []

steps-acts_example :
    (ps : List (ℕ × (ℕ → ℕ) × Press)) × (steps backend lower lower show lower tab_steps
        (start, one_client)
      ≡ acts backend lower show lower ps (start, one_client))
steps-acts_example = steps-acts backend lower show lower lower tab_steps (start, one_client)

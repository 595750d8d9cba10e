-- ===== src/Http/Tests.antt =====
-- Instances of the transport's laws, over a backend whose token has run out.
use ahmed_sila.Base.{
  ℕ, zero, suc, ◌≡◌, refl, ap, ◌*◌, ◌≤◌, ◌↔◌, ◌≢◌, ◌⊎◌, true, false, none, some, List, [], ◌∷◌, any,
  length, arith,
}
use ahmed_sila.Text.{txt}
use ahmed_sila.Session.{Store, init}
use ahmed_sila.Http.{
  ErrorBody, ok, Init, get, object, not_json, Response, Fetched, network_error, response, Network,
  World, finish, request,
}
use ahmed_sila.Http.Payloads.{Shape, El, refreshed, login, user, UserResponse}
use ahmed_sila.Http.Ends.{Ends, finish-Ends}
use ahmed_sila.Http.Exchanges.{traced, Run}
use ahmed_sila.Http.Retry.{request-Run}
use ahmed_sila.Http.SingleFlight.{
  Event, start, unauthorized, answered, handled, replied, lost, fresh, run, step, is_waiting,
  is_lost,
}
use ahmed_sila.Http.SingleFlight.Safety.{single_flight}
use ahmed_sila.Http.SingleFlight.Work.{work, Effective, starts}
use ahmed_sila.Http.SingleFlight.Settles.{Settled, settles}

abbrev me : UserResponse
me = record {
  id = txt "1";
  email = txt "a@example.kz";
  full_name = txt "Айдар Керимов";
  role = txt "owner";
  permissions = [];
}

abbrev reply : {A : Type 0} → ℕ → A → Fetched A
reply status a = response (record { status = status; body = object none (some a) })

-- Counts the requests: the first one gets a 401, a refresh gets the token "t2", and then the user
-- is sent. Any other request finds no backend.
abbrev answer : (s : Shape) → ℕ → Fetched (El s)
answer refreshed k = reply 200 (txt "t2")
answer user zero = response (record { status = 401; body = not_json })
answer user (suc k) = reply 200 me
answer login k = reply 200 (record { access_token = txt "t1"; user = me })
answer s k = network_error

abbrev pub backend : Network
backend = record { State = ℕ; fetch = λ s r k. (answer s k, suc k) }

abbrev get_me : Init
get_me = record { method = get; headers = []; body = none }

abbrev signed_in : Store
signed_in = record init { state = record (init.state) { access_token = some (txt "t1") } }

abbrev world : World (traced backend)
world = record { store = signed_in; server = (0, []) }

request-Run_example :
    Run backend
      (txt "/me")
      get_me
      user
      world
      (request (traced backend) user (txt "/me") get_me world)
request-Run_example = request-Run backend user (txt "/me") get_me world

abbrev refusal : ErrorBody
refusal = record { code = txt "not_found"; message = txt "нет"; field = none }

abbrev empty_reply : Response (El user)
empty_reply = record { status = 204; body = not_json }

abbrev missing : Response (El user)
missing = record { status = 404; body = object (some refusal) none }

finish-Ends_example : Ends missing (finish missing)
finish-Ends_example = finish-Ends missing

empty_test : finish empty_reply ≡ ok none
unfolding finish
empty_test = refl

-- Two calls get a 401, the refresh is handled, and a third 401 comes before its reply.
abbrev rush : List Event
rush = start ∷ start ∷ start ∷ unauthorized 0 ∷ unauthorized 1 ∷ handled 0 ∷ unauthorized 2 ∷ []

single_flight_example :
    let s = run (fresh 1) rush in
    (length s.flights ≤ 1)
    × ((s.theft ≡ false) ⊎ (any is_lost rush ≡ true))
    × ((s.pending ≡ true) ↔ (s.flights ≢ []))
    × ((any is_waiting s.calls ≡ false) ⊎ (s.pending ≡ true))
single_flight_example = single_flight 1 rush

-- The reply to a refresh is lost: the next refresh sends the cookie that the backend has used up.
abbrev after_lost : List Event
after_lost = start ∷ unauthorized 0 ∷ handled 0 ∷ lost 0 ∷ start ∷ unauthorized 1 ∷ handled 0 ∷ []

theft_after_lost : (run (fresh 1) after_lost).theft ≡ true
unfolding run
theft_after_lost = refl

-- After the rush the backend handles nothing more: its reply to the refresh comes, and one call ends.
abbrev calm : List Event
calm = replied 0 ∷ answered 0 ∷ []

calm-Effective : Effective (run (fresh 1) rush) calm
unfolding run step
calm-Effective = (
  (λ e. ground (arith, e)),
  (λ e. omega (arith, ap work e)),
  ((λ e. ground (arith, e)), (λ e. omega (arith, ap work e)), tt),
)

settles_example : (length calm ≤ 4 * starts rush) × Settled (run (run (fresh 1) rush) calm)
settles_example = settles 1 rush calm calm-Effective

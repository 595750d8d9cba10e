-- ===== src/Http.antt =====
-- web/src/lib/http.ts: the transport to the backend. The network is a parameter (`Network`); a call
-- runs on the session store and the network's state, one call at a time. Concurrent calls are in
-- Http/SingleFlight.
pub mod Payloads
pub mod Calls
pub mod Ends
pub mod Exchanges
pub mod Retry
pub mod SingleFlight
pub mod Tests
use ahmed_sila.Base.{
  ℕ, Bool, true, false, ◌&&◌, not, Option, none, some, List, [], ◌∷◌, ◌++◌, leb, ltb, ◌==◌,
  if◌then◌else◌,
}
use ahmed_sila.Text.Decimal.{show}
use ahmed_sila.Text.{Text, txt, text_eq, starts_with}
use ahmed_sila.Session.{AuthState, Store, get_auth_state, clear_session, update_access_token}
use Payloads.{Shape, El, refreshed}

pub record ErrorBody : Type 0 where
  pub code : Text
  pub message : Text
  pub field : Option Text

-- `ApiError`: the response's status and its error body.
pub record ApiError : Type 0 where
  pub status : ℕ
  pub body : ErrorBody

-- What a call can throw: the backend's error, `fetch` failing, a body that is no JSON, a read of a
-- field of `null` or `undefined`, and an `Error` that the panel's own code makes, with its message.
pub data Failure : Type 0 where
  api : ApiError → Failure
  network syntax_error type_error : Failure
  plain_error : Text → Failure

pub data Outcome {ℓ} (A : Type ℓ) : Type ℓ where
  ok : A → Outcome A
  thrown : Failure → Outcome A

-- A value in a request's JSON body.
pub data Field : Type 0 where
  str : Text → Field
  num : ℕ → Field

pub data Method : Type 0 where
  get post delete : Method

-- `RequestInit`: `body` is the object that the code passes to `JSON.stringify`.
pub record Init : Type 0 where
  pub method : Method
  pub headers : List (Text × Text)
  pub body : Option (List (Text × Field))

-- What goes to `fetch`, always with the cookies included.
pub record Request : Type 0 where
  pub path : Text
  pub method : Method
  pub headers : List (Text × Text)
  pub body : Option (List (Text × Field))

-- What `response.json()` gives: no JSON, `null`, or an object read as the code's casts read it.
pub data Body (A : Type 0) : Type 0 where
  not_json null_body : Body A
  object : (error : Option ErrorBody) (payload : Option A) → Body A

pub record Response (A : Type 0) : Type 0 where
  pub status : ℕ
  pub body : Body A

-- `fetch` rejects, or resolves to a response.
pub data Fetched (A : Type 0) : Type 0 where
  network_error : Fetched A
  response : Response A → Fetched A

-- The network and the backend behind it.
pub record Network : Type 1 where
  pub State : Type 0
  pub fetch : (s : Shape) → Request → State → Fetched (El s) × State

abbrev pub base : Text
base = txt "/api/v1"

-- `response.ok`
abbrev pub is_ok : ℕ → Bool
is_ok status = leb 200 status && ltb status 300

-- `headers[name] = value`
unfoldable pub put_header : Text → Text → List (Text × Text) → List (Text × Text)
put_header name value [] = (name, value) ∷ []
put_header name value ((n, v) ∷ hs) =
    if text_eq n name then (name, value) ∷ hs else (n, v) ∷ put_header name value hs

abbrev pub with_content_type :
    Option (List (Text × Field)) → List (Text × Text) → List (Text × Text)
with_content_type none hs = hs
with_content_type (some b) hs = put_header (txt "Content-Type") (txt "application/json") hs

-- `if (accessToken)`: neither `null` nor the empty text
abbrev pub with_token : Option Text → List (Text × Text) → List (Text × Text)
with_token none hs = hs
with_token (some []) hs = hs
with_token (some (c ∷ t)) hs = put_header (txt "Authorization") (txt "Bearer " ++ c ∷ t) hs

unfoldable pub build_request : Text → Init → AuthState → Request
build_request path i auth = record {
  path = base ++ path;
  method = i.method;
  headers = with_token auth.access_token (with_content_type i.body i.headers);
  body = i.body;
}

-- `parseErrorBody`
abbrev pub default_error : ℕ → ErrorBody
default_error status = record {
  code = txt "unknown";
  message = txt "Ошибка " ++ show status;
  field = none;
}

abbrev pub parse_error_body : {A : Type 0} → Response A → ErrorBody
parse_error_body r = elim r.body [
  | object error payload ↦ elim error [ some e ↦ e | none ↦ default_error r.status ]
  | _ ↦ default_error r.status
]

-- The end of `request`, from `if (!response.ok)`; `none` is `undefined`.
abbrev pub read_body : {A : Type 0} → Body A → Outcome (Option A)
read_body not_json = thrown syntax_error
read_body null_body = thrown type_error
read_body (object error payload) = ok payload

unfoldable pub finish : {A : Type 0} → Response A → Outcome (Option A)
finish r =
    if not (is_ok r.status)
    then thrown (api (record { status = r.status; body = parse_error_body r }))
    else if r.status == 204
    then ok none
    else read_body r.body

-- The state that a call runs on.
pub record World (n : Network) : Type 0 where
  pub store : Store
  pub server : n.State

module _ (n : Network) where
  abbrev pub Exec : Type 0 → Type 0
  Exec A = World n → Outcome A × World n

  abbrev pub on_store : (Store → Store) → World n → World n
  on_store f w = record w { store = f w.store }

  unfoldable pub send : (s : Shape) → Text → Init → World n → Fetched (El s) × World n
  unfolding build_request
  send s path i w =
      let (r, srv) = n.fetch s (build_request path i (get_auth_state w.store)) w.server in
      (r, record w { server = srv })

  -- The request that `doRefresh` sends: the cookie alone, no token.
  abbrev pub refresh_request : Request
  refresh_request = record {
    path = base ++ txt "/auth/refresh";
    method = post;
    headers = [];
    body = none;
  }

  -- `body.data.access_token`, where a missing `data` is a field of `undefined`
  abbrev pub store_token : Body (El refreshed) → Exec Bool
  store_token not_json w = (thrown syntax_error, w)
  store_token null_body w = (thrown type_error, w)
  store_token (object error none) w = (thrown type_error, w)
  store_token (object error (some t)) w = (ok true, on_store (update_access_token t) w)

  abbrev pub refresh_reply : Fetched (El refreshed) → Exec Bool
  refresh_reply network_error w = (thrown network, w)
  refresh_reply (response r) w =
      if not (is_ok r.status) then (ok false, w) else store_token r.body w

  -- `doRefresh`, which is all of `refreshAccessToken` while no other call waits for a refresh
  unfoldable pub do_refresh : Exec Bool
  do_refresh w =
      let (r, srv) = n.fetch refreshed refresh_request w.server in
      refresh_reply r (record w { server = srv })

  -- `request` with `isRetry`: no refresh.
  abbrev pub retry_reply : {A : Type 0} → Fetched A → Exec (Option A)
  retry_reply network_error w = (thrown network, w)
  retry_reply (response r) w = (finish r, w)

  unfoldable pub retry : (s : Shape) → Text → Init → Exec (Option (El s))
  retry s path i w = let (r, w') = send s path i w in retry_reply r w'

  -- What follows `await refreshAccessToken()` for the response `r` that answered 401.
  abbrev pub after_refresh :
      (s : Shape) → Text → Init → Response (El s) → Outcome Bool → Exec (Option (El s))
  after_refresh s path i r (thrown f) w = (thrown f, w)
  after_refresh s path i r (ok true) w = retry s path i w
  after_refresh s path i r (ok false) w = (finish r, on_store clear_session w)

  abbrev pub needs_refresh : Text → ℕ → Bool
  needs_refresh path status = status == 401 && not (starts_with path (txt "/auth/"))

  abbrev pub first_reply : (s : Shape) → Text → Init → Fetched (El s) → Exec (Option (El s))
  first_reply s path i network_error w = (thrown network, w)
  first_reply s path i (response r) w =
      if needs_refresh path r.status
      then (let (t, w') = do_refresh w in after_refresh s path i r t w')
      else (finish r, w)

  -- `request(path, init)`
  unfoldable pub request : (s : Shape) → Text → Init → Exec (Option (El s))
  request s path i w = let (r, w') = send s path i w in first_reply s path i r w'

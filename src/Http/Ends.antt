-- ===== src/Http/Ends.antt =====
-- web/src/lib/http.ts, the end of `request` and `parseErrorBody`: how a response ends a call.
use ahmed_sila.Base.{
  ap, Bool-cases, ℕ, ◌≡◌, refl, ◌≢◌, ◌↔◌, ◌⊎◌, inl, inr, true, false, Option, none, some, ◌++◌, ◌≤◌,
  ◌<◌, ◌==◌, ==_iff, arith,
}
use ahmed_sila.Text.Decimal.{show}
use ahmed_sila.Text.{txt}
use ahmed_sila.Http.{
  ErrorBody, Failure, api, syntax_error, type_error, Outcome, ok, thrown, Body, not_json, null_body,
  object, Response, is_ok, parse_error_body, read_body, finish,
}

-- `response.ok`, as it is documented: a status from 200 to 299.
abbrev pub Is2xx : ℕ → Type 0
Is2xx status = (200 ≤ status) × (status < 300)

-- The error in a body, and else one that names the status.
abbrev pub error_in : {A : Type 0} → Body A → Option ErrorBody
error_in (object (some e) payload) = some e
error_in _ = none

abbrev pub error_or : ℕ → Option ErrorBody → ErrorBody
error_or status (some e) = e
error_or status none = record {
  code = txt "unknown";
  message = txt "Ошибка " ++ show status;
  field = none;
}

-- What is thrown for a response that is not 2xx.
abbrev pub error_of : {A : Type 0} → Response A → Failure
error_of r = api (record { status = r.status; body = error_or r.status (error_in r.body) })

-- What a 2xx response other than 204 gives: the `data` of its JSON, or why there is none.
abbrev pub Reads : {A : Type 0} → Body A → Outcome (Option A) → Type 0
Reads not_json out = out ≡ thrown syntax_error
Reads null_body out = out ≡ thrown type_error
Reads (object error payload) out = out ≡ ok payload

abbrev pub Ends : {A : Type 0} → Response A → Outcome (Option A) → Type 0
Ends r out =
    (¬ Is2xx r.status × (out ≡ thrown (error_of r)))
    ⊎ ((r.status ≡ 204) × (out ≡ ok none))
    ⊎ (Is2xx r.status × (r.status ≢ 204) × Reads r.body out)

pub ok_iff : (status : ℕ) → (is_ok status ≡ true) ↔ Is2xx status
ok_iff status = ground arith

pub not_ok : (status : ℕ) → is_ok status ≡ false → ¬ Is2xx status
not_ok status e h = ground (arith, e, h)

parse_error_body_lem :
    {A : Type 0} (status : ℕ) (b : Body A)
    → parse_error_body (record { status = status; body = b }) ≡ error_or status (error_in b)
parse_error_body_lem status not_json = refl
parse_error_body_lem status null_body = refl
parse_error_body_lem status (object none payload) = refl
parse_error_body_lem status (object (some e) payload) = refl

read_body-Reads : {A : Type 0} (b : Body A) → Reads b (read_body b)
read_body-Reads not_json = refl
read_body-Reads null_body = refl
read_body-Reads (object error payload) = refl

-- How a response ends a call, in every case: a status that is not 2xx throws an `ApiError` with that status
-- and the error of the body, or one that names the status where the body holds none; a 204 gives
-- `undefined`, whatever its body; any other gives the `data` of its body, or throws where that is no JSON or
-- `null`.
pub finish-Ends : {A : Type 0} (r : Response A) → Ends r (finish r)
unfolding finish
finish-Ends r = elim (Bool-cases (is_ok r.status)) [
  | inl e ↦ elim (Bool-cases (r.status == 204)) [
    | inl k ↦ rw (e, k) (inr (inl ((==_iff r.status 204).0 k, refl)))
    | inr k ↦
        rw (e, k)
          (inr (inr ((ok_iff r.status).0 e, (λ h. ground (arith, k, h)), read_body-Reads r.body)))
  ]
  | inr e ↦ rw e (
      inl (
        not_ok r.status e,
        ap (λ (b : ErrorBody). thrown (api (record { status = r.status; body = b })))
            (parse_error_body_lem r.status r.body),
      ))
]

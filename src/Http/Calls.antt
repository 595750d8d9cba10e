-- ===== src/Http/Calls.antt =====
-- How the files web/src/features/*/api.ts call the transport: a request whose answer is translated,
-- or, when the panel runs without a backend (`USE_MOCK`), the store in memory.
use ahmed_sila.Base.{Option, none, some, List, []}
use ahmed_sila.Text.{Text}
use ahmed_sila.Http.{
  Network, World, Outcome, ok, thrown, plain_error, type_error, Init, get, post, delete, Field,
  request,
}
use ahmed_sila.Http.Payloads.{Shape, El}

abbrev pub getting : Init
getting = record { method = get; headers = []; body = none }

abbrev pub posting : Init
posting = record { method = post; headers = []; body = none }

abbrev pub posting_json : List (Text × Field) → Init
posting_json b = record { method = post; headers = []; body = some b }

abbrev pub deleting : Init
deleting = record { method = delete; headers = []; body = none }

-- The answer's translation; a method or a field of `undefined` is a type error.
abbrev pub translated : {A B : Type 0} → (A → B) → Outcome (Option A) → Outcome B
translated f (thrown e) = thrown e
translated f (ok none) = thrown type_error
translated f (ok (some a)) = ok (f a)

abbrev pub finished : {A : Type 0} → Outcome (Option A) → Outcome (Unit {0})
finished (thrown e) = thrown e
finished (ok a) = ok tt

-- `if (!x) throw new Error(text)`
abbrev pub or_error : {A : Type 0} → Text → Option A → Outcome A
or_error text none = thrown (plain_error text)
or_error text (some a) = ok a

module _ (n : Network) (M : Type 0) where
  -- A call runs on the transport's world and on the store in memory.
  abbrev pub On : Type 0 → Type 0
  On A = World n × M → Outcome A × (World n × M)

  abbrev pub remote : {B : Type 0} → (s : Shape) → Text → Init → (El s → B) → On B
  remote s path i f (w, m) = let (r, w') = request n s path i w in (translated f r, (w', m))

  abbrev pub remote_void : (s : Shape) → Text → Init → On Unit
  remote_void s path i (w, m) = let (r, w') = request n s path i w in (finished r, (w', m))

  abbrev pub local : {B : Type 0} → (M → Outcome B × M) → On B
  local f (w, m) = let (r, m') = f m in (r, (w, m'))

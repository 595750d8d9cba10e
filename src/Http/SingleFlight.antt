-- ===== src/Http/SingleFlight.antt =====
-- web/src/lib/http.ts, `refreshPromise`: calls that meet a 401 at the same time. A run is a sequence
-- of events; between two events no code of the panel runs. The backend is the rotation that the
-- comment at `refreshPromise` describes: each refresh uses the cookie up, and a cookie that comes a
-- second time is taken for a theft. That is the environment's part, not code of this folder.
pub mod Work
pub mod Settles
pub mod Safety
use ahmed_sila.Base.{
  ℕ, zero, suc, ◌+◌, ◌≤◌, ◌≡◌, refl, ◌≢◌, ◌↔◌, ◌⊎◌, inr, Bool, true, false, not, ◌&&◌, Option, none,
  some, List, [], ◌∷◌, ◌++◌, arith, if◌then◌else◌, ◌==◌, map, length, any,
}

-- A call of `request`: its first or second `fetch` is on the way, it awaits `refreshAccessToken()`,
-- or it is over.
pub data Phase : Type 0 where
  fetching retrying waiting finished : Phase

-- A `doRefresh` on its way: before the backend has seen it with the cookie that it carries, or after,
-- with what the backend answers: a new cookie, or a refusal.
pub data Flight : Type 0 where
  asking : ℕ → Flight
  granted : ℕ → Flight
  denied : Flight

-- `pending` is `refreshPromise !== null`; `flights` are the refreshes under way. Cookies are numbered
-- in the order in which the backend issues them: `cookie` is the browser's, `valid` the one that the
-- backend would accept, `theft` that it has seen a used one.
pub record System : Type 0 where
  pub calls : List Phase
  pub pending : Bool
  pub flights : List Flight
  pub cookie : ℕ
  pub valid : ℕ
  pub theft : Bool

pub data Event : Type 0 where
  -- a component calls `request`
  start : Event
  -- the call with this number gets its answer: a 401, or any other, or its `fetch` fails
  unauthorized answered : ℕ → Event
  -- the backend handles the refresh with this number, and its reply reaches the browser
  handled replied : ℕ → Event
  -- the backend refuses it for a reason of its own, such as a session that has run out
  refused : ℕ → Event
  -- the refresh with this number fails before it reaches the backend
  unreachable : ℕ → Event
  -- the reply to it is lost on its way back, with the cookie in it, and its `fetch` fails
  lost : ℕ → Event
  -- its reply comes with the new cookie, and a body in which `doRefresh` finds no token
  unreadable : ℕ → Event

abbrev update_at {ℓ} : {A : Type ℓ} → ℕ → (A → A) → List A → List A
update_at i f [] = []
update_at zero f (x ∷ xs) = f x ∷ xs
update_at (suc i) f (x ∷ xs) = x ∷ update_at i f xs

abbrev remove_at {ℓ} : {A : Type ℓ} → ℕ → List A → List A
remove_at i [] = []
remove_at zero (x ∷ xs) = xs
remove_at (suc i) (x ∷ xs) = x ∷ remove_at i xs

abbrev get_elem? {ℓ} : {A : Type ℓ} → List A → ℕ → Option A
get_elem? [] i = none
get_elem? (x ∷ xs) zero = some x
get_elem? (x ∷ xs) (suc i) = get_elem? xs i

-- `refreshPromise ??= doRefresh().finally(…)`
unfoldable pub refresh_access_token : System → System
refresh_access_token s =
    if s.pending
    then s
    else record s { pending = true; flights = s.flights ++ asking s.cookie ∷ [] }

-- A first 401 makes the call wait for a refresh; a second ends it.
on_unauthorized : ℕ → Option Phase → System → System
on_unauthorized i (some fetching) s =
    refresh_access_token (record s { calls = update_at i (λ _. waiting) s.calls })
on_unauthorized i (some retrying) s = record s { calls = update_at i (λ _. finished) s.calls }
on_unauthorized i _ s = s

on_answered : ℕ → Option Phase → System → System
on_answered i (some fetching) s = record s { calls = update_at i (λ _. finished) s.calls }
on_answered i (some retrying) s = record s { calls = update_at i (λ _. finished) s.calls }
on_answered i _ s = s

-- The backend: a cookie in force is used up and the next one issued, a used one is a theft.
on_handled : ℕ → Option Flight → System → System
on_handled i (some (asking c)) s =
    if c == s.valid
    then record s {
      valid = s.valid + 1;
      flights = update_at i (λ _. granted (s.valid + 1)) s.flights;
    }
    else record s { theft = true; flights = update_at i (λ _. denied) s.flights }
on_handled i _ s = s

on_refused : ℕ → Option Flight → System → System
on_refused i (some (asking c)) s = record s { flights = update_at i (λ _. denied) s.flights }
on_refused i _ s = s

abbrev pub wake : Phase → Phase → Phase
wake to waiting = to
wake to p = p

-- The promise settles: `finally` clears the variable, and every call that awaited it goes on, to
-- its second `fetch` or to its end.
settle : Phase → System → System
settle to s = record s { calls = map (wake to) s.calls; pending = false }

on_replied : ℕ → Option Flight → System → System
on_replied i (some (granted c)) s =
    settle retrying (record s { cookie = c; flights = remove_at i s.flights })
on_replied i (some denied) s = settle finished (record s { flights = remove_at i s.flights })
on_replied i _ s = s

on_unreachable : ℕ → Option Flight → System → System
on_unreachable i (some (asking c)) s =
    settle finished (record s { flights = remove_at i s.flights })
on_unreachable i _ s = s

on_lost : ℕ → Option Flight → System → System
on_lost i (some (granted c)) s = settle finished (record s { flights = remove_at i s.flights })
on_lost i (some denied) s = settle finished (record s { flights = remove_at i s.flights })
on_lost i _ s = s

on_unreadable : ℕ → Option Flight → System → System
on_unreadable i (some (granted c)) s =
    settle finished (record s { cookie = c; flights = remove_at i s.flights })
on_unreadable i _ s = s

unfoldable pub step : System → Event → System
unfolding on_unauthorized refresh_access_token on_answered on_handled on_refused on_replied
    on_unreachable on_lost on_unreadable settle
step s start = record s { calls = s.calls ++ fetching ∷ [] }
step s (unauthorized i) = on_unauthorized i (get_elem? s.calls i) s
step s (answered i) = on_answered i (get_elem? s.calls i) s
step s (handled i) = on_handled i (get_elem? s.flights i) s
step s (refused i) = on_refused i (get_elem? s.flights i) s
step s (replied i) = on_replied i (get_elem? s.flights i) s
step s (unreachable i) = on_unreachable i (get_elem? s.flights i) s
step s (lost i) = on_lost i (get_elem? s.flights i) s
step s (unreadable i) = on_unreadable i (get_elem? s.flights i) s

unfoldable pub run : System → List Event → System
unfolding step
run s [] = s
run s (e ∷ es) = run (step s e) es

-- A signed-in tab: no call under way, and a cookie that the backend accepts.
abbrev pub fresh : ℕ → System
fresh c = record { calls = []; pending = false; flights = []; cookie = c; valid = c; theft = false }

abbrev pub is_waiting : Phase → Bool
is_waiting waiting = true
is_waiting _ = false

-- A reply to a refresh is lost.
abbrev pub is_lost : Event → Bool
is_lost (lost i) = true
is_lost _ = false

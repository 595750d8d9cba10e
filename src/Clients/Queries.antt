-- ===== src/Clients/Queries.antt =====
-- web/src/features/clients/useClients.ts: the counters and the filter of the list, the keys of the
-- query cache, and what each mutation does to the cache when it succeeds. `lower` is `toLowerCase`.
pub mod Laws
pub mod Stale
use ahmed_sila.Base.{
  ℕ, suc, Bool, true, false, ◌&&◌, ◌||◌, not, Option, none, some, List, [], ◌∷◌, ◌++◌, map, any,
  filter, length, if◌then◌else◌,
}
use ahmed_sila.Text.{Text, trim, includes}
use ahmed_sila.Clients.Keys
use ahmed_sila.Clients.Keys.{Key}
use ahmed_sila.Clients.Types.{
  ClientStatus, active, trial, paused, ClientFilter, all, only, status_eq, Client, ClientDetail,
}

-- `StatusCounts`
pub record StatusCounts : Type 0 where
  pub all_clients : ℕ
  pub active_clients : ℕ
  pub trial_clients : ℕ
  pub paused_clients : ℕ

-- `counts[filter]`
abbrev pub count_of : ClientFilter → StatusCounts → ℕ
count_of all k = k.all_clients
count_of (only active) k = k.active_clients
count_of (only trial) k = k.trial_clients
count_of (only paused) k = k.paused_clients

-- `counts[status] += 1`
abbrev pub bump : ClientStatus → StatusCounts → StatusCounts
bump active k = record k { active_clients = suc k.active_clients }
bump trial k = record k { trial_clients = suc k.trial_clients }
bump paused k = record k { paused_clients = suc k.paused_clients }

-- The loop of `countByStatus`.
unfoldable pub count_each : List Client → StatusCounts → StatusCounts
count_each [] k = k
count_each (c ∷ cs) k = count_each cs (bump c.status k)

unfoldable pub count_by_status : List Client → StatusCounts
unfolding count_each
count_by_status cs =
    count_each cs (record {
      all_clients = length cs;
      active_clients = 0;
      trial_clients = 0;
      paused_clients = 0;
    })

abbrev pub has_status : ClientFilter → Client → Bool
has_status all c = true
has_status (only s) c = status_eq c.status s

abbrev pub matches : (Text → Text) → Text → Client → Bool
matches lower [] c = true
matches lower (x ∷ needle) c = includes (lower c.name) (x ∷ needle)

unfoldable pub filter_clients : (Text → Text) → List Client → ClientFilter → Text → List Client
filter_clients lower cs f query =
    let needle = lower (trim query) in filter (λ c. has_status f c && matches lower needle c) cs

-- What a mutation's `onSuccess` asks of the query client, and the callback of `useDeleteClient`.
pub data Effect : Type 0 where
  invalidate remove : Key → Effect
  set_data : Key → ClientDetail → Effect
  on_deleted : Effect

abbrev pub create_effects : ClientDetail → List Effect
create_effects c = set_data (Keys.detail c.id) c ∷ invalidate Keys.list ∷ []

-- `useClientMutation`: suspending, resuming, issuing a code.
abbrev pub mutation_effects : List Effect
mutation_effects = invalidate Keys.all_clients ∷ []

-- `useReplyToClientTicket`, `useMarkClientTicketResolved`
abbrev pub ticket_effects : Text → List Effect
ticket_effects client_id = invalidate (Keys.tickets client_id) ∷ []

abbrev pub delete_effects : Text → List Effect
delete_effects id =
    on_deleted
    ∷ remove (Keys.detail id)
    ∷ remove (Keys.tickets id)
    ∷ remove (Keys.journal id)
    ∷ invalidate Keys.list
    ∷ []

-- `enabled` of `useEmailTaken`
abbrev pub asks_email : Text → Bool
asks_email [] = false
asks_email (c ∷ email) = true

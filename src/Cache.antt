-- ===== src/Cache.antt =====
-- The query hooks of all sections (web/src/features/*/use*.ts) with the defaults of web/src/App.tsx: the key
-- and the options of every query, and what the mutations of the tickets, the team and the settings make
-- stale. The hooks of the clients' mutations are in Clients/Queries.
pub mod Laws
use ahmed_sila.Base.{ℕ, Bool, true, false, not, Option, none, some, is_some, List, [], ◌∷◌}
use ahmed_sila.Text.{Text, txt}
use ahmed_sila.Clients.Keys
use ahmed_sila.Clients.Keys.{Key}
use ahmed_sila.Clients.Queries.{Effect, invalidate, on_deleted, asks_email}

-- What a query is set up with. No stale time means `Infinity`.
pub record Options : Type 0 where
  pub key : Key
  pub enabled : Bool
  pub refetch_on_window_focus : Bool
  pub stale_time : Option ℕ
  pub retries : ℕ

-- `defaultOptions`
abbrev pub defaults : Key → Options
defaults key = record {
  key = key;
  enabled = true;
  refetch_on_window_focus = false;
  stale_time = some 30000;
  retries = 1;
}

abbrev pub use_clients : Options
use_clients = defaults Keys.list

abbrev pub use_client : Text → Options
use_client id = defaults (Keys.detail id)

abbrev pub use_client_tickets : Text → Options
use_client_tickets id = defaults (Keys.tickets id)

abbrev pub use_client_journal : Text → Options
use_client_journal id = defaults (Keys.journal id)

abbrev pub use_email_taken : Text → Options
use_email_taken email = record (defaults (Keys.email_taken email)) {
  enabled = asks_email email;
  stale_time = none;
}

abbrev pub all_tickets : Key
all_tickets = txt "tickets" ∷ []

abbrev pub ticket_key : Text → Key
ticket_key id = txt "tickets" ∷ txt "detail" ∷ id ∷ []

abbrev pub use_tickets : Options
use_tickets = defaults all_tickets

abbrev id_or_empty : Option Text → Text
id_or_empty none = []
id_or_empty (some id) = id

abbrev pub use_ticket : Option Text → Options
use_ticket id = record (defaults (ticket_key (id_or_empty id))) { enabled = is_some id }

-- `useTicketMutation`: replying, assigning, and changing the status or the priority.
abbrev pub ticket_mutation_effects : List Effect
ticket_mutation_effects = invalidate all_tickets ∷ []

abbrev pub team_key : Key
team_key = txt "team" ∷ []

abbrev pub use_team : Options
use_team = defaults team_key

-- `useInviteTeamMember`, `useUpdateTeamMemberRole`, and `useRevokeTeamMember` with its callback.
abbrev pub team_mutation_effects : List Effect
team_mutation_effects = invalidate team_key ∷ []

abbrev pub revoke_effects : List Effect
revoke_effects = on_deleted ∷ invalidate team_key ∷ []

abbrev pub settings_key : Key
settings_key = txt "settings" ∷ []

abbrev pub use_settings : Options
use_settings = defaults settings_key

abbrev pub save_effects : List Effect
save_effects = invalidate settings_key ∷ []

abbrev pub overview_key : Key
overview_key = txt "overview" ∷ []

abbrev pub use_overview : Options
use_overview = record (defaults overview_key) {
  refetch_on_window_focus = true;
  stale_time = some 0;
}

abbrev pub journal_key : Key
journal_key = txt "journal" ∷ []

abbrev pub use_journal : Options
use_journal = defaults journal_key

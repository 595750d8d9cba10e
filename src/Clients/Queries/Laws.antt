-- ===== src/Clients/Queries/Laws.antt =====
-- The counters and the filter agree, and which cached answers a mutation makes stale.
use ahmed_sila.Base.{
  ◌+◌, ◌≡◌, refl, sym, ap, ◌∙◌, ◌↔◌, ◌⊎◌, Bool, true, ◌&&◌, List, [], ◌∷◌, length, filter, arith,
  Member, Member-filter, filter-Member, filter_all, filter_congr,
}
use ahmed_sila.Text.{Text, trim, includes}
use ahmed_sila.Clients.Types.{ClientStatus, ClientFilter, all, only, status_eq_iff, Client}
use ahmed_sila.Clients.Queries.{
  StatusCounts, count_of, bump, count_each, count_by_status, has_status, matches, filter_clients,
}

count_each-count_of :
    (s : ClientStatus) (cs : List Client) (k : StatusCounts)
    → count_of (only s) (count_each cs k)
      ≡ count_of (only s) k + length (filter (has_status (only s)) cs)
unfolding count_each
count_each-count_of s [] k = omega arith
count_each-count_of s (c ∷ cs) k = ground (arith, count_each-count_of s cs (bump c.status k))

count_each-all :
    (cs : List Client) (k : StatusCounts)
    → ((count_each cs k).all_clients ≡ k.all_clients)
      × ((count_each cs k).active_clients
            + (count_each cs k).trial_clients
            + (count_each cs k).paused_clients
          ≡ k.active_clients + k.trial_clients + k.paused_clients + length cs)
unfolding count_each
count_each-all [] k = (refl, omega arith)
count_each-all (c ∷ cs) k = ground (arith, count_each-all cs (bump c.status k))

pub matches-blank :
    (lower : Text → Text) (f : ClientFilter) (cs : List Client) (query : Text)
    → lower (trim query) ≡ []
    → filter_clients lower cs f query ≡ filter (has_status f) cs
unfolding filter_clients
matches-blank lower f cs query h = filter_congr _ _ cs (λ c. rw h (ground arith))

count_of-rows :
    (f : ClientFilter) (cs : List Client)
    → count_of f (count_by_status cs) ≡ length (filter (has_status f) cs)
unfolding count_by_status
count_of-rows all cs =
    let k : StatusCounts = record {
      all_clients = length cs;
      active_clients = 0;
      trial_clients = 0;
      paused_clients = 0;
    } in
    (count_each-all cs k).0 ∙ sym (ap length (filter_all (has_status all) cs (λ c. refl)))
count_of-rows (only s) cs = ground (
  arith,
  count_each-count_of s cs (record {
    all_clients = length cs;
    active_clients = 0;
    trial_clients = 0;
    paused_clients = 0;
  }),
)

-- Each chip's number is the number of rows that its filter leaves while nothing is searched for, and
-- the numbers of the three statuses add up to the number of all clients.
pub count_by_status-filter_clients :
    (lower : Text → Text) (cs : List Client) (f : ClientFilter) (query : Text)
    → lower (trim query) ≡ []
    → let k = count_by_status cs in
      (count_of f k ≡ length (filter_clients lower cs f query))
      × (k.active_clients + k.trial_clients + k.paused_clients ≡ k.all_clients)
unfolding count_by_status
count_by_status-filter_clients lower cs f query h =
    let k : StatusCounts = record {
      all_clients = length cs;
      active_clients = 0;
      trial_clients = 0;
      paused_clients = 0;
    } in
    (
      ap (count_of f) refl
          ∙ (count_of-rows f cs ∙ sym (ap length (matches-blank lower f cs query h))),
      omega (arith, count_each-all cs k),
    )

status_iff :
    (f : ClientFilter) (c : Client) → (has_status f c ≡ true) ↔ ((f ≡ all) ⊎ (f ≡ only c.status))
status_iff all c = ground arith
status_iff (only s) c = ground (arith, status_eq_iff c.status s)

matches_iff :
    (lower : Text → Text) (needle : Text) (c : Client)
    → (matches lower needle c ≡ true) ↔ ((needle ≡ []) ⊎ (includes (lower c.name) needle ≡ true))
matches_iff lower [] c = ground arith
matches_iff lower (x ∷ needle) c = ground arith

shown_iff :
    (lower : Text → Text) (f : ClientFilter) (needle : Text) (c : Client)
    → ((has_status f c && matches lower needle c) ≡ true) ↔ (
        ((f ≡ all) ⊎ (f ≡ only c.status))
        × ((needle ≡ []) ⊎ (includes (lower c.name) needle ≡ true)))
shown_iff lower f needle c = ground (arith, status_iff f c, matches_iff lower needle c)

-- A row is shown exactly when it is one of the clients, has the status of the filter, if one is
-- chosen, and its name holds what is searched for, if anything is, in any case of the letters.
pub Member-filter_clients_iff :
    (lower : Text → Text) (cs : List Client) (f : ClientFilter) (query : Text) (c : Client)
    → Member c (filter_clients lower cs f query) ↔ (
        Member c cs
        × ((f ≡ all) ⊎ (f ≡ only c.status))
        × ((lower (trim query) ≡ []) ⊎ (includes (lower c.name) (lower (trim query)) ≡ true)))
unfolding filter_clients
Member-filter_clients_iff lower cs f query c =
    let needle = lower (trim query) in
    let p : Client → Bool = λ d. has_status f d && matches lower needle d in
    ground (arith, Member-filter p c cs, filter-Member p c cs, shown_iff lower f needle c)

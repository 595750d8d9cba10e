-- ===== src/Cache/Laws.antt =====
-- What the mutations of one section do to the answers that another section holds, for a query library
-- whose filter keys name the keys that begin with them.
use ahmed_sila.Base.{◌≡◌, refl, Bool, true, false, some, List, [], ◌∷◌, any, arith}
use ahmed_sila.Text.{Text, txt}
use ahmed_sila.Clients.Keys
use ahmed_sila.Clients.Keys.{Key}
use ahmed_sila.Clients.Queries.{Effect, mutation_effects, ticket_effects}
use ahmed_sila.Clients.Queries.Stale.{ByPrefix, refreshes, fits-under, not_fits}
use ahmed_sila.Cache.{
  Options, all_tickets, use_tickets, use_ticket, use_client_tickets, use_journal,
  ticket_mutation_effects, ticket_key, journal_key,
}

module _ (fits : Key → Key → Bool) (by_prefix : ByPrefix fits) where
  -- Where a filter key names the keys that begin with it: a change of a ticket in the section of the
  -- tickets makes their list and every thread stale, but not the tickets on a client's card; a reply on
  -- the card makes that card's tickets stale, but neither the section's list nor its threads; and pausing
  -- or resuming a client, or issuing a code, does not make the action journal stale.
  pub ticket_effects-refreshes :
      (id ticket_id : Text)
      → let stale : Options → List Effect → Bool = λ o es. any (refreshes fits o.key) es in
        (stale use_tickets ticket_mutation_effects ≡ true)
        × (stale (use_ticket (some ticket_id)) ticket_mutation_effects ≡ true)
        × (stale (use_client_tickets id) ticket_mutation_effects ≡ false)
        × (stale (use_client_tickets id) (ticket_effects id) ≡ true)
        × (stale use_tickets (ticket_effects id) ≡ false)
        × (stale (use_ticket (some ticket_id)) (ticket_effects id) ≡ false)
        × (stale use_journal mutation_effects ≡ false)
  ticket_effects-refreshes id ticket_id = (
    rw (fits-under fits by_prefix all_tickets []) refl,
    rw (fits-under fits by_prefix all_tickets (txt "detail" ∷ ticket_id ∷ [])) refl,
    rw (not_fits fits by_prefix all_tickets (Keys.tickets id) (λ rest q. ground (arith, q))) refl,
    rw (fits-under fits by_prefix (Keys.tickets id) []) refl,
    rw (not_fits fits by_prefix (Keys.tickets id) all_tickets (λ rest q. ground (arith, q))) refl,
    rw
        (not_fits fits by_prefix (Keys.tickets id) (ticket_key ticket_id)
          (λ rest q. ground (arith, q)))
        refl,
    rw (not_fits fits by_prefix Keys.all_clients journal_key (λ rest q. ground (arith, q))) refl,
  )

-- ===== src/Clients/Queries/Stale.antt =====
-- Which cached answers the mutations of web/src/features/clients/useClients.ts make stale. The query
-- library is a parameter: `fits f k` says whether it takes the key `k` for one that the filter key `f`
-- names. Its documentation says that these are the keys that begin with `f`.
use ahmed_sila.Base.{
  ◌≡◌, refl, ◌≢◌, ◌↔◌, inl, inr, Bool, true, false, [], ◌∷◌, ◌++◌, any, arith, Bool-cases,
}
use ahmed_sila.Text.{Text, txt}
use ahmed_sila.Clients.Types.{ClientDetail}
use ahmed_sila.Clients.Keys
use ahmed_sila.Clients.Keys.{Key}
use ahmed_sila.Clients.Queries.{
  Effect, invalidate, remove, set_data, on_deleted, create_effects, mutation_effects,
  delete_effects,
}

-- The filter's keys are those that begin with it.
abbrev pub ByPrefix : (Key → Key → Bool) → Type 0
ByPrefix fits = (f k : Key) → (fits f k ≡ true) ↔ ((rest : Key) × (k ≡ f ++ rest))

-- Whether an effect drops the answer under the key, or has it asked for again.
abbrev pub refreshes : (Key → Key → Bool) → Key → Effect → Bool
refreshes fits k (invalidate f) = fits f k
refreshes fits k (remove f) = fits f k
refreshes fits k (set_data f c) = false
refreshes fits k on_deleted = false

module _ (fits : Key → Key → Bool) (by_prefix : ByPrefix fits) where
  pub fits-under : (f rest : Key) → fits f (f ++ rest) ≡ true
  fits-under f rest = (by_prefix f (f ++ rest)).1 (rest, refl)

  pub not_fits : (f k : Key) → ((rest : Key) → k ≢ f ++ rest) → fits f k ≡ false
  not_fits f k h = elim (Bool-cases (fits f k)) [
    | inl e ↦ (let (rest, q) = (by_prefix f k).0 e in elim (h rest q) [ ])
    | inr e ↦ e
  ]

  -- Where the keys that a filter key names are those that begin with it: suspending, resuming and issuing
  -- a code make the list and the client's card and journal stale; creating a client makes the list stale,
  -- removing one the list and its card, but neither makes stale an answer to whether an email is taken.
  pub mutation_effects-refreshes :
      (c : ClientDetail) (id email : Text)
      → (any (refreshes fits Keys.list) mutation_effects ≡ true)
        × (any (refreshes fits (Keys.detail id)) mutation_effects ≡ true)
        × (any (refreshes fits (Keys.journal id)) mutation_effects ≡ true)
        × (any (refreshes fits Keys.list) (create_effects c) ≡ true)
        × (any (refreshes fits (Keys.email_taken email)) (create_effects c) ≡ false)
        × (any (refreshes fits (Keys.detail id)) (delete_effects id) ≡ true)
        × (any (refreshes fits Keys.list) (delete_effects id) ≡ true)
        × (any (refreshes fits (Keys.email_taken email)) (delete_effects id) ≡ false)
  mutation_effects-refreshes c id email = (
    rw (fits-under Keys.all_clients (txt "list" ∷ [])) refl,
    rw (fits-under Keys.all_clients (txt "detail" ∷ id ∷ [])) refl,
    rw (fits-under Keys.all_clients (txt "journal" ∷ id ∷ [])) refl,
    rw (fits-under Keys.list []) refl,
    rw (not_fits Keys.list (Keys.email_taken email) (λ rest q. ground (arith, q))) refl,
    rw (fits-under (Keys.detail id) []) refl,
    ground (arith, fits-under Keys.list []),
    rw
        (
          not_fits Keys.list (Keys.email_taken email) (λ rest q. ground (arith, q)),
          not_fits (Keys.detail id) (Keys.email_taken email) (λ rest q. ground (arith, q)),
          not_fits (Keys.tickets id) (Keys.email_taken email) (λ rest q. ground (arith, q)),
          not_fits (Keys.journal id) (Keys.email_taken email) (λ rest q. ground (arith, q)),
        )
        refl,
  )

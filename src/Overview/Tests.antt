-- ===== src/Overview/Tests.antt =====
-- An instance of the law of the panel of trials that end soon.
use ahmed_sila.Base.{
  ℕ, ◌+◌, ◌*◌, ◌≤◌, ◌<◌, ◌≡◌, refl, ◌⊎◌, inl, arith, ◌++◌, Bool, true, [], ◌∷◌, length, Member,
}
use ahmed_sila.Text.{Text, txt}
use ahmed_sila.Text.Decimal.{show}
use ahmed_sila.Format.Plural.{plural}
use ahmed_sila.Clients.Types.{Client}
use ahmed_sila.Clients.Store.Tests.{rodnik}
use ahmed_sila.Overview.Types.{ExpiringTrial}
use ahmed_sila.Base.{false, some}
use ahmed_sila.Base.Int.{pos}
use ahmed_sila.Markup.{link}
use ahmed_sila.Clients.Types.{only, trial, filter_key}
use ahmed_sila.Clients.Store.{list_clients}
use ahmed_sila.Clients.Store.Tests.{lower, one_client}
use ahmed_sila.Overview.Types.{trial_clients}
use ahmed_sila.Overview.Page.{two_panels}
use ahmed_sila.Overview.Page.Laws.{listed, two_panels-rows_of}
use ahmed_sila.Overview.Build.{horizon, expiring, build_overview}
use ahmed_sila.Overview.Build.Laws.{Sorted, IsTrialOf, expiring_lem}
use ahmed_sila.Overview.Screen.{day, format_days_left}
use ahmed_sila.Overview.Screen.Laws.{format_days_left-expiring}

abbrev instant : Text → ℕ
instant s = length s

-- An order in which any two texts compare.
abbrev le : Text → Text → Bool
le a b = true

abbrev row : ExpiringTrial
row = record { client_id = txt "1"; name = txt "родник"; ends_at = txt "2026-08-14" }

expiring-row : expiring instant le [] 5 (rodnik.client ∷ []) ≡ row ∷ []
unfolding expiring
expiring-row = refl

expiring_lem_example :
    (length (expiring instant le [] 5 (rodnik.client ∷ [])) ≤ 5)
    × Sorted le (expiring instant le [] 5 (rodnik.client ∷ []))
    × (instant (txt "2026-08-14") ≤ 5 + horizon)
    × ((c : Client) × Member c (rodnik.client ∷ []) × IsTrialOf row c)
unfolding expiring
expiring_lem_example =
    expiring_lem instant le [] 5 (rodnik.client ∷ []) row (λ a b. inl refl) (inl refl)

format_days_left-expiring_example :
    let ends = instant (txt "2026-08-14") in
    let text = format_days_left instant (txt "2026-08-14") 6 in
    ((ends ≤ 6) × (text ≡ txt "сегодня"))
    ⊎ ((d : ℕ) × (0 < d)
        × (d ≤ 14)
        × (ends ≤ 6 + d * day)
        × (6 + d * day < ends + day)
        × (text ≡ show d ++ (txt " " ++ plural d (txt "день") (txt "дня") (txt "дней"))))
unfolding expiring
format_days_left-expiring_example =
    format_days_left-expiring instant le [] 5 6 (rodnik.client ∷ []) row (λ a b. inl refl)
      (omega arith) (inl refl)

two_panels-rows_of_example :
    let o = build_overview instant le [] 5 one_client in
    let rows = listed lower (list_clients one_client) in
    Member
      (link (txt "/clients?status=" ++ filter_key (only trial)) (txt "Все триалы"))
      (two_panels lower lower show instant 5 false (some o))
    × Member (record { key = trial_clients; value = length rows; delta = some (pos 2) }) o.metrics
    × ((c : Client) × Member c rows × IsTrialOf row c)
unfolding build_overview expiring list_clients
two_panels-rows_of_example =
    two_panels-rows_of lower lower lower show instant le [] 5 one_client row refl (inl refl)

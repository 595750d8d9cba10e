-- ===== src/Overview/Screen/Laws.antt =====
-- What the overview says of the trials that end soon, and when it shows which state.
use ahmed_sila.Base.{
  ℕ, ◌+◌, ◌*◌, ◌≤◌, ◌<◌, ◌≡◌, refl, ◌⊎◌, inl, inr, ◌↔◌, Bool, true, false, some, List, [], ◌∷◌,
  ◌++◌, Member, arith, length,
}
use ahmed_sila.Text.{Text, txt}
use ahmed_sila.Text.Decimal.{show}
use ahmed_sila.Format.Plural.{plural}
use ahmed_sila.Clients.Types.{Client}
use ahmed_sila.Clients.Store.{Store, list_clients}
use ahmed_sila.Overview.Types.{ExpiringTrial, OverviewEvent}
use ahmed_sila.Overview.Build.{horizon, expiring, build_overview}
use ahmed_sila.Overview.Build.Laws.{expiring_lem}
use ahmed_sila.Overview.Screen.{
  day, days_left, days_text, format_days_left, empty_state, view, is_empty,
}

days_left-bounds :
    (ends now : ℕ)
    → ((ends ≤ now) × (days_left ends now ≡ 0))
      ⊎ ((now < ends)
          × (0 < days_left ends now)
          × (ends ≤ now + days_left ends now * day)
          × (now + days_left ends now * day < ends + day))
unfolding days_left
days_left-bounds ends now = omega arith

text_at :
    (d : ℕ)
    → 0 < d
    → days_text d ≡ show d ++ (txt " " ++ plural d (txt "день") (txt "дня") (txt "дней"))
text_at d h = ground (arith, h)

no_length : (cs : List Client) → (length cs ≡ 0) ↔ (cs ≡ [])
no_length [] = ground arith
no_length (c ∷ cs) = ground arith

days_text-days :
    (ends now : ℕ)
    → ends ≤ now + horizon
    → ((ends ≤ now) × (days_text (days_left ends now) ≡ txt "сегодня"))
      ⊎ ((d : ℕ) × (0 < d)
          × (d ≤ 14)
          × (ends ≤ now + d * day)
          × (now + d * day < ends + day)
          × (days_text (days_left ends now)
              ≡ show d ++ (txt " " ++ plural d (txt "день") (txt "дня") (txt "дней"))))
days_text-days ends now near = elim (days_left-bounds ends now) [
  | inl (past, e) ↦ inl (past, rw e refl)
  | inr (ahead, positive, reach, tight) ↦ inr (
    days_left ends now,
    positive,
    omega arith,
    reach,
    tight,
    text_at (days_left ends now) positive,
  )
]

-- In the panel of the trials that end soon, drawn no earlier than it was counted, a trial that has ended
-- is said to end today, however long ago that was; any other has from 1 to 14 days left, rounded up.
pub format_days_left-expiring :
    (instant : Text → ℕ) (le : Text → Text → Bool) (events : List OverviewEvent) (now later : ℕ)
    (cs : List Client) (t : ExpiringTrial)
    → ((a b : Text) → (le a b ≡ true) ⊎ (le b a ≡ true))
    → now ≤ later
    → Member t (expiring instant le events now cs)
    → let ends = instant t.ends_at in
      let text = format_days_left instant t.ends_at later in
      ((ends ≤ later) × (text ≡ txt "сегодня"))
      ⊎ ((d : ℕ) × (0 < d)
          × (d ≤ 14)
          × (ends ≤ later + d * day)
          × (later + d * day < ends + day)
          × (text ≡ show d ++ (txt " " ++ plural d (txt "день") (txt "дня") (txt "дней"))))
unfolding format_days_left
format_days_left-expiring instant le events now later cs t total after m =
    let (_, _, near, _) = expiring_lem instant le events now cs t total m in
    days_text-days (instant t.ends_at) later (omega arith)

-- Drawn from an overview that is counted from the store in memory, the page invites to create a first
-- client exactly when the store has none.
pub view-build_overview :
    (date date_time : Text → Text) (instant : Text → ℕ) (le : Text → Text → Bool)
    (events : List OverviewEvent) (now later : ℕ) (s : Store)
    → (view date date_time instant later false false (some (build_overview instant le events now s))
        ≡ empty_state)
      ↔ (list_clients s ≡ [])
unfolding view is_empty build_overview
view-build_overview date date_time instant le events now later s =
    ground (arith, no_length (list_clients s))

-- ===== src/Overview/Page/Laws.antt =====
-- The overview and the list of clients to which its link leads.
use ahmed_sila.Base.{
  ℕ, ◌≡◌, refl, ap, sym, ◌∙◌, inl, inr, Bool, false, some, List, [], ◌++◌, length, Member,
}
use ahmed_sila.Base.Int.{pos}
use ahmed_sila.Text.{Text, txt, text_eq, trim}
use ahmed_sila.Markup.{link}
use ahmed_sila.Clients.Types.{Client, only, trial, filter_key}
use ahmed_sila.Clients.Store.{Store, list_clients}
use ahmed_sila.Clients.Queries.{filter_clients}
use ahmed_sila.Clients.Queries.Laws.{matches-blank, Member-filter_clients_iff}
use ahmed_sila.Clients.Screen.{filter_of, is_filter, rows_of}
use ahmed_sila.Clients.Screen.Page.{start}
use ahmed_sila.Overview.Types.{trial_clients, ExpiringTrial, OverviewEvent}
use ahmed_sila.Overview.Build.{count, expiring, build_overview}
use ahmed_sila.Overview.Build.Laws.{IsTrialOf, Member-expiring, Member-trials}
use ahmed_sila.Overview.Page.{two_panels}

-- The page of the list at its `status` parameter `trial`.
abbrev pub listed : (Text → Text) → List Client → List Client
unfolding rows_of
listed lower cs = rows_of lower (start (some (filter_key (only trial)))).list cs

listed-filter :
    (lower : Text → Text) (cs : List Client)
    → listed lower cs ≡ filter_clients lower cs (only trial) []
unfolding rows_of filter_of is_filter text_eq
listed-filter lower cs = refl

trim-empty : trim [] ≡ []
unfolding trim
trim-empty = refl

length-listed :
    (lower : Text → Text) (cs : List Client)
    → lower [] ≡ []
    → length (listed lower cs) ≡ count trial cs
unfolding count
length-listed lower cs l =
    ap length
      (listed-filter lower cs ∙ matches-blank lower (only trial) cs [] (ap lower trim-empty ∙ l))

Member-listed :
    (lower : Text → Text) (cs : List Client) (c : Client)
    → lower [] ≡ []
    → Member c cs
    → c.status ≡ trial
    → Member c (listed lower cs)
Member-listed lower cs c l m e = rw (listed-filter lower cs) (
    (Member-filter_clients_iff lower cs (only trial) [] c).1
      (m, inr (sym (ap only e)), inl (ap lower trim-empty ∙ l)))

-- The overview that is counted from a store of clients, as it is drawn: its panel has the link that opens the list of clients
-- at the status of the trial, which has as many rows as the overview's number of clients on trial says
-- and, for each trial in the panel, the row of its client. (The lower case of the empty text is taken to
-- be empty.)
pub two_panels-rows_of :
    (lower : Text → Text) (date date_time : Text → Text) (number : ℕ → Text) (instant : Text → ℕ)
    (le : Text → Text → Bool) (events : List OverviewEvent) (now : ℕ) (s : Store)
    (t : ExpiringTrial)
    → lower [] ≡ []
    → Member t (build_overview instant le events now s).expiring_trials
    → let o = build_overview instant le events now s in
      let rows = listed lower (list_clients s) in
      Member
        (link (txt "/clients?status=" ++ filter_key (only trial)) (txt "Все триалы"))
        (two_panels date date_time number instant now false (some o))
      × Member (record { key = trial_clients; value = length rows; delta = some (pos 2) }) o.metrics
      × ((c : Client) × Member c rows × IsTrialOf t c)
unfolding build_overview
two_panels-rows_of lower date date_time number instant le events now s t l m =
    let cs = list_clients s in
    let near : Member t (expiring instant le events now cs) = m in
    let (c, k, q) = Member-trials t cs (Member-expiring instant le events now cs t near).0 in
    (
      inr (inr (inl refl)),
      inr (
          inl (
            ap (λ n. record { key = trial_clients; value = n; delta = some (pos 2) })
              (length-listed lower cs l))),
      (c, Member-listed lower cs c l k q.0, q),
    )

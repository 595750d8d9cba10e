-- ===== src/Session/Laws.antt =====
-- What the session store promises to those who read it.
use ahmed_sila.Base.{
  ℕ, ◌≡◌, refl, ◌≢◌, Bool, true, false, none, is_some, sym, ◌⊎◌, inl, inr, not, filter, Bool-cases,
  Member-filter, List, [], ◌∷◌, ◌++◌, map, Member, arith, any, ◌==◌,
}
use mathlib.Core.List.{append_assoc, reverse, reverse-cons}
use ahmed_sila.Text.{Text}
use ahmed_sila.Session.{
  AuthUser, authenticated, AuthState, Store, init, call_each, notify, set_session, clear_session,
  update_access_token, subscribe_auth, unsubscribe_auth,
}

-- A signed-in session has a user and a token, and any other has no user.
pub record IsConsistent (s : AuthState) : Type 0 where
  pub signed_in :
      s.status ≡ authenticated → (is_some s.user ≡ true) × (is_some s.access_token ≡ true)
  pub signed_out : s.status ≢ authenticated → s.user ≡ none

pub IsConsistent-init : IsConsistent init.state
IsConsistent-init = record { signed_in = λ e. cc; signed_out = λ _. refl }

pub set_session-IsConsistent :
    (t : Text) (u : AuthUser) (s : Store) → IsConsistent (set_session t u s).state
unfolding set_session notify
set_session-IsConsistent t u s = record {
  signed_in = λ _. (refl, refl);
  signed_out = λ h. absurd (h refl);
}

pub clear_session-IsConsistent : (s : Store) → IsConsistent (clear_session s).state
unfolding clear_session notify
clear_session-IsConsistent s = record { signed_in = λ e. cc; signed_out = λ _. refl }

pub update_access_token-IsConsistent :
    (t : Text) (s : Store) → IsConsistent s.state → IsConsistent (update_access_token t s).state
unfolding update_access_token notify
update_access_token-IsConsistent t s v = record {
  signed_in = λ e. ((v.signed_in e).0, refl);
  signed_out = λ h. v.signed_out h;
}

call_each-eq :
    (ls : List ℕ) (st : AuthState) (log : List (ℕ × AuthState))
    → call_each ls st log ≡ reverse (map (λ l. (l, st)) ls) ++ log
unfolding call_each
call_each-eq [] st log = refl
call_each-eq (k ∷ ls) st log =
    rw (call_each-eq ls st ((k, st) ∷ log))
      (simp (reverse-cons {A = ℕ × AuthState} (k, st) (map (λ l. (l, st)) ls), append_assoc) refl)

-- The calls that a change of the session to `st` adds to the trace: one for each listener, in the
-- order of subscription, each seeing `st`.
abbrev pub Calls : Store → Store → Type 0
Calls s t = t.notified ≡ reverse (map (λ l. (l, t.state)) s.listeners) ++ s.notified

-- Signing in, signing out and a new token each call every listener exactly once, in the order of
-- subscription and with the new state already in place, and leave the listeners as they were.
pub notify_each :
    (t : Text) (u : AuthUser) (s : Store)
    → (Calls s (set_session t u s) × ((set_session t u s).listeners ≡ s.listeners))
      × (Calls s (clear_session s) × ((clear_session s).listeners ≡ s.listeners))
      × (Calls s (update_access_token t s) × ((update_access_token t s).listeners ≡ s.listeners))
unfolding set_session clear_session update_access_token notify
notify_each t u s = (
  (call_each-eq s.listeners _ s.notified, refl),
  (call_each-eq s.listeners _ s.notified, refl),
  (call_each-eq s.listeners _ s.notified, refl),
)

abbrev pub Distinct : List ℕ → Type 0
Distinct [] = Unit
Distinct (l ∷ ls) = (¬ (Member l ls)) × Distinct ls

any-eq-false : (l : ℕ) (ls : List ℕ) → any (λ k. k == l) ls ≡ false → ¬ (Member l ls)
any-eq-false l [] e m = elim m [ ]
any-eq-false l (k ∷ ls) e m = ground (arith, any-eq-false l ls)

Member-snoc : (a l : ℕ) (ls : List ℕ) → Member a (ls ++ l ∷ []) → Member a ls ⊎ (a ≡ l)
Member-snoc a l [] m = ground arith
Member-snoc a l (k ∷ ls) m = ground (arith, Member-snoc a l ls)

Distinct-snoc : (l : ℕ) (ls : List ℕ) → Distinct ls → ¬ (Member l ls) → Distinct (ls ++ l ∷ [])
Distinct-snoc l [] d h = (λ m. m, tt)
Distinct-snoc l (k ∷ ls) d h = (
  (λ m. elim (Member-snoc k l ls m) [ inl old ↦ d.0 old | inr e ↦ h (inl (sym e)) ]),
  Distinct-snoc l ls d.1 (λ m. h (inr m)),
)

Distinct-filter : (p : ℕ → Bool) (ls : List ℕ) → Distinct ls → Distinct (filter p ls)
Distinct-filter p [] d = tt
Distinct-filter p (l ∷ ls) d = elim (Bool-cases (p l)) [
  | inl e ↦ rw e ((λ m. d.0 (Member-filter p l ls m).0), Distinct-filter p ls d.1)
  | inr e ↦ rw e (Distinct-filter p ls d.1)
]

-- Listeners stay distinct, so none is called twice for one change, and one that has unsubscribed is
-- no longer among them.
pub subscribe_auth-Distinct :
    (l : ℕ) (s : Store)
    → Distinct s.listeners
    → Distinct (subscribe_auth l s).listeners
      × Distinct (unsubscribe_auth l s).listeners
      × (¬ (Member l (unsubscribe_auth l s).listeners))
unfolding subscribe_auth unsubscribe_auth
subscribe_auth-Distinct l s d = (
  elim (Bool-cases (any (λ k. k == l) s.listeners)) [
    | inl e ↦ rw e d
    | inr e ↦ rw e (Distinct-snoc l s.listeners d (any-eq-false l s.listeners e))
  ],
  Distinct-filter _ s.listeners d,
  λ m. let h = (Member-filter (λ k. not (k == l)) l s.listeners m).1 in ground arith,
)

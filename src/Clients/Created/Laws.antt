-- ===== src/Clients/Created/Laws.antt =====
-- From the form to the message: what can be sent to the owner of a client that the form has created.
use ahmed_sila.Base.{
  ℕ, ◌≤◌, ◌≡◌, refl, some, [], ◌∷◌, ◌++◌, length, All, true, Bool-cases, inl, inr,
}
use mathlib.Core.Path.{subst}
use ahmed_sila.Text.{Text, txt, only_digits, is_digit}
use ahmed_sila.Clients.Types.{NewClient}
use ahmed_sila.Clients.Store.{Store, create}
use ahmed_sila.Clients.Form.{Form, EmailCheck, on_submit}
use ahmed_sila.Clients.Form.Laws.{on_submit-input_of_iff}
use ahmed_sila.Clients.Created.{on_send_to_whats_app}

only_digits-All : (s : Text) → All (λ c. is_digit c ≡ true) (only_digits s)
only_digits-All [] = tt
only_digits-All (c ∷ s) = elim (Bool-cases (is_digit c)) [
  | inl e ↦ rw e (e, only_digits-All s)
  | inr e ↦ rw e (only_digits-All s)
]

sent-phone :
    (lower : Text → Text) (f : Form) (q : EmailCheck) (i : NewClient)
    → (on_submit lower f q).1 ≡ some i
    → 11 ≤ length (only_digits i.phone)
sent-phone lower f q i h =
    let ((_, _, _, digits, _, _, _), _, same) = (on_submit-input_of_iff lower f q i).0 h in
    subst (λ (j : NewClient). 11 ≤ length (only_digits j.phone)) same digits

-- What the form sends and the store in memory creates can be passed on: the address that the modal opens
-- has a number of at least eleven digits, nothing else in it, and a text after it.
pub on_submit-on_send_to_whats_app :
    (lower date encode : Text → Text) (iso : ℕ → Text) (now : ℕ) (draw : ℕ → ℕ) (f : Form)
    (q : EmailCheck) (i : NewClient) (s : Store)
    → (on_submit lower f q).1 ≡ some i
    → (digits text : Text) × (on_send_to_whats_app date encode (create iso now draw i s).0
        ≡ some (txt "https://wa.me/" ++ (digits ++ (txt "?text=" ++ encode text))))
      × (11 ≤ length digits)
      × All (λ c. is_digit c ≡ true) digits
unfolding on_send_to_whats_app create
on_submit-on_send_to_whats_app lower date encode iso now draw f q i s h =
    (only_digits i.phone, _, refl, sent-phone lower f q i h, only_digits-All i.phone)

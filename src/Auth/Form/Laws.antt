-- ===== src/Auth/Form/Laws.antt =====
-- How an attempt to sign in ends.
use ahmed_sila.Base.{◌≡◌, ◌⊎◌, inl, inr, false, some, none, [], ap}
use ahmed_sila.Text.{txt, trim}
use ahmed_sila.Http.{Network, World, Failure}
use ahmed_sila.Auth.{children, require_auth}
use ahmed_sila.Auth.Laws.{sign_in_cases}
use ahmed_sila.Auth.Form.{Form, message_of, submitted, settled, on_submit}

-- An attempt to sign in always ends with the button enabled: either without an error, on the way to
-- the overview, where the guard shows the pages, or with the failure's message, the form's texts as
-- they were, no navigation and the session as it was.
pub on_submit_cases :
    (n : Network) (f : Form) (w : World n)
    → let out = on_submit n f w in
      ((out.0.0 ≡ record f { error = []; pending = false })
        × (out.0.1 ≡ some (txt "/overview"))
        × (require_auth out.1.store.state ≡ children))
      ⊎ ((e : Failure) × (out.0.0 ≡ record f { error = message_of e; pending = false })
          × (out.0.1 ≡ none)
          × (out.1.store ≡ w.store))
unfolding on_submit settled
on_submit_cases n f w = elim (sign_in_cases n (trim f.email) f.password w) [
  | inl (b, e, _, c) ↦
      inl (ap (λ r. (settled r (submitted f)).0) e, ap (λ r. (settled r (submitted f)).1) e, c)
  | inr (x, e, c) ↦
      inr (x, ap (λ r. (settled r (submitted f)).0) e, ap (λ r. (settled r (submitted f)).1) e, c)
]

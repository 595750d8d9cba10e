-- ===== src/Auth/Form.antt =====
-- web/src/features/auth/LoginPage.tsx: the sign-in form.
pub mod Laws
pub mod Page
use ahmed_sila.Base.{◌≡◌, refl, ◌⊎◌, inl, inr, Bool, true, false, Option, none, some, List, []}
use ahmed_sila.Text.{Text, txt, trim}
use ahmed_sila.Session.{authenticated}
use ahmed_sila.Http.{Network, World, Outcome, ok, thrown, Failure, api, Exec}
use ahmed_sila.Auth.{sign_in}

pub record Form : Type 0 where
  pub email : Text
  pub password : Text
  pub error : Text
  pub pending : Bool

-- `navigate(to, { replace: true })`, if it is called.
abbrev pub Navigation : Type 0
Navigation = Option Text

-- What `onSubmit` does at once, before the answer.
abbrev pub submitted : Form → Form
submitted f = record f { error = []; pending = true }

abbrev pub no_connection : Text
no_connection = txt "Не удалось войти. Проверьте соединение."

-- The text of `ApiError` is the body's message.
abbrev pub message_of : Failure → Text
message_of (api e) = e.body.message
message_of _ = no_connection

-- `then`, `catch` and `finally`
unfoldable pub settled : Outcome (Unit {0}) → Form → Form × Navigation
settled (ok u) f = (record f { pending = false }, some (txt "/overview"))
settled (thrown e) f = (record f { error = message_of e; pending = false }, none)

module _ (n : Network) where
  unfoldable pub on_submit : Form → World n → (Form × Navigation) × World n
  unfolding settled
  on_submit f w =
      let (r, w') = sign_in n (trim f.email) f.password w in (settled r (submitted f), w')

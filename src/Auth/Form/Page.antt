-- ===== src/Auth/Form/Page.antt =====
-- web/src/features/auth/LoginPage.tsx: the form as it is drawn, and what its handlers do.
use ahmed_sila.Base.{Bool, true, Option, none, some, List, [], ◌∷◌, ◌++◌, if◌then◌else◌}
use ahmed_sila.Text.{Text, txt}
use ahmed_sila.Http.{Network, World}
use ahmed_sila.Markup.{span, button, field, Markup}
use ahmed_sila.Auth.Form.{Form, Navigation, on_submit}

pub data Event : Type 0 where
  typed_email typed_password : Text → Event
  submit : Event

-- What the form starts with.
abbrev pub start : Form
start = record { email = []; password = []; error = []; pending = ahmed_sila.Base.false }

abbrev pub error_line : Text → Markup Event
error_line [] = []
error_line (c ∷ t) = span (c ∷ t) ∷ []

unfoldable pub page : Form → Markup Event
page f =
    span (txt "Суперадминка")
      ∷ span (txt "Email")
      ∷ field f.email typed_email
      ∷ span (txt "Пароль")
      ∷ field f.password typed_password
      ∷ error_line f.error
    ++ (button (if f.pending then txt "Входим…" else txt "Войти") f.pending submit ∷ [])

module _ (n : Network) where
  -- A press of the button runs until its answer has come.
  unfoldable pub act : Event → Form → World n → (Form × Navigation) × World n
  unfolding on_submit
  act (typed_email t) f w = ((record f { email = t }, none), w)
  act (typed_password t) f w = ((record f { password = t }, none), w)
  act submit f w = on_submit n f w

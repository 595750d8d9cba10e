-- ===== src/Team/Screen.antt =====
-- web/src/features/team/TeamPage.tsx: the invitation's form, the removal's confirmation and what an
-- opened member's panel allows. `lower` is `toLowerCase`.
pub mod Laws
use ahmed_sila.Base.{
  ℕ, Bool, true, false, ◌&&◌, ◌||◌, not, Option, none, some, List, [], ◌∷◌, find, filter, length,
  if◌then◌else◌,
}
use ahmed_sila.Text.{Text, txt, text_eq, trim}
use ahmed_sila.Text.Email.{is_email}
use ahmed_sila.Http.{Outcome, ok, thrown, Failure}
use ahmed_sila.Team.Types.{TeamRole, support, is_owner, TeamMember}

abbrev pub bad_email : Text
bad_email = txt "Проверьте адрес: похоже, в нём опечатка"

-- The page's state: the opened member, the form of an invitation, and the invitation that was made.
pub record Form : Type 0 where
  pub email : Text
  pub role : TeamRole
  pub error : Text

pub record Page : Type 0 where
  pub selected_id : Option Text
  pub invite_form : Option Form
  pub sent : Option (Text × Text)

abbrev pub empty_form : Form
empty_form = record { email = []; role = support; error = [] }

abbrev pub open_invite : Page → Page
open_invite p = record p { invite_form = some empty_form }

abbrev pub close_invite : Page → Page
close_invite p = record p { invite_form = none }

-- The email field's handler
abbrev pub type_email : Text → Form → Form
type_email v f = record f { email = v; error = [] }

-- `onSubmit`: the form, and what goes to `invite.mutate`
unfoldable pub on_submit : (Text → Text) → Form → Form × Option (Text × TeamRole)
on_submit lower f =
    let value = lower (trim f.email) in
    if not (is_email value)
    then (record f { error = bad_email }, none)
    else (f, some (value, f.role))

-- The callbacks of `invite.mutate`, on the page with the form `f`, for the email that was sent;
-- `message` gives a failure's text.
unfoldable pub on_answer : (Failure → Text) → Form → Text → Outcome Text → Page → Page
on_answer message f value (ok token) p = record p { invite_form = none; sent = some (value, token) }
on_answer message f value (thrown e) p = record p {
  invite_form = some (record f { error = message e });
}

-- `canRevoke`
unfoldable pub can_revoke : Text → TeamMember → Bool
can_revoke confirm m = text_eq (trim confirm) m.email

-- The button of `RevokeModal`: whether the press removes the member.
unfoldable pub revokes : Text → Bool → TeamMember → Bool
unfolding can_revoke
revokes confirm is_pending m =
    not (not (can_revoke confirm m) || is_pending) && can_revoke confirm m

-- `locked`: the owner's role cannot be changed, nor the access revoked.
abbrev pub locked : TeamMember → Bool
locked m = is_owner m.role

-- `selected`
unfoldable pub selected : Page → List TeamMember → Option TeamMember
selected p ms = elim p.selected_id [
  | none ↦ none
  | some id ↦ find (λ (m : TeamMember). text_eq m.id id) ms
]

-- `tfaOff`
unfoldable pub tfa_off : List TeamMember → ℕ
tfa_off ms = length (filter (λ (m : TeamMember). not m.two_factor_enabled) ms)

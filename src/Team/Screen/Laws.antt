-- ===== src/Team/Screen/Laws.antt =====
-- What the forms of the section of the staff send.
use ahmed_sila.Base.{◌≡◌, ◌↔◌, ◌⊎◌, Bool, true, false, none, some, arith}
use ahmed_sila.Text.{Text, trim}
use ahmed_sila.Text.Laws.{text_eq_iff}
use ahmed_sila.Text.Email.{is_email, Email, is_email_iff}
use ahmed_sila.Team.Types.{TeamMember}
use ahmed_sila.Team.Screen.{Form, on_submit, bad_email, revokes, can_revoke}

-- The invitation's button sends the trimmed email in lower case, with the chosen role, exactly when that
-- email has the shape of one; otherwise nothing is sent, and the form says what is wrong.
pub on_submit-Email :
    (lower : Text → Text) (f : Form)
    → (Email (lower (trim f.email))
        × (on_submit lower f ≡ (f, some (lower (trim f.email), f.role))))
      ⊎ ((is_email (lower (trim f.email)) ≡ false)
          × (on_submit lower f ≡ (record f { error = bad_email }, none)))
unfolding on_submit
on_submit-Email lower f = ground (arith, is_email_iff (lower (trim f.email)))

-- The removal's button removes the member exactly when the text that confirms it is, but for white
-- space around it, the member's email, and no removal is under way.
pub revokes_iff :
    (confirm : Text) (is_pending : Bool) (m : TeamMember)
    → (revokes confirm is_pending m ≡ true) ↔ ((trim confirm ≡ m.email) × (is_pending ≡ false))
unfolding revokes can_revoke
revokes_iff confirm is_pending m = ground (arith, text_eq_iff (trim confirm) m.email)

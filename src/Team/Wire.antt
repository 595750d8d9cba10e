-- ===== src/Team/Wire.antt =====
-- The response types of web/src/features/team/api.ts.
use ahmed_sila.Base.{Bool, Option}
use ahmed_sila.Text.{Text}
use ahmed_sila.Team.Types.{TeamRole}

pub record TeamMemberWire : Type 0 where
  pub id : Text
  pub name : Text
  pub email : Text
  pub role : TeamRole
  pub two_factor_enabled : Bool
  pub last_login_at : Option Text
  pub is_me : Bool

-- `{ activation_token: string }`
pub record InvitationWire : Type 0 where
  pub activation_token : Text

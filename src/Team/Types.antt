-- ===== src/Team/Types.antt =====
-- web/src/features/team/types.ts
use ahmed_sila.Base.{Bool, true, false, Option, List, [], ◌∷◌}
use ahmed_sila.Text.{Text, txt}

pub data TeamRole : Type 0 where
  owner admin support viewer : TeamRole

abbrev pub role_label : TeamRole → Text
role_label owner = txt "Владелец"
role_label admin = txt "Админ"
role_label support = txt "Поддержка"
role_label viewer = txt "Наблюдатель"

abbrev pub is_owner : TeamRole → Bool
is_owner owner = true
is_owner _ = false

abbrev pub invitable_roles : List TeamRole
invitable_roles = admin ∷ support ∷ viewer ∷ []

pub record TeamMember : Type 0 where
  pub id : Text
  pub name : Text
  pub email : Text
  pub role : TeamRole
  pub two_factor_enabled : Bool
  pub last_login_at : Option Text
  pub is_me : Bool

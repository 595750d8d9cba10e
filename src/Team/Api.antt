-- ===== src/Team/Api.antt =====
-- web/src/features/team/api.ts
use ahmed_sila.Base.{ℕ, Bool, Option, List, [], ◌∷◌, ◌++◌, map, if◌then◌else◌}
use ahmed_sila.Text.{Text, txt}
use ahmed_sila.Http.{Network, Outcome, ok, str}
use ahmed_sila.Http.Payloads.{members, invitation, member, nothing}
use ahmed_sila.Http.Calls.{
  getting, posting_json, deleting, or_error, On, remote, remote_void, local,
}
use ahmed_sila.Team.Types.{TeamRole, owner, admin, support, viewer, TeamMember}
use ahmed_sila.Team.Wire.{TeamMemberWire, InvitationWire}
use ahmed_sila.Team.Store.{Staff, invite, update_role, revoke}

-- The texts of the role type's members.
abbrev pub role_key : TeamRole → Text
role_key owner = txt "owner"
role_key admin = txt "admin"
role_key support = txt "support"
role_key viewer = txt "viewer"

abbrev pub from_wire : TeamMemberWire → TeamMember
from_wire m = record {
  id = m.id;
  name = m.name;
  email = m.email;
  role = m.role;
  two_factor_enabled = m.two_factor_enabled;
  last_login_at = m.last_login_at;
  is_me = m.is_me;
}

abbrev known : Text → Option TeamMember × Staff → Outcome TeamMember × Staff
known id (r, ms) = (or_error (txt "Сотрудник " ++ (id ++ txt " не найден")) r, ms)

module _ (n : Network) (use_mock : Bool) where
  abbrev pub Call : Type 0 → Type 0
  Call A = On n Staff A

  unfoldable pub fetch_team : Call (List TeamMember)
  fetch_team =
      if use_mock
      then local n Staff (λ ms. (ok ms, ms))
      else remote n Staff members (txt "/team") getting (map from_wire)

  unfoldable pub invite_team_member : (Text → Text) → (ℕ → ℕ) → Text → TeamRole → Call Text
  invite_team_member lower draw email role =
      if use_mock
      then local n Staff (λ ms. (invite lower draw email role ms, ms))
      else remote n Staff invitation (txt "/team/invite")
          (posting_json ((txt "email", str email) ∷ (txt "role", str (role_key role)) ∷ []))
          (λ (i : InvitationWire). i.activation_token)

  unfoldable pub update_team_member_role : Text → TeamRole → Call TeamMember
  update_team_member_role id role =
      if use_mock
      then local n Staff (λ ms. known id (update_role id role ms))
      else remote n Staff member (txt "/team/" ++ (id ++ txt "/role"))
          (posting_json ((txt "role", str (role_key role)) ∷ [])) from_wire

  unfoldable pub revoke_team_member : Text → Call Unit
  revoke_team_member id =
      if use_mock
      then local n Staff (λ ms. (ok tt, revoke id ms))
      else remote_void n Staff nothing (txt "/team/" ++ id) deleting

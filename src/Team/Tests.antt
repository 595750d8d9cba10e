-- ===== src/Team/Tests.antt =====
-- Instances of the laws of the staff.
use ahmed_sila.Base.{ℕ, ◌≡◌, refl, List, true, false, none, [], ◌∷◌, find, length, if◌then◌else◌}
use ahmed_sila.Text.{Text, txt, text_eq, trim}
use ahmed_sila.Text.Decimal.{show}
use ahmed_sila.Team.Types.{owner, admin, support, TeamMember}
use ahmed_sila.Team.Store.{Staff, has_id, update_role, revoke, assign}
use ahmed_sila.Team.Screen.{selected, tfa_off, can_revoke, revokes}
use ahmed_sila.Team.Listing.{view}
use ahmed_sila.Http.{Failure}
use ahmed_sila.Markup.{press, enter, choose, gives}
use ahmed_sila.Format.Plural.{plural, select}
use ahmed_sila.Team.Store.Owners.{IsStaff, Keeps}
use ahmed_sila.Team.Page.{page, member_detail, revoke_modal}
use ahmed_sila.Team.Page.Session.{Happening, gesture, answers, act, redraw, happen, visit, start}
use ahmed_sila.Team.Page.Session.Laws.{visit-Keeps}
use ahmed_sila.Team.Store.Laws.{changed, answered, revoked, update_role_lem, revoke_lem}

abbrev aidar : TeamMember
aidar = record {
  id = txt "1";
  name = txt "Айдар Керимов";
  email = txt "a.kerimov@example.kz";
  role = owner;
  two_factor_enabled = true;
  last_login_at = none;
  is_me = true;
}

abbrev saule : TeamMember
saule = record aidar { id = txt "3"; name = txt "Сауле"; role = support; is_me = false }

abbrev staff : Staff
staff = aidar ∷ saule ∷ []

update_role_lem_example :
    let r = update_role (txt "3") admin staff in
    (r.0 ≡ answered admin (find (has_id (txt "3")) staff))
    × (find (has_id (txt "3")) r.1 ≡ (
        if text_eq (txt "3") (txt "3")
        then changed admin (find (has_id (txt "3")) staff)
        else find (has_id (txt "3")) staff))
    × (length r.1 ≡ 2)
update_role_lem_example = update_role_lem (txt "3") (txt "3") admin staff

revoke_lem_example : find (has_id (txt "1")) (revoke (txt "1") staff) ≡ (
    if text_eq (txt "1") (txt "1")
    then revoked (find (has_id (txt "1")) staff)
    else find (has_id (txt "1")) staff)
revoke_lem_example = revoke_lem (txt "1") (txt "1") staff

-- A member of the two is opened and made an admin; then the removal is opened, the email typed and the
-- button pressed.
abbrev happenings : List Happening
happenings =
    answers
    ∷ gesture (press 14)
    ∷ gesture (choose 24 (txt "Админ"))
    ∷ answers
    ∷ gesture (press 27)
    ∷ gesture (enter 34 (txt " a.kerimov@example.kz "))
    ∷ gesture (press 35)
    ∷ []

staff-IsStaff : IsStaff staff
unfolding text_eq
staff-IsStaff = (refl, (refl, tt))

abbrev draw : ℕ → ℕ
draw k = 0

abbrev as_is : Text → Text
as_is t = t

abbrev message : Failure → Text
message f = txt "Не вышло"

visit-Keeps_example : Keeps staff (visit as_is draw message as_is happenings (start staff)).staff
visit-Keeps_example = visit-Keeps as_is draw message as_is staff happenings staff-IsStaff

-- The second member is gone at the end, and the owner is there.
visited : (visit as_is draw message as_is happenings (start staff)).staff ≡ aidar ∷ []
unfolding happen act redraw gives page member_detail revoke_modal view selected tfa_off update_role
    assign revoke revokes can_revoke text_eq trim show plural select
visited = refl

-- ===== src/Team/Page/Session/Laws.antt =====
-- The owner of the panel cannot be lost on the page of the team.
use mathlib.Core.Path.{subst}
use ahmed_sila.Base.{
  ℕ, ◌≡◌, refl, sym, ◌∙◌, Bool, not, true, false, Option, none, some, List, [], ◌∷◌, ◌++◌, map, All,
  arith,
}
use ahmed_sila.Text.{Text, txt}
use ahmed_sila.Http.{Failure}
use ahmed_sila.Markup.{Node, Markup, gives, join, span, button}
use ahmed_sila.Markup.Laws.{
  Offers, Allowed, gives-Allowed, All-append, All-join, All-when, All-map, button-Offers,
}
use ahmed_sila.Team.Types.{TeamRole, is_owner, invitable_roles, TeamMember}
use ahmed_sila.Team.Store.{Staff}
use ahmed_sila.Team.Store.Owners.{IsStaff, Keeps, update_role-Keeps, revoke-Keeps}
use ahmed_sila.Team.Screen.{Form, locked, revokes}
use ahmed_sila.Team.Listing.{row, role_hint, view, members_of}
use ahmed_sila.Team.Listing
use ahmed_sila.Team.Page.{
  Event, change_role, submit, close_invite, error_line, remove, open_revoke, typed_confirm, Panel,
  Page, page, sent_notice, member_row, team_table, revoke_modal, role_choice, member_detail,
  detail_of, role_chip, invite_modal, body,
}
use ahmed_sila.Team.Page.Session.{
  Visit, shown_member, redraw, send_role, send_removal, send_invitation, act, Happening, gesture,
  answers, fails, copy_ends, on_event, happen, visit, start,
}

-- The page offers no one the owner's role.
abbrev Plain : Event → Type 0
Plain (change_role r) = is_owner r ≡ false
Plain _ = Unit {0}

notice-Offers :
    (copied : Bool) (sent : Option (Text × Text)) → All (Offers Plain) (sent_notice copied sent)
notice-Offers copied none = tt
notice-Offers copied (some (email, token)) = ground arith

cells-Offers : (cells : List Text) → All (Offers Plain) (map (λ s. span s) cells)
cells-Offers cells = All-map (Offers Plain) (λ s. span s) cells (λ s. tt)

modal-Offers : (m : TeamMember) (confirm : Text) → All (Offers Plain) (revoke_modal m confirm)
unfolding revoke_modal
modal-Offers m confirm =
    let removal =
      button-Offers Plain (txt "Отозвать доступ") (not (revokes confirm false m)) remove
        (λ h. tt) in
    let typing : (t : Text) → Plain (typed_confirm t) = λ t. tt in ground (arith, removal, typing)

roles-Offers :
    (b : Bool) (m : TeamMember) → Offers Plain (Node.select b (map (role_choice m) invitable_roles))
roles-Offers true m = tt
roles-Offers false m = (refl, (refl, (refl, tt)))

detail-Offers : (o : Option TeamMember) (p : Panel) → All (Offers Plain) (detail_of o p)
unfolding member_detail
detail-Offers none p = tt
detail-Offers (some m) p =
    let roles = roles-Offers (locked m) m in
    let confirmation =
      All-when Plain p.revoke_open (revoke_modal m p.confirm) (modal-Offers m p.confirm) in
    let opening = button-Offers Plain (txt "Отозвать доступ") (locked m) open_revoke (λ h. tt) in
    (tt, (tt, (tt, (tt, (roles, (tt, (tt, (opening, (tt, confirmation)))))))))

error-Offers : (t : Text) → All (Offers Plain) (error_line t)
error-Offers [] = tt
error-Offers (c ∷ t) = (tt, tt)

invite-Offers : (o : Option Form) → All (Offers Plain) (invite_modal o)
invite-Offers none = tt
invite-Offers (some f) =
    let choices : Markup Event =
      span (txt "Роль") ∷ join (map (role_chip f) invitable_roles)
      ++ span (role_hint f.role) ∷ [] in
    let footer : Markup Event =
      button (txt "Отправить приглашение") false submit
      ∷ button (txt "Отмена") false close_invite
      ∷ [] in
    let chosen : All (Offers Plain) choices = ground arith in
    let inside = All-append Plain (error_line f.error) choices (error-Offers f.error) chosen in
    (
      tt,
      (
        tt,
        (
          tt,
          (
            (λ t. tt),
            All-append Plain (error_line f.error ++ choices) footer inside (tt, (tt, tt)),
          ),
        ),
      ),
    )

table-Offers :
    (date_time : Text → Text) (o : Option (List TeamMember))
    → All (Offers Plain) (team_table date_time o)
table-Offers date_time none = ground arith
table-Offers date_time (some ms) =
    let all_rows =
      All-join Plain (member_row date_time) ms (λ m. (tt, cells-Offers (row date_time m))) in
    ground (arith, all_rows)

body-Offers :
    (date_time : Text → Text) (v : Listing.View) (p : Panel)
    → All (Offers Plain) (body date_time v p)
body-Offers date_time Listing.error_state p = ground arith
body-Offers date_time (Listing.table ms m) p =
    All-append Plain (team_table date_time ms) (detail_of m p) (table-Offers date_time ms)
      (detail-Offers m p)

page-Offers : (date_time : Text → Text) (p : Page) → All (Offers Plain) (page date_time p)
unfolding page
page-Offers date_time p =
    let seen = view p.is_error p.is_pending p.members p.screen in
    let below =
      All-append Plain (body date_time seen p.panel) (invite_modal p.screen.invite_form)
        (body-Offers date_time seen p.panel) (invite-Offers p.screen.invite_form) in
    (
      tt,
      (
        tt,
        (
          tt,
          All-append Plain (sent_notice p.link_copied p.screen.sent) _
              (notice-Offers p.link_copied p.screen.sent) below,
        ),
      ),
    )

abbrev Kept : Staff → Visit → Type 0
Kept ms v = Keeps ms v.staff

later : (ms ns : Staff) (v : Visit) → Keeps v.staff ns → Kept ms v → Keeps ms ns
later ms ns v (same, w) (before, w') = (same ∙ before, w)

redraw-staff : (before : Option TeamMember) (v : Visit) → (redraw before v).staff ≡ v.staff
unfolding redraw
redraw-staff before v = ground arith

redraw-Kept :
    (ms : Staff) (before : Option TeamMember) (v : Visit) → Kept ms v → Kept ms (redraw before v)
redraw-Kept ms before v k = subst (Keeps ms) (sym (redraw-staff before v)) k

send_role-Kept :
    (ms : Staff) (o : Option TeamMember) (r : TeamRole) (v : Visit)
    → is_owner r ≡ false
    → Kept ms v
    → Kept ms (send_role o r v)
send_role-Kept ms none r v h k = k
send_role-Kept ms (some m) r v h k = later ms _ v (update_role-Keeps m.id r v.staff k.1 h) k

send_removal-Kept :
    (ms : Staff) (o : Option TeamMember) (v : Visit) → Kept ms v → Kept ms (send_removal o v)
send_removal-Kept ms none v k = k
send_removal-Kept ms (some m) v k = later ms _ v (revoke-Keeps m.id v.staff k.1) k

module _ (lower : Text → Text) (draw : ℕ → ℕ) (message : Failure → Text)
    (date_time : Text → Text) where
  invitation-Kept :
      (ms : Staff) (o : Option Form) (v : Visit)
      → Kept ms v
      → Kept ms (send_invitation lower draw message date_time o v)
  invitation-Kept ms none v k = k
  invitation-Kept ms (some f) v k = k

  act-Kept :
      (ms : Staff) (e : Event) (v : Visit)
      → Plain e
      → Kept ms v
      → Kept ms (act lower draw message date_time e v)
  unfolding act
  act-Kept ms (change_role r) v h k = send_role-Kept ms (shown_member v.shown) r v h k
  act-Kept ms remove v h k = send_removal-Kept ms (shown_member v.shown) v k
  act-Kept ms submit v h k = invitation-Kept ms v.shown.screen.invite_form v k
  act-Kept ms e v h k = k

  on_event-Kept :
      (ms : Staff) (o : Option Event) (v : Visit)
      → Allowed Plain o
      → Kept ms v
      → Kept ms (on_event lower draw message date_time o v)
  on_event-Kept ms none v h k = k
  on_event-Kept ms (some e) v h k =
      redraw-Kept ms (shown_member v.shown) (act lower draw message date_time e v)
        (act-Kept ms e v h k)

  happen-Kept :
      (ms : Staff) (h : Happening) (v : Visit)
      → Kept ms v
      → Kept ms (happen lower draw message date_time h v)
  unfolding happen
  happen-Kept ms (gesture g) v k =
      let drawn = page date_time v.shown in
      on_event-Kept ms (gives g drawn) v
        (gives-Allowed Plain g drawn (page-Offers date_time v.shown)) k
  happen-Kept ms answers v k = redraw-Kept ms (shown_member v.shown) _ k
  happen-Kept ms fails v k = redraw-Kept ms (shown_member v.shown) _ k
  happen-Kept ms copy_ends v k = k

  visits-Kept :
      (ms : Staff) (hs : List Happening) (v : Visit)
      → Kept ms v
      → Kept ms (visit lower draw message date_time hs v)
  visits-Kept ms [] v k = k
  visits-Kept ms (h ∷ hs) v k =
      visits-Kept ms hs (happen lower draw message date_time h v) (happen-Kept ms h v k)

  -- Whatever is done on the page of the team as it is drawn, also where what it shows is out of date, for staff in which no id
  -- stands twice: the owners stay as they are, none is added, demoted or removed, and no id comes to stand
  -- twice.
  pub visit-Keeps :
      (ms : Staff) (hs : List Happening)
      → IsStaff ms
      → Keeps ms (visit lower draw message date_time hs (start ms)).staff
  visit-Keeps ms hs h = visits-Kept ms hs (start ms) (refl, h)

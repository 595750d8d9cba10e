-- ===== src/Team/Page/Session.antt =====
-- A visit of the page of the team (web/src/features/team/TeamPage.tsx) as it is drawn, on the staff in memory
-- (mock.ts), and the answers of the query. A call is over before the next gesture. `lower` is
-- `toLowerCase`, `draw` the draws of a token.
pub mod Laws
use ahmed_sila.Base.{ℕ, Bool, true, false, Option, none, some, List, [], ◌∷◌, if◌then◌else◌}
use ahmed_sila.Text.{Text, text_eq}
use ahmed_sila.Http.{Outcome, ok, thrown, Failure}
use ahmed_sila.Markup.{Gesture, gives}
use ahmed_sila.Team.Types.{TeamRole, TeamMember}
use ahmed_sila.Team.Store.{Staff, invite, update_role, revoke}
use ahmed_sila.Team.Screen.{Form, type_email, on_submit, on_answer, selected}
use ahmed_sila.Team.Screen
use ahmed_sila.Team.Listing.{type_role, members_of}
use ahmed_sila.Team.Listing
use ahmed_sila.Team.Page.{Event, Panel, Page, page}
use ahmed_sila.Team.Page

pub record Visit : Type 0 where
  pub shown : Page
  pub staff : Staff

abbrev pub closed_panel : Panel
closed_panel = record { revoke_open = false; confirm = [] }

-- The opened member, if one is on the page.
abbrev pub shown_member : Page → Option TeamMember
shown_member p = if p.is_error then none else selected p.screen (members_of p.members)

-- `key={selected.id}`: the panel's state is that of one member.
abbrev pub same_member : Option TeamMember → Option TeamMember → Bool
same_member none m = false
same_member (some k) none = false
same_member (some k) (some m) = text_eq k.id m.id

unfoldable pub redraw : Option TeamMember → Visit → Visit
redraw before v =
    if same_member before (shown_member v.shown)
    then v
    else record v { shown = record v.shown { panel = closed_panel } }

abbrev pub on_form : (Form → Form) → Screen.Page → Screen.Page
on_form f s = elim s.invite_form [ none ↦ s | some form ↦ record s { invite_form = some (f form) } ]

abbrev pub with_screen : Screen.Page → Visit → Visit
with_screen s v = record v { shown = record v.shown { screen = s } }

abbrev pub with_panel : Panel → Visit → Visit
with_panel p v = record v { shown = record v.shown { panel = p } }

abbrev pub send_role : Option TeamMember → TeamRole → Visit → Visit
send_role none r v = v
send_role (some m) r v = record v { staff = (update_role m.id r v.staff).1 }

-- `onRevoked` closes the member.
abbrev pub send_removal : Option TeamMember → Visit → Visit
send_removal none v = v
send_removal (some m) v = record {
  staff = revoke m.id v.staff;
  shown = record v.shown { screen = Listing.close_member v.shown.screen };
}

-- A gesture, an answer of the query with the staff in memory, a failed one, and the end of the two
-- seconds after a copied link.
pub data Happening : Type 0 where
  gesture : Gesture → Happening
  answers fails copy_ends : Happening

-- `message` gives a failure's text; `date_time` is `formatDateTime`.
module _ (lower : Text → Text) (draw : ℕ → ℕ) (message : Failure → Text)
    (date_time : Text → Text) where
  abbrev pub answered : Screen.Page → Form × Option (Text × TeamRole) → Staff → Screen.Page
  answered s (form, none) ms = record s { invite_form = some form }
  answered s (form, some (email, role)) ms =
      on_answer message form email (invite lower draw email role ms) s

  abbrev pub send_invitation : Option Form → Visit → Visit
  send_invitation none v = v
  send_invitation (some form) v =
      with_screen (answered v.shown.screen (on_submit lower form) v.staff) v

  unfoldable pub act : Event → Visit → Visit
  act Page.open_invite v = with_screen (Screen.open_invite v.shown.screen) v
  act Page.close_invite v = with_screen (Screen.close_invite v.shown.screen) v
  act (Page.typed_email t) v = with_screen (on_form (type_email t) v.shown.screen) v
  act (Page.choose_role r) v = with_screen (on_form (type_role r) v.shown.screen) v
  act Page.submit v = send_invitation v.shown.screen.invite_form v
  act Page.copy_link v = record v { shown = record v.shown { link_copied = true } }
  act Page.dismiss v = with_screen (Listing.dismiss v.shown.screen) v
  act Page.refetch v = v
  act (Page.select_member id) v = with_screen (Listing.select_member id v.shown.screen) v
  act Page.close_member v = with_screen (Listing.close_member v.shown.screen) v
  act (Page.change_role r) v = send_role (shown_member v.shown) r v
  act Page.open_revoke v = with_panel (record { revoke_open = true; confirm = [] }) v
  act Page.close_revoke v = with_panel closed_panel v
  act (Page.typed_confirm t) v = with_panel (record v.shown.panel { confirm = t }) v
  act Page.remove v = send_removal (shown_member v.shown) v

  abbrev pub on_event : Option Event → Visit → Visit
  on_event none v = v
  on_event (some e) v = redraw (shown_member v.shown) (act e v)

  unfoldable pub happen : Happening → Visit → Visit
  happen (gesture g) v = on_event (gives g (page date_time v.shown)) v
  happen answers v = redraw (shown_member v.shown) (record v {
    shown = record v.shown { is_error = false; is_pending = false; members = some v.staff };
  })
  happen fails v =
      redraw (shown_member v.shown)
        (record v { shown = record v.shown { is_error = true; is_pending = false } })
  happen copy_ends v = record v { shown = record v.shown { link_copied = false } }

  abbrev pub visit : List Happening → Visit → Visit
  visit [] v = v
  visit (h ∷ hs) v = visit hs (happen h v)

-- The page when it is opened.
abbrev pub start : Staff → Visit
start ms = record {
  shown = record {
    screen = record { selected_id = none; invite_form = none; sent = none };
    panel = closed_panel;
    link_copied = false;
    is_error = false;
    is_pending = true;
    members = none;
  };
  staff = ms;
}

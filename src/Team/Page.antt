-- ===== src/Team/Page.antt =====
-- web/src/features/team/TeamPage.tsx: the page of the team as it is drawn, with what its buttons do.
-- `date_time` is `formatDateTime`.
pub mod Session
use ahmed_sila.Base.{
  Bool, true, false, not, Option, none, some, List, [], ◌∷◌, ◌++◌, map, if◌then◌else◌,
}
use ahmed_sila.Text.{Text, txt}
use ahmed_sila.Markup.{
  Choice, Node, heading, span, tone_dot, skeleton, button, row_button, field, select, Markup, join,
  when, filter_chip, error_state, modal,
}
use ahmed_sila.Shell.{Tone, ok}
use ahmed_sila.Team.Types.{TeamRole, owner, role_label, invitable_roles, TeamMember}
use ahmed_sila.Team.Screen.{Form, locked, revokes}
use ahmed_sila.Team.Screen
use ahmed_sila.Team.Listing.{
  role_hint, role_tone, role_eq, subtitle, row, table, view, members_of, detail_hint, revoke_hint,
  link_label,
}
use ahmed_sila.Team.Listing

-- What the handlers of the page do.
pub data Event : Type 0 where
  open_invite close_invite submit copy_link dismiss refetch close_member : Event
  typed_email select_member typed_confirm : Text → Event
  choose_role change_role : TeamRole → Event
  open_revoke close_revoke remove : Event

-- `revokeOpen` and `confirmEmail`
pub record Panel : Type 0 where
  pub revoke_open : Bool
  pub confirm : Text

abbrev pub sent_notice : (link_copied : Bool) → Option (Text × Text) → Markup Event
sent_notice link_copied none = []
sent_notice link_copied (some (email, token)) =
    tone_dot ok
    ∷ span (txt "Приглашение заведено для ")
    ∷ span email
    ∷ span (
        txt
          ". Ссылка активации действует 7 дней — реальная отправка письма ещё не подключена, скопируйте ссылку и перешлите её сами.")
    ∷ button (link_label link_copied) false copy_link
    ∷ button (txt "Понятно") false dismiss
    ∷ []

abbrev pub column_headers : Markup Event
column_headers =
    span (txt "Имя")
    ∷ span (txt "Email")
    ∷ span (txt "Роль")
    ∷ span (txt "Двухфакторная")
    ∷ span (txt "Последний вход")
    ∷ []

abbrev pub member_row : (Text → Text) → TeamMember → Markup Event
member_row date_time m = row_button (select_member m.id) ∷ map (λ s. span s) (row date_time m)

abbrev pub team_table : (Text → Text) → Option (List TeamMember) → Markup Event
team_table date_time none = column_headers ++ skeleton ∷ []
team_table date_time (some ms) = column_headers ++ join (map (member_row date_time) ms)

-- `RevokeModal`, while no removal is under way.
unfoldable pub revoke_modal : TeamMember → Text → Markup Event
revoke_modal m confirm =
    modal (txt "Отозвать доступ") close_revoke
      (button (txt "Отозвать доступ") (not (revokes confirm false m)) remove
        ∷ button (txt "Отмена") false close_revoke
        ∷ [])
      (span (
          m.name
          ++ txt
              " потеряет доступ к суперадминке сразу, активные сессии будут закрыты. Записи в журнале действий останутся. Действие необратимо.")
        ∷ span (txt "Введите email сотрудника: ")
        ∷ span m.email
        ∷ field confirm typed_confirm
        ∷ [])

abbrev pub role_choice : TeamMember → TeamRole → Choice Event
role_choice m r = record {
  label = role_label r;
  selected = role_eq r m.role;
  on_choose = change_role r;
}

unfoldable pub member_detail : TeamMember → Panel → Markup Event
unfolding revoke_modal
member_detail m p =
    span m.name
    ∷ span m.email
    ∷ button (txt "Закрыть") false close_member
    ∷ span (txt "Роль")
    ∷ select (locked m) (map (role_choice m) invitable_roles)
    ∷ span (detail_hint m)
    ∷ span (txt "Отозвать доступ")
    ∷ button (txt "Отозвать доступ") (locked m) open_revoke
    ∷ span (revoke_hint m)
    ∷ when p.revoke_open (revoke_modal m p.confirm)

abbrev pub detail_of : Option TeamMember → Panel → Markup Event
detail_of none p = []
detail_of (some m) p = member_detail m p

abbrev pub role_chip : Form → TeamRole → Markup Event
role_chip f r =
    filter_chip (role_label r) none (some (role_tone r)) (role_eq f.role r) (choose_role r)

abbrev pub error_line : Text → Markup Event
error_line [] = []
error_line (c ∷ s) = span (c ∷ s) ∷ []

-- `InviteModal`, while no invitation is under way.
abbrev pub invite_modal : Option Form → Markup Event
invite_modal none = []
invite_modal (some f) =
    modal (txt "Пригласить сотрудника") close_invite
      (button (txt "Отправить приглашение") false submit
        ∷ button (txt "Отмена") false close_invite
        ∷ [])
      (span (txt "Рабочий email") ∷ field f.email typed_email ∷ error_line f.error
        ++ (span (txt "Роль") ∷ join (map (role_chip f) invitable_roles)
            ++ span (role_hint f.role) ∷ []))

abbrev pub body : (Text → Text) → Listing.View → Panel → Markup Event
body date_time Listing.error_state p = error_state refetch
body date_time (Listing.table ms m) p = team_table date_time ms ++ detail_of m p

-- The page's own state and that of the opened member, and what the query has.
pub record Page : Type 0 where
  pub screen : Screen.Page
  pub panel : Panel
  pub link_copied : Bool
  pub is_error : Bool
  pub is_pending : Bool
  pub members : Option (List TeamMember)

unfoldable pub page : (Text → Text) → Page → Markup Event
unfolding member_detail
page date_time p =
    heading (txt "Команда")
      ∷ span (subtitle p.is_pending (members_of p.members))
      ∷ button (txt "Пригласить сотрудника") false open_invite
      ∷ sent_notice p.link_copied p.screen.sent
    ++ (body date_time (view p.is_error p.is_pending p.members p.screen) p.panel
        ++ invite_modal p.screen.invite_form)

-- ===== src/Team/Listing.antt =====
-- web/src/features/team/TeamPage.tsx: the text under the title, the rows of the table, the opened member's
-- panel, the link of an invitation and the invitation's choices. `date_time` is `formatDateTime`, `origin`
-- is `window.location.origin`.
use ahmed_sila.Base.{
  Bool, true, false, Option, none, some, List, [], ◌∷◌, ◌++◌, length, ltb, if◌then◌else◌,
}
use ahmed_sila.Text.{Text, txt}
use ahmed_sila.Text.Decimal.{show}
use ahmed_sila.Format.Plural.{plural}
use ahmed_sila.Shell.{Tone, warn, muted, accent}
use ahmed_sila.Team.Types.{TeamRole, owner, admin, support, viewer, role_label, TeamMember}
use ahmed_sila.Team.Screen.{Page, Form, selected, tfa_off, locked}

-- `ROLE_HINT` and `ROLE_TONE` of types.ts
abbrev pub role_hint : TeamRole → Text
role_hint owner =
    txt
      "Полный доступ, включая управление командой и удаление клиентов. Роль владельца изменить нельзя."
role_hint admin =
    txt "Всё, кроме управления владельцем: клиенты, тарифы, приостановка доступа, обращения."
role_hint support =
    txt "Обращения и просмотр клиентов. Не может менять тарифы и приостанавливать доступ."
role_hint viewer = txt "Только просмотр: клиенты, обращения, журнал действий. Ничего не меняет."

abbrev pub role_tone : TeamRole → Tone
role_tone owner = accent
role_tone admin = accent
role_tone support = warn
role_tone viewer = muted

abbrev pub role_eq : TeamRole → TeamRole → Bool
role_eq owner owner = true
role_eq admin admin = true
role_eq support support = true
role_eq viewer viewer = true
role_eq _ _ = false

abbrev pub subtitle : (is_pending : Bool) → List TeamMember → Text
subtitle true ms = txt "Загружаем команду"
subtitle false ms =
    show (length ms)
    ++ (txt " "
        ++ (plural (length ms) (txt "сотрудник") (txt "сотрудника") (txt "сотрудников")
            ++ (txt " · "
                ++ (if ltb 0 (tfa_off ms)
                    then txt "у " ++ (show (tfa_off ms) ++ txt " не включена двухфакторная")
                    else txt "двухфакторная включена у всех"))))

-- A row of `TeamTable`.
abbrev pub name_cell : TeamMember → Text
name_cell m = m.name ++ (if m.is_me then txt " · это вы" else [])

abbrev pub tfa_cell : TeamMember → Text
tfa_cell m = if m.two_factor_enabled then txt "✓ Включена" else txt "✕ Не включена"

-- The empty text counts as no time.
abbrev pub login_cell : (Text → Text) → Option Text → Text
login_cell date_time none = txt "не входил"
login_cell date_time (some []) = txt "не входил"
login_cell date_time (some (c ∷ s)) = date_time (c ∷ s)

abbrev pub row : (Text → Text) → TeamMember → List Text
row date_time m =
    name_cell m
    ∷ m.email
    ∷ role_label m.role
    ∷ tfa_cell m
    ∷ login_cell date_time m.last_login_at
    ∷ []

-- What the page shows: the error, or the table, its skeleton while loading, with the opened member.
pub data View : Type 0 where
  error_state : View
  table : Option (List TeamMember) → Option TeamMember → View

abbrev pub members_of : Option (List TeamMember) → List TeamMember
members_of none = []
members_of (some ms) = ms

unfoldable pub view : (is_error is_pending : Bool) → Option (List TeamMember) → Page → View
view is_error is_pending data_ p =
    if is_error
    then error_state
    else table (if is_pending then none else some (members_of data_))
        (selected p (members_of data_))

abbrev pub select_member : Text → Page → Page
select_member id p = record p { selected_id = some id }

abbrev pub close_member : Page → Page
close_member p = record p { selected_id = none }

-- The texts of `MemberDetail`.
abbrev pub detail_hint : TeamMember → Text
detail_hint m = if locked m then role_hint owner else role_hint m.role

abbrev pub revoke_hint : TeamMember → Text
revoke_hint m =
    if locked m
    then txt
        "У владельца нельзя отозвать доступ. Сначала передайте роль владельца другому сотруднику."
    else txt
        "Сотрудник сразу потеряет доступ, активные сессии будут закрыты. Потребуется подтверждение."

-- The link of an invitation, and its button.
abbrev pub invite_link : Text → Text × Text → Text
invite_link origin (email, token) = origin ++ (txt "/invite/" ++ token)

abbrev pub link_label : (copied : Bool) → Text
link_label copied = if copied then txt "Скопировано" else txt "Скопировать ссылку"

abbrev pub dismiss : Page → Page
dismiss p = record p { sent = none }

-- The role of an invitation.
abbrev pub type_role : TeamRole → Form → Form
type_role r f = record f { role = r }

-- ===== src/Shell.antt =====
-- web/src/components: the frame of every page (layout/AppShell.tsx, Sidebar.tsx, Topbar.tsx), the modal
-- (ui/Modal.tsx) and the dots of the statuses (ui/StatusDot.tsx, ui/tone.ts). `upper` is `toUpperCase`.
pub mod Laws
pub mod Frame
use ahmed_sila.Base.{
  ℕ, zero, suc, ◌+◌, ◌==◌, Bool, true, false, ◌&&◌, not, Option, none, some, is_some, List, [], ◌∷◌,
  ◌++◌, map, length, filter, take, if◌then◌else◌,
}
use ahmed_sila.Text.{Text, txt, text_eq, is_space, trim, onto_first}
use ahmed_sila.Session.{AuthUser}
use ahmed_sila.Clients.Types.{
  ClientStatus, active, trial, paused, TicketStatus, opened, in_progress, resolved, closed,
  ticket_status_eq,
}
use ahmed_sila.Tickets.Types.{GlobalTicket}

abbrev starts_blank : Text → Bool
starts_blank [] = false
starts_blank (c ∷ s) = is_space c

-- `s.split(/\s+/)`
unfoldable pub split_spaces : Text → List Text
split_spaces [] = [] ∷ []
split_spaces (c ∷ s) =
    let rest = split_spaces s in
    if is_space c then (if starts_blank s then rest else [] ∷ rest) else onto_first c rest

-- `part[0]?.toUpperCase() ?? ''`
abbrev pub capital : (Text → Text) → Text → Text
capital upper [] = []
capital upper (c ∷ s) = upper (c ∷ [])

abbrev pub join : List Text → Text
join [] = []
join (w ∷ ws) = w ++ join ws

unfoldable pub initials_of : (Text → Text) → Text → Text
unfolding split_spaces
initials_of upper full_name = join (map (capital upper) (take 2 (split_spaces (trim full_name))))

-- The rest of `shortNameOf`, at the words of the name.
abbrev pub short_of : (Text → Text) → List Text → Text
short_of upper [] = []
short_of upper (first ∷ []) = first
short_of upper (first ∷ [] ∷ rest) = first
short_of upper (first ∷ (c ∷ last) ∷ rest) = first ++ (txt " " ++ (upper (c ∷ []) ++ txt "."))

unfoldable pub short_name_of : (Text → Text) → Text → Text
unfolding split_spaces
short_name_of upper full_name = short_of upper (split_spaces (trim full_name))

-- The user in the top bar: the initials and the name.
abbrev pub shown_user : (Text → Text) → Option AuthUser → Option (Text × Text)
shown_user upper none = none
shown_user upper (some u) = some (initials_of upper u.full_name, short_name_of upper u.full_name)

-- `openTicketsCount`
unfoldable pub open_tickets_count : Option (List GlobalTicket) → Option ℕ
open_tickets_count none = none
open_tickets_count (some ts) =
    some (length (filter (λ (t : GlobalTicket). ticket_status_eq t.status opened) ts))

-- `interface Crumb`
pub record Crumb : Type 0 where
  pub label : Text
  pub to : Option Text

-- `crumb.to && !isLast`: the link of a breadcrumb, where the empty text is none.
abbrev pub crumb_link : Bool → Option Text → Option Text
crumb_link true to = none
crumb_link false none = none
crumb_link false (some []) = none
crumb_link false (some (c ∷ s)) = some (c ∷ s)

abbrev pub is_nil {ℓ} : {A : Type ℓ} → List A → Bool
is_nil [] = true
is_nil (x ∷ xs) = false

-- The breadcrumbs as they are drawn, each with its link.
unfoldable pub drawn : List Crumb → List (Text × Option Text)
drawn [] = []
drawn (c ∷ cs) = (c.label, crumb_link (is_nil cs) c.to) ∷ drawn cs

pub data SectionKey : Type 0 where
  overview clients tickets audit team settings : SectionKey

pub record NavItem : Type 0 where
  pub key : SectionKey
  pub label : Text
  pub to : Option Text
  pub badge : Option ℕ

-- `NAV`
abbrev pub nav : Option ℕ → List NavItem
nav count =
    record { key = overview; label = txt "Обзор"; to = some (txt "/overview"); badge = none }
    ∷ record { key = clients; label = txt "Клиенты"; to = some (txt "/clients"); badge = none }
    ∷ record { key = tickets; label = txt "Обращения"; to = some (txt "/tickets"); badge = count }
    ∷ record {
      key = audit;
      label = txt "Журнал действий";
      to = some (txt "/journal");
      badge = none;
    }
    ∷ record { key = team; label = txt "Команда"; to = some (txt "/team"); badge = none }
    ∷ record { key = settings; label = txt "Настройки"; to = some (txt "/settings"); badge = none }
    ∷ []

-- The number next to an item of the menu.
abbrev pub shown_badge : (collapsed : Bool) → NavItem → Option ℕ
shown_badge true i = none
shown_badge false i = i.badge

-- The modal: a key, and a press of the mouse in the window outside the card or inside it.
abbrev pub closes_on_key : Text → Bool
closes_on_key key = text_eq key (txt "Escape")

abbrev pub closes_on_mouse_down : (target current_target : ℕ) → Bool
closes_on_mouse_down target current_target = target == current_target

pub data Tone : Type 0 where
  ok warn danger muted accent : Tone

-- `DOT`
abbrev pub dot : Tone → Text
dot ok = txt "bg-ok"
dot warn = txt "bg-warn"
dot danger = txt "bg-danger"
dot muted = txt "bg-ink-muted"
dot accent = txt "bg-accent"

abbrev pub client_tone : ClientStatus → Tone
client_tone active = ok
client_tone trial = warn
client_tone paused = danger

abbrev pub ticket_tone : TicketStatus → Tone
ticket_tone opened = danger
ticket_tone in_progress = warn
ticket_tone resolved = ok
ticket_tone closed = muted

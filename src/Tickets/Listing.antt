-- ===== src/Tickets/Listing.antt =====
-- web/src/features/tickets/TicketsPage.tsx: the text under the title, the rows of the list, the chips and
-- the thread with its buttons. `date` is `formatDate`.
use ahmed_sila.Base.{
  ℕ, Bool, true, false, Option, none, some, List, [], ◌∷◌, ◌++◌, map, length, if◌then◌else◌,
}
use ahmed_sila.Text.{Text, txt, text_eq}
use ahmed_sila.Text.Decimal.{show}
use ahmed_sila.Format.Plural.{plural}
use ahmed_sila.Shell.{Tone, ok, warn, danger, muted}
use ahmed_sila.Team.Types.{TeamMember}
use ahmed_sila.Clients.Types.{
  TicketStatus, opened, in_progress, resolved, closed, ticket_status_eq, ticket_status_label,
}
use ahmed_sila.Tickets.Types.{
  GlobalTicket, GlobalTicketDetail, TicketStatusFilter, all, only, all_key, unassigned_key,
}
use ahmed_sila.Tickets.Screen.{
  State, Query, statuses, tickets_of, is_empty, filtered_tickets, status_count,
}

-- `STATUS_TONE`
abbrev pub status_tone : TicketStatus → Tone
status_tone opened = danger
status_tone in_progress = warn
status_tone resolved = ok
status_tone closed = muted

abbrev counted : ℕ → Text → Text → Text → Text
counted n for_one for_few for_many = show n ++ (txt " " ++ plural n for_one for_few for_many)

abbrev pub subtitle : State → Query (List GlobalTicket) → Text
subtitle st q =
    let ts = tickets_of q in
    if q.is_pending
    then txt "Загружаем обращения"
    else if is_empty q
    then txt "Все обращения от клиентов собираются здесь"
    else show (length (filtered_tickets st ts))
      ++ (txt " из "
          ++ (counted (length ts) (txt "обращение") (txt "обращения") (txt "обращений")
              ++ (txt " · "
                  ++ counted (status_count opened ts) (txt "открытое") (txt "открытых")
                      (txt "открытых"))))

-- A chip: its label, its number, its dot, and whether it is chosen.
pub record Chip : Type 0 where
  pub label : Text
  pub count : Option ℕ
  pub tone : Option Tone
  pub selected : Bool

abbrev chosen_status : TicketStatusFilter → TicketStatus → Bool
chosen_status all s = false
chosen_status (only t) s = ticket_status_eq t s

abbrev none_chosen : TicketStatusFilter → Bool
none_chosen all = true
none_chosen (only t) = false

abbrev pub status_chips : State → List GlobalTicket → List Chip
status_chips st ts =
    record {
      label = txt "Все";
      count = some (length ts);
      tone = none;
      selected = none_chosen st.status;
    }
    ∷ map
        (λ s. record {
          label = ticket_status_label s;
          count = some (status_count s ts);
          tone = some (status_tone s);
          selected = chosen_status st.status s;
        })
        statuses

abbrev assignee_chip : State → Text → Text → Chip
assignee_chip st label key = record {
  label = label;
  count = none;
  tone = none;
  selected = text_eq st.assignee key;
}

-- The row of the assignees; the names are those of the team, if it has come.
abbrev pub names_of : Option (List TeamMember) → List Text
names_of none = []
names_of (some ms) = map (λ (m : TeamMember). m.name) ms

abbrev pub assignee_chips : State → Option (List TeamMember) → List Chip
assignee_chips st team =
    assignee_chip st (txt "Все") all_key ∷ map (λ name. assignee_chip st name name) (names_of team)
    ++ assignee_chip st (txt "Не назначен") unassigned_key ∷ []

abbrev pub or_name : Option Text → Text → Text
or_name none other = other
or_name (some name) other = name

-- `TicketThreadContainer`: the error, the skeleton, or the thread of the ticket.
pub data Container : Type 0 where
  error_state skeleton : Container
  thread : GlobalTicketDetail → Container

unfoldable pub container : Query GlobalTicketDetail → Container
container q =
    if q.is_error
    then error_state
    else if q.is_pending
    then skeleton
    else elim q.data_found [ none ↦ skeleton | some t ↦ thread t ]

-- The mutations of the thread that are under way.
pub record Busy : Type 0 where
  pub sending : Bool
  pub assigning : Bool
  pub resolving : Bool

-- The line of the assignee.
abbrev pub assignee_line : GlobalTicketDetail → Text
assignee_line t = txt "Назначен: " ++ or_name t.assignee (txt "никто")

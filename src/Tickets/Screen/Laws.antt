-- ===== src/Tickets/Screen/Laws.antt =====
-- Which tickets the section shows, and that what it shows can be told from its state.
use ahmed_sila.Base.{
  ◌+◌, ◌≡◌, refl, ◌↔◌, ◌⊎◌, ◌≢◌, Bool, true, false, ◌&&◌, Option, none, some, is_none, List, [],
  ◌∷◌, length, Member, Member-filter, filter-Member, filter_all, arith,
}
use ahmed_sila.Text.{Text, text_eq}
use ahmed_sila.Text.Laws.{text_eq_iff, text_eq_refl}
use ahmed_sila.Clients.Types.{opened, in_progress, resolved, closed, ticket_status_eq_iff}
use ahmed_sila.Tickets.Types.{GlobalTicket, TicketStatusFilter, all, only, all_key, unassigned_key}
use ahmed_sila.Tickets.Screen.{
  State, Query, has_status, has_assignee, is_assigned, filtered_tickets, status_count, tickets_of,
  is_empty, show_empty_filtered, no_matches, rows, view, reset_filters, shows_filters,
}

keys_ne : text_eq unassigned_key all_key ≡ false
unfolding text_eq
keys_ne = refl

has_status_iff :
    (f : TicketStatusFilter) (t : GlobalTicket)
    → (has_status f t ≡ true) ↔ ((f ≡ all) ⊎ (f ≡ only t.status))
has_status_iff all t = ground arith
has_status_iff (only s) t = ground (arith, ticket_status_eq_iff t.status s)

is_assigned_iff : (name : Text) (o : Option Text) → (is_assigned name o ≡ true) ↔ (o ≡ some name)
is_assigned_iff name none = ground arith
is_assigned_iff name (some a) = ground (arith, text_eq_iff a name)

none_iff : (o : Option Text) → (is_none o ≡ true) ↔ (o ≡ none)
none_iff none = ground arith
none_iff (some a) = ground arith

-- The filter of the assignee, as its chips mean it.
abbrev pub Assigned : Text → GlobalTicket → Type 0
Assigned a t =
    (a ≡ all_key)
    ⊎ ((a ≡ unassigned_key) × (t.assignee ≡ none))
    ⊎ ((a ≢ all_key) × (a ≢ unassigned_key) × (t.assignee ≡ some a))

has_assignee_iff : (a : Text) (t : GlobalTicket) → (has_assignee a t ≡ true) ↔ Assigned a t
unfolding has_assignee
has_assignee_iff a t = ground (
  arith,
  text_eq_iff a all_key,
  text_eq_iff a unassigned_key,
  is_assigned_iff a t.assignee,
  none_iff t.assignee,
  keys_ne,
  text_eq_iff unassigned_key all_key,
)

shown_iff :
    (st : State) (t : GlobalTicket)
    → ((has_status st.status t && has_assignee st.assignee t) ≡ true)
      ↔ (((st.status ≡ all) ⊎ (st.status ≡ only t.status)) × Assigned st.assignee t)
shown_iff st t = ground (arith, has_status_iff st.status t, has_assignee_iff st.assignee t)

-- A ticket is listed exactly when it is one of the tickets, has the chosen status, if one is chosen,
-- and is assigned to the chosen person, to nobody, or to whomever, as the chosen chip says.
pub Member-filtered_tickets_iff :
    (st : State) (ts : List GlobalTicket) (t : GlobalTicket)
    → Member t (filtered_tickets st ts)
      ↔ (Member t ts × ((st.status ≡ all) ⊎ (st.status ≡ only t.status)) × Assigned st.assignee t)
unfolding filtered_tickets
Member-filtered_tickets_iff st ts t =
    let p : GlobalTicket → Bool = λ u. has_status st.status u && has_assignee st.assignee u in
    ground (arith, Member-filter p t ts, filter-Member p t ts, shown_iff st t)

-- The numbers of the four status chips add up to the number of all tickets.
pub status_count-sum :
    (ts : List GlobalTicket)
    → status_count opened ts
        + status_count in_progress ts
        + status_count resolved ts
        + status_count closed ts
      ≡ length ts
unfolding status_count
status_count-sum [] = refl
status_count-sum (t ∷ ts) = ground (arith, status_count-sum ts)

filtered_tickets-reset :
    (st : State) (ts : List GlobalTicket) → filtered_tickets (reset_filters st) ts ≡ ts
unfolding filtered_tickets reset_filters has_assignee
filtered_tickets-reset st ts = filter_all _ ts (λ t. ground (arith, text_eq_refl all_key))

-- The button that resets the filters lists all tickets: a screen of loaded tickets with none opened
-- then never says that nothing fits the filter.
pub reset_filters_lem :
    (st : State) (q : Query (List GlobalTicket))
    → (filtered_tickets (reset_filters st) (tickets_of q) ≡ tickets_of q)
      × (view (reset_filters st) q ≢ no_matches)
unfolding view show_empty_filtered is_empty
reset_filters_lem st q = (
  filtered_tickets-reset st (tickets_of q),
  ground (arith, filtered_tickets-reset st (tickets_of q)),
)

-- The chips stand over the list exactly when the screen shows tickets or says that none fits.
pub shows_filters_iff :
    (st : State) (q : Query (List GlobalTicket))
    → (shows_filters st q ≡ true)
      ↔ ((view st q ≡ no_matches) ⊎ (view st q ≡ rows (filtered_tickets st (tickets_of q))))
unfolding view shows_filters show_empty_filtered is_empty
shows_filters_iff st q = ground arith

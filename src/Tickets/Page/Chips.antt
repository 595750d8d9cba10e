-- ===== src/Tickets/Page/Chips.antt =====
-- The numbers on the chips of the page of all tickets, against the list that a press of the chip gives.
use ahmed_sila.Base.{
  ◌≡◌, refl, sym, ap, ◌∙◌, true, some, List, [], ◌∷◌, map, length, filter, filter_congr, filter_all,
  All, arith,
}
use ahmed_sila.Text.Laws.{text_eq_refl}
use ahmed_sila.Clients.Types.{TicketStatus}
use ahmed_sila.Tickets.Types.{GlobalTicket, TicketStatusFilter, all, only, all_key}
use ahmed_sila.Tickets.Screen.{
  State, statuses, set_status, has_status, has_assignee, filtered_tickets, status_count,
}
use ahmed_sila.Tickets.Listing.{Chip, status_chips}

-- The filters that the chips set, in their order.
abbrev pub status_filters : List TicketStatusFilter
status_filters = all ∷ map only statuses

abbrev pub pairs : List Chip → List TicketStatusFilter → List (Chip × TicketStatusFilter)
pairs [] fs = []
pairs (c ∷ cs) [] = []
pairs (c ∷ cs) (f ∷ fs) = (c, f) ∷ pairs cs fs

-- The chip shows the number of rows that its filter leaves.
abbrev pub Counts : State → List GlobalTicket → Chip × TicketStatusFilter → Type 0
Counts st ts (c, f) = c.count ≡ some (length (filtered_tickets (set_status f st) ts))

anyone : (st : State) (t : GlobalTicket) → st.assignee ≡ all_key → has_assignee st.assignee t ≡ true
unfolding has_assignee
anyone st t h = rw h (rw (text_eq_refl all_key) refl)

listed :
    (f : TicketStatusFilter) (st : State) (ts : List GlobalTicket)
    → st.assignee ≡ all_key
    → filter (has_status f) ts ≡ filtered_tickets (set_status f st) ts
unfolding filtered_tickets
listed f st ts h = filter_congr (has_status f) _ ts (λ t. ground (arith, anyone st t h))

only_counts :
    (s : TicketStatus) (st : State) (ts : List GlobalTicket)
    → st.assignee ≡ all_key
    → some (status_count s ts) ≡ some (length (filtered_tickets (set_status (only s) st) ts))
unfolding status_count
only_counts s st ts h = ap (λ (xs : List GlobalTicket). some (length xs)) (listed (only s) st ts h)

all_counts :
    (st : State) (ts : List GlobalTicket)
    → st.assignee ≡ all_key
    → some (length ts) ≡ some (length (filtered_tickets (set_status all st) ts))
all_counts st ts h =
    ap (λ (xs : List GlobalTicket). some (length xs))
      (sym (filter_all (has_status all) ts (λ t. refl)) ∙ listed all st ts h)

-- While no assignee is chosen, the number on each chip of a status is the number of tickets that are
-- listed once the chip is pressed.
pub status_chips-filtered_tickets :
    (st : State) (ts : List GlobalTicket)
    → st.assignee ≡ all_key
    → All (Counts st ts) (pairs (status_chips st ts) status_filters)
status_chips-filtered_tickets st ts h =
    let at = λ (s : TicketStatus). only_counts s st ts h in
    (all_counts st ts h, (at _, (at _, (at _, (at _, tt)))))

-- ===== src/Clients/Tabs/Laws.antt =====
-- When the tab of the tickets shows a thread, and what its button sends.
use ahmed_sila.Base.{
  ◌≡◌, refl, ◌≢◌, ◌↔◌, ◌⊎◌, inl, inr, Bool, true, false, Option-cases, none, some, List, [], ◌∷◌,
  find, Member, Member-find, find-some, arith,
}
use ahmed_sila.Text.{Text, trim}
use ahmed_sila.Text.Laws.{text_eq_iff}
use ahmed_sila.Clients.Types.{Ticket, TicketStatus, opened, in_progress}
use ahmed_sila.Clients.Tabs.{
  thread, is_open, rows_or_empty, tickets_view, is_blank, reply_disabled, solve_disabled, on_send,
  open_row,
}

absent :
    (t : Ticket) (ts : List Ticket) (u : Ticket)
    → find (is_open (some t.id)) ts ≡ none
    → Member u ts
    → u.id ≢ t.id
absent t ts u e m same =
    let (v, found) = find-some (is_open (some t.id)) u ts m ((text_eq_iff u.id t.id).1 same) in
    ground (arith, e, found)

blank_iff : (t : Text) → (is_blank t ≡ true) ↔ (t ≡ [])
blank_iff [] = ground arith
blank_iff (c ∷ t) = ground arith

-- After a press of a ticket's row, and whatever list the query brings later, the tab shows the thread of
-- a ticket of that list with the pressed ticket's id if there is one, and otherwise the list again.
pub tickets_view-open_row :
    (date : Text → Text) (t : Ticket) (ts : List Ticket)
    → ((u : Ticket) × (tickets_view date false (some ts) (open_row t) ≡ thread u)
        × Member u ts
        × (u.id ≡ t.id))
      ⊎ ((tickets_view date false (some ts) (open_row t) ≡ rows_or_empty date ts)
          × ((u : Ticket) → Member u ts → u.id ≢ t.id))
unfolding tickets_view
tickets_view-open_row date t ts = elim (Option-cases (find (is_open (some t.id)) ts)) [
  | inl e ↦ inr (rw e refl, λ u m same. absent t ts u e m same)
  | inr (u, e) ↦
      (let (m, k) = Member-find (is_open (some t.id)) u ts e in
        inl (u, rw e refl, m, (text_eq_iff u.id t.id).0 k))
]

-- A reply is sent as it is typed, exactly when it is more than white space and none is under way; a
-- ticket can be marked as solved exactly when it is open or in work and no such call is under way.
pub on_send_iff :
    (reply : Text) (is_pending : Bool) (status : TicketStatus)
    → ((on_send reply is_pending ≡ some reply) ↔ ((trim reply ≢ []) × (is_pending ≡ false)))
      × ((solve_disabled status is_pending ≡ false)
          ↔ (((status ≡ opened) ⊎ (status ≡ in_progress)) × (is_pending ≡ false)))
unfolding on_send reply_disabled solve_disabled
on_send_iff reply is_pending status = (ground (arith, blank_iff (trim reply)), ground arith)

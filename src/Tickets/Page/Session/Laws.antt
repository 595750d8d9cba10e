-- ===== src/Tickets/Page/Session/Laws.antt =====
-- Which replies a visit of the page sends, and when a text that is being written is lost.
use ahmed_sila.Base.{
  ◌≡◌, ◌≢◌, Bool, true, false, Option, none, some, List, [], ◌∷◌, ◌++◌, map, All, arith,
}
use ahmed_sila.Text.{Text, txt, trim}
use ahmed_sila.Team.Types.{TeamMember}
use ahmed_sila.Clients.Types.{TicketStatus}
use ahmed_sila.Markup.{gives, join, span}
use ahmed_sila.Markup.Laws.{
  Offers, Allowed, gives-Allowed, All-append, All-join, All-when, button-Offers, filter_chip-Offers,
}
use ahmed_sila.Tickets.Types.{GlobalTicket, GlobalTicketDetail}
use ahmed_sila.Tickets.Screen.{
  State, Query, send_disabled, view, tickets_of, statuses, shows_filters,
}
use ahmed_sila.Tickets.Screen
use ahmed_sila.Tickets.Listing.{
  Chip, Container, container, Busy, status_chips, assignee_chips, names_of,
}
use ahmed_sila.Tickets.Listing
use ahmed_sila.Tickets.Page.{
  Event, send, set_status, set_assignee, Page, page, filters, chips, status_events, assignee_events,
  ticket_thread, reply_form, ticket_row, message_nodes, tickets_list, body,
}
use ahmed_sila.Tickets.Page
use ahmed_sila.Tickets.Page.Session.{
  Mark, replied_to, answered, away, Visit, leave, redraw, is_thread, act, ended, on_replied,
  on_event, Happening, gesture, list_answered, detail_answered, team_answered, replied, assigned,
  solved, happen, visit, start,
}

-- No call of a reply is under way that the log knows of.
abbrev pub IsClosed : List Mark → Type 0
IsClosed [] = Unit {0}
IsClosed (replied_to id t ∷ log) = ⊥
IsClosed (answered ∷ log) = Unit {0}
IsClosed (away ∷ log) = Unit {0}

-- Every reply has a text with something else than white space in it, and before it was sent the one before it was over,
-- or its thread had been left.
abbrev pub IsOrderly : List Mark → Type 0
IsOrderly [] = Unit {0}
IsOrderly (replied_to id t ∷ log) = (trim t ≢ []) × IsClosed log × IsOrderly log
IsOrderly (answered ∷ log) = IsOrderly log
IsOrderly (away ∷ log) = IsOrderly log

-- The button of the reply is offered only when it may send.
abbrev Ready : Text → Bool → Event → Type 0
Ready draft sending send = send_disabled draft sending ≡ false
Ready draft sending _ = Unit {0}

module _ (date date_time : Text → Text) (draft : Text) (busy : Busy) where
  abbrev R : Event → Type 0
  R = Ready draft busy.sending

  chips-Offers : (cs : List Chip) (es : List Event) → All R es → All (Offers R) (chips cs es)
  chips-Offers [] es h = tt
  chips-Offers (c ∷ cs) [] h = tt
  chips-Offers (c ∷ cs) (e ∷ es) (h, hs) =
      All-append R (Page.chip_of c e) (chips cs es)
        (filter_chip-Offers R c.label c.count c.tone c.selected e h) (chips-Offers cs es hs)

  names_events-Ready :
      (names : List Text) → All R (map set_assignee names ++ set_assignee (txt "unassigned") ∷ [])
  names_events-Ready [] = (tt, tt)
  names_events-Ready (n ∷ names) = (tt, names_events-Ready names)

  filters-Offers :
      (st : State) (ts : List GlobalTicket) (team : Option (List TeamMember))
      → All (Offers R) (filters st ts team)
  unfolding filters
  filters-Offers st ts team =
      let names = names_of team in
      let statuses_offer =
        chips-Offers (status_chips st ts) status_events (tt, (tt, (tt, (tt, (tt, tt))))) in
      let assignees_offer =
        chips-Offers (assignee_chips st team) (assignee_events names)
          (tt, names_events-Ready names) in
      (
        tt,
        All-append R (chips (status_chips st ts) status_events)
            (span (txt "Назначен") ∷ chips (assignee_chips st team) (assignee_events names))
            statuses_offer (tt, assignees_offer),
      )

  buttons-Offers : (status : TicketStatus) → All (Offers R) (reply_form draft busy status)
  buttons-Offers status =
      let sends =
        button-Offers R (txt "Отправить") (send_disabled draft busy.sending) send (λ h. h) in
      let assigns =
        button-Offers R (txt "Назначить на себя") busy.assigning Event.assign (λ h. tt) in
      let solves =
        button-Offers R (txt "Отметить решённым") (Screen.resolve_disabled status busy.resolving)
          Event.solve (λ h. tt) in
      ((λ t. tt), (sends, (assigns, (solves, tt))))

  thread-Offers : (t : GlobalTicketDetail) → All (Offers R) (ticket_thread date_time t draft busy)
  unfolding ticket_thread
  thread-Offers t =
      let messages = All-join R (message_nodes date_time) t.messages (λ m. ground arith) in
      let buttons = buttons-Offers t.status in
      let rest =
        All-append R (join (map (message_nodes date_time) t.messages))
          (reply_form draft busy t.status) messages buttons in
      ground (arith, rest)

  container-Offers : (c : Container) → All (Offers R) (Page.container_nodes date_time c draft busy)
  container-Offers Listing.error_state = ground arith
  container-Offers Listing.skeleton = ground arith
  container-Offers (Listing.thread t) = thread-Offers t

  body-Offers :
      (v : Screen.View) (q : Text → Query GlobalTicketDetail)
      → All (Offers R) (body date date_time v q draft busy)
  body-Offers Screen.error_state q = ground arith
  body-Offers Screen.skeleton q = ground arith
  body-Offers Screen.no_tickets q = ground arith
  body-Offers Screen.no_matches q = ground arith
  body-Offers (Screen.thread id) q = container-Offers (container (q id))
  body-Offers (Screen.rows ts) q =
      let all_rows = All-join R (ticket_row date) ts (λ t. ground arith) in ground (arith, all_rows)

page-Offers :
    (date date_time : Text → Text) (p : Page)
    → All (Offers (Ready p.draft p.busy.sending)) (page date date_time p)
unfolding page
page-Offers date date_time p =
    let R = Ready p.draft p.busy.sending in
    let chosen =
      All-when R (shows_filters p.screen p.list) (filters p.screen (tickets_of p.list) p.team)
        (filters-Offers date date_time p.draft p.busy p.screen (tickets_of p.list) p.team) in
    (
      tt,
      (
        tt,
        All-append R _ _ chosen
            (body-Offers date date_time p.draft p.busy (view p.screen p.list) p.details),
      ),
    )

record Keeps (v : Visit) : Type 0 where
  orderly : IsOrderly v.log
  closed : v.shown.busy.sending ≡ false → IsClosed v.log

leave-Keeps : (b : Bool) (v : Visit) → Keeps v → Keeps (leave b v)
leave-Keeps true v k = k
leave-Keeps false v k = record { orderly = k.orderly; closed = λ h. tt }

redraw-Keeps : (v : Visit) → Keeps v → Keeps (redraw v)
unfolding redraw
redraw-Keeps v k = leave-Keeps (is_thread (view v.shown.screen v.shown.list)) v k

sendable :
    (draft : Text) (sending : Bool)
    → send_disabled draft sending ≡ false
    → (trim draft ≢ []) × (sending ≡ false)
unfolding send_disabled
sendable draft sending h = ground (arith, h)

act-Keeps :
    (e : Event) (v : Visit) → Ready v.shown.draft v.shown.busy.sending e → Keeps v → Keeps (act e v)
unfolding act
act-Keeps send v ready k =
    let (full, free) = sendable v.shown.draft v.shown.busy.sending ready in
    record { orderly = (full, k.closed free, k.orderly); closed = λ h. absurd (ground (arith, h)) }
act-Keeps (set_status f) v ready k = record { orderly = k.orderly; closed = k.closed }
act-Keeps (set_assignee f) v ready k = record { orderly = k.orderly; closed = k.closed }
act-Keeps (Page.open_ticket id) v ready k = record { orderly = k.orderly; closed = k.closed }
act-Keeps (Page.typed t) v ready k = record { orderly = k.orderly; closed = k.closed }
act-Keeps (Page.change_priority p) v ready k = k
act-Keeps Page.back v ready k = record { orderly = k.orderly; closed = k.closed }
act-Keeps Page.reset_filters v ready k = record { orderly = k.orderly; closed = k.closed }
act-Keeps Page.refetch v ready k = k
act-Keeps Page.refetch_ticket v ready k = k
act-Keeps Page.assign v ready k = record { orderly = k.orderly; closed = k.closed }
act-Keeps Page.solve v ready k = record { orderly = k.orderly; closed = k.closed }

ended-Keeps : (sending success : Bool) (v : Visit) → Keeps v → Keeps (ended sending success v)
ended-Keeps false success v k = k
ended-Keeps true success v k = record { orderly = k.orderly; closed = λ h. tt }

module _ (date date_time : Text → Text) where
  on_event-Keeps :
      (o : Option Event) (v : Visit)
      → Allowed (Ready v.shown.draft v.shown.busy.sending) o
      → Keeps v
      → Keeps (on_event date date_time o v)
  on_event-Keeps none v ready k = k
  on_event-Keeps (some e) v ready k = redraw-Keeps (act e v) (act-Keeps e v ready k)

  happen-Keeps : (h : Happening) (v : Visit) → Keeps v → Keeps (happen date date_time h v)
  unfolding happen on_replied
  happen-Keeps (gesture g) v k =
      let shown = page date date_time v.shown in
      let ready =
        gives-Allowed (Ready v.shown.draft v.shown.busy.sending) g shown
          (page-Offers date date_time v.shown) in
      on_event-Keeps (gives g shown) v ready k
  happen-Keeps (list_answered q) v k =
      redraw-Keeps (record v { shown = record v.shown { list = q } })
        (record { orderly = k.orderly; closed = k.closed })
  happen-Keeps (detail_answered id q) v k = record { orderly = k.orderly; closed = k.closed }
  happen-Keeps (team_answered team) v k = record { orderly = k.orderly; closed = k.closed }
  happen-Keeps (replied success) v k = ended-Keeps v.shown.busy.sending success v k
  happen-Keeps assigned v k = record { orderly = k.orderly; closed = k.closed }
  happen-Keeps solved v k = record { orderly = k.orderly; closed = k.closed }

  visit-Keeps : (hs : List Happening) (v : Visit) → Keeps v → Keeps (visit date date_time hs v)
  visit-Keeps [] v k = k
  visit-Keeps (h ∷ hs) v k = visit-Keeps hs (happen date date_time h v) (happen-Keeps h v k)

  -- Whatever is done on the page as it is drawn, and in whatever order the answers come: every reply that is
  -- sent has a text with something else than white space in it, and before it was sent the one before it was
  -- over, or its thread had been left.
  pub visit-IsOrderly : (hs : List Happening) → IsOrderly (visit date date_time hs start).log
  visit-IsOrderly hs = (visit-Keeps hs start (record { orderly = tt; closed = λ h. tt })).orderly

-- ===== src/Clients/Tabs/Page/Laws.antt =====
-- Which tickets the tab of a client's tickets can change.
use ahmed_sila.Base.{
  ◌≡◌, refl, ◌≢◌, Bool, false, Option, none, some, List, [], ◌∷◌, map, find, Member, Member-find,
  All, arith,
}
use mathlib.Core.Path.{subst}
use ahmed_sila.Text.{Text, txt, trim}
use ahmed_sila.Markup.{Gesture, gives, join}
use ahmed_sila.Markup.Laws.{Offers, Allowed, gives-Allowed, All-append, All-join, button-Offers}
use ahmed_sila.Clients.Types.{resolved, closed, Ticket}
use ahmed_sila.Clients.Tabs.{is_open, reply_disabled, solve_disabled}
use ahmed_sila.Clients.Tabs.Page.{
  Event, send_reply, mark_resolved, Busy, ticket_nodes, tickets_list, message_nodes, reply_form,
  ticket_thread, thread_or_list, tickets_tab,
}

-- A ticket of the list with that id, of which `P` holds.
abbrev pub Of : List Ticket → Text → (Ticket → Type 0) → Type 0
Of ts id P = (t : Ticket) × Member t ts × (t.id ≡ id) × P t

abbrev pub IsUnsolved : Ticket → Type 0
IsUnsolved t = (t.status ≢ resolved) × (t.status ≢ closed)

-- What the event sends is about a ticket of the list: a reply that has a text with something else than
-- white space in it, or the end of a ticket that is neither resolved nor closed.
abbrev pub IsSound : List Ticket → Event → Type 0
IsSound ts (send_reply id text) = (trim text ≢ []) × Of ts id (λ t. Unit {0})
IsSound ts (mark_resolved id) = Of ts id IsUnsolved
IsSound ts _ = Unit {0}

sends_text :
    (reply : Text) (replying : Bool) → reply_disabled reply replying ≡ false → trim reply ≢ []
unfolding reply_disabled
sends_text reply replying h e = ground (arith, h, e)

solves_open :
    (t : Ticket) (resolving : Bool) → solve_disabled t.status resolving ≡ false → IsUnsolved t
unfolding solve_disabled
solves_open t resolving h = (λ e. ground (arith, h, e), λ e. ground (arith, h, e))

module _ (date date_time : Text → Text) (ts : List Ticket) (reply : Text) (busy : Busy) where
  abbrev R : Event → Type 0
  R = IsSound ts

  form-Offers : (t : Ticket) → Member t ts → All (Offers R) (reply_form t reply busy)
  form-Offers t m =
      let replying =
        button-Offers R (txt "Отправить") (reply_disabled reply busy.replying)
          (send_reply t.id reply) (λ h. (sends_text reply busy.replying h, (t, m, refl, tt))) in
      let solving =
        button-Offers R (txt "Отметить решённым") (solve_disabled t.status busy.resolving)
          (mark_resolved t.id) (λ h. (t, m, refl, solves_open t busy.resolving h)) in
      ((λ x. tt), (replying, (solving, tt)))

  thread-Offers : (t : Ticket) → Member t ts → All (Offers R) (ticket_thread date_time t reply busy)
  thread-Offers t m =
      let messages = All-join R (message_nodes date_time) t.messages (λ x. ground arith) in
      let rest =
        All-append R (join (map (message_nodes date_time) t.messages)) (reply_form t reply busy)
          messages (form-Offers t m) in
      (tt, (tt, (tt, (tt, (tt, rest)))))

  list-Offers : (us : List Ticket) → All (Offers R) (tickets_list date us)
  list-Offers [] = (tt, (tt, tt))
  list-Offers (u ∷ us) =
      (tt, (tt, (tt, (tt, All-join R (ticket_nodes date) (u ∷ us) (λ t. ground arith)))))

  shown-Offers :
      (opened_id : Option Text) (o : Option Ticket)
      → find (is_open opened_id) ts ≡ o
      → All (Offers R) (thread_or_list date date_time o ts reply busy)
  shown-Offers opened_id none e = list-Offers ts
  shown-Offers opened_id (some t) e = thread-Offers t (Member-find (is_open opened_id) t ts e).0

  -- Whatever is done on the tab of a client's tickets as it is drawn: a reply goes to a ticket of the list and has a
  -- text with something else than white space in it, and only a ticket of the list that is neither
  -- resolved nor closed is marked as resolved.
  pub tickets_tab-IsSound :
      (g : Gesture) (opened_id : Option Text) (e : Event)
      → gives g (tickets_tab date date_time false (some ts) opened_id reply busy) ≡ some e
      → IsSound ts e
  unfolding tickets_tab
  tickets_tab-IsSound g opened_id e h =
      let drawn = tickets_tab date date_time false (some ts) opened_id reply busy in
      subst (Allowed R) h
        (gives-Allowed R g drawn (shown-Offers opened_id (find (is_open opened_id) ts) refl))

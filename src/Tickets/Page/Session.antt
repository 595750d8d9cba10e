-- ===== src/Tickets/Page/Session.antt =====
-- A visit of the page of all tickets (web/src/features/tickets/TicketsPage.tsx): what a person does on it as it is
-- drawn, and the answers of the queries and of the mutations (useTickets.ts). The state of an opened
-- thread (TicketThreadContainer) lives while the thread is on the page.
pub mod Laws
pub mod Draft
use ahmed_sila.Base.{ℕ, Bool, true, false, Option, none, some, List, [], ◌∷◌, if◌then◌else◌}
use ahmed_sila.Text.{Text, txt, text_eq}
use ahmed_sila.Team.Types.{TeamMember}
use ahmed_sila.Markup.{Gesture, gives}
use ahmed_sila.Tickets.Types.{GlobalTicket, GlobalTicketDetail}
use ahmed_sila.Tickets.Screen.{
  State, init, Query, View, thread, rows, no_tickets, no_matches, error_state, skeleton, view,
  open_ticket, back, set_status, set_assignee, reset_filters, opened_id,
}
use ahmed_sila.Tickets.Listing.{Busy}
use ahmed_sila.Tickets.Page.{Event, Page, page}
use ahmed_sila.Tickets.Page

-- What the log keeps: a call of `replyToTicket`, its end, and that no thread is on the page.
pub data Mark : Type 0 where
  replied_to : Text → Text → Mark
  answered away : Mark

pub record Visit : Type 0 where
  pub shown : Page
  pub log : List Mark

abbrev pub idle : Busy
idle = record { sending = false; assigning = false; resolving = false }

abbrev pub is_thread : View → Bool
is_thread (thread id) = true
is_thread _ = false

-- The thread's state goes with it.
abbrev pub leave : Bool → Visit → Visit
leave true v = v
leave false v = record { shown = record v.shown { draft = []; busy = idle }; log = away ∷ v.log }

unfoldable pub redraw : Visit → Visit
redraw v = leave (is_thread (view v.shown.screen v.shown.list)) v

abbrev pub id_of : Option Text → Text
id_of none = []
id_of (some id) = id

-- The handlers; what the refetched queries and the other mutations bring comes by `Happening`.
unfoldable pub act : Event → Visit → Visit
act (Page.set_status f) v = record v {
  shown = record v.shown { screen = set_status f v.shown.screen };
}
act (Page.set_assignee a) v = record v {
  shown = record v.shown { screen = set_assignee a v.shown.screen };
}
act (Page.open_ticket id) v = record v {
  shown = record v.shown { screen = open_ticket id v.shown.screen };
}
act Page.back v = record v { shown = record v.shown { screen = back v.shown.screen } }
act Page.reset_filters v = record v {
  shown = record v.shown { screen = reset_filters v.shown.screen };
}
act Page.refetch v = v
act Page.refetch_ticket v = v
act (Page.typed t) v = record v { shown = record v.shown { draft = t } }
act Page.send v = record {
  shown = record v.shown { busy = record v.shown.busy { sending = true } };
  log = replied_to (id_of (opened_id v.shown.screen.open_ticket_id)) v.shown.draft ∷ v.log;
}
act Page.assign v = record v {
  shown = record v.shown { busy = record v.shown.busy { assigning = true } };
}
act Page.solve v = record v {
  shown = record v.shown { busy = record v.shown.busy { resolving = true } };
}
act (Page.change_priority p) v = v

-- The end of the reply that the opened thread waits for, if it waits: `onSuccess` empties the draft.
abbrev pub ended : (sending success : Bool) → Visit → Visit
ended false success v = v
ended true success v = record {
  shown = record v.shown {
    draft = if success then [] else v.shown.draft;
    busy = record v.shown.busy { sending = false };
  };
  log = answered ∷ v.log;
}

unfoldable pub on_replied : Bool → Visit → Visit
on_replied success v = ended v.shown.busy.sending success v

pub data Happening : Type 0 where
  gesture : Gesture → Happening
  list_answered : Query (List GlobalTicket) → Happening
  detail_answered : Text → Query GlobalTicketDetail → Happening
  team_answered : Option (List TeamMember) → Happening
  replied : Bool → Happening
  assigned solved : Happening

abbrev pub put :
    Text
    → Query GlobalTicketDetail
    → (Text → Query GlobalTicketDetail)
    → Text
    → Query GlobalTicketDetail
put id q details other = if text_eq other id then q else details other

-- `date` is `formatDate` and `date_time` is `formatDateTime`.
module _ (date date_time : Text → Text) where
  abbrev pub on_event : Option Event → Visit → Visit
  on_event none v = v
  on_event (some e) v = redraw (act e v)

  unfoldable pub happen : Happening → Visit → Visit
  happen (gesture g) v = on_event (gives g (page date date_time v.shown)) v
  happen (list_answered q) v = redraw (record v { shown = record v.shown { list = q } })
  happen (detail_answered id q) v = record v {
    shown = record v.shown { details = put id q v.shown.details };
  }
  happen (team_answered team) v = record v { shown = record v.shown { team = team } }
  happen (replied success) v = on_replied success v
  happen assigned v = record v {
    shown = record v.shown { busy = record v.shown.busy { assigning = false } };
  }
  happen solved v = record v {
    shown = record v.shown { busy = record v.shown.busy { resolving = false } };
  }

  -- The first happening stands first.
  abbrev pub visit : List Happening → Visit → Visit
  visit [] v = v
  visit (h ∷ hs) v = visit hs (happen h v)

abbrev waiting : {A : Type 0} → Query A
waiting = record { data_found = none; is_pending = true; is_error = false }

-- The page when it is opened.
abbrev pub start : Visit
start = record {
  shown = record {
    screen = init;
    draft = [];
    busy = idle;
    list = waiting;
    details = λ id. waiting;
    team = none;
  };
  log = [];
}

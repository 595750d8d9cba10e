-- ===== src/Clients/Tabs/Tests.antt =====
-- A press in the thread of a client's ticket.
use ahmed_sila.Base.{◌≡◌, refl, false, none, some, [], ◌∷◌}
use ahmed_sila.Text.{Text, txt, text_eq, trim}
use ahmed_sila.Markup.{press, gives}
use ahmed_sila.Clients.Types.{in_progress, Ticket}
use ahmed_sila.Clients.Tabs.{reply_disabled, solve_disabled}
use ahmed_sila.Clients.Tabs.Page.{send_reply, Busy, tickets_tab}
use ahmed_sila.Clients.Tabs.Page.Laws.{IsSound, tickets_tab-IsSound}

abbrev ticket : Ticket
ticket = record {
  id = txt "t1";
  client_id = txt "1";
  subject = txt "Не приходит код";
  status = in_progress;
  assignee = none;
  last_message_at = txt "2026-08-14T09:12:00";
  messages = [];
}

abbrev as_is : Text → Text
as_is t = t

abbrev busy : Busy
busy = record { replying = false; resolving = false }

-- The sixth part of the thread is its button that sends.
pressed_send :
    gives
      (press 6)
      (tickets_tab as_is as_is false (some (ticket ∷ [])) (some (txt "t1")) (txt "Проверили") busy)
    ≡ some (send_reply (txt "t1") (txt "Проверили"))
unfolding gives tickets_tab text_eq reply_disabled solve_disabled trim
pressed_send = refl

tickets_tab-IsSound_example : IsSound (ticket ∷ []) (send_reply (txt "t1") (txt "Проверили"))
tickets_tab-IsSound_example =
    tickets_tab-IsSound as_is as_is (ticket ∷ []) (txt "Проверили") busy (press 6) (some (txt "t1"))
      (send_reply (txt "t1") (txt "Проверили")) pressed_send

-- ===== src/Clients/Demo/Tickets.antt =====
-- web/src/features/clients/mock.ts: the tickets of the demo client that has some.
use ahmed_sila.Base.{none, some, List, [], ◌∷◌}
use ahmed_sila.Text.{Text, txt}
use ahmed_sila.Clients.Types.{
  opened, in_progress, resolved, closed, client, team, MessageAuthor, TicketMessage, Ticket,
}

-- `SHOWCASE_ID`
abbrev pub showcase_id : Text
showcase_id = txt "5"

abbrev said : Text → MessageAuthor → Text → Text → Text → TicketMessage
said id author name at text = record {
  id = id;
  author = author;
  author_name = name;
  sent_at = at;
  text = text;
}

abbrev pub showcase_tickets : List Ticket
showcase_tickets =
    record {
      id = txt "t1";
      client_id = showcase_id;
      subject = txt "Не приходит код подтверждения на почту";
      status = in_progress;
      assignee = some (txt "Айдар К.");
      last_message_at = txt "2026-08-14T11:02:00";
      messages =
          said (txt "m1") client (txt "Ержан Сапаров") (txt "2026-08-13T17:20:00") (
            txt
              "Добрый день. Завели нового администратора смены, а код на почту не приходит. Проверяли спам, пусто.")
          ∷ said (txt "m2") team (txt "Айдар К.") (txt "2026-08-14T09:05:00") (
              txt
                "Здравствуйте. Отправили код повторно на e.saparov@bereke.kz. Проверьте, пожалуйста, и скажите, дошло ли.")
          ∷ said (txt "m3") client (txt "Ержан Сапаров") (txt "2026-08-14T10:41:00")
              (txt "Пришло, спасибо. Но у второго сотрудника та же проблема, почта на mail.ru.")
          ∷ said (txt "m4") team (txt "Айдар К.") (txt "2026-08-14T11:02:00")
              (txt "Понял, проверяем доставку на mail.ru. Ответим сегодня до конца дня.")
          ∷ [];
    }
    ∷ record {
      id = txt "t2";
      client_id = showcase_id;
      subject = txt "Добавить сотрудника сверх лимита тарифа";
      status = opened;
      assignee = none;
      last_message_at = txt "2026-08-13T12:14:00";
      messages =
          said (txt "m5") client (txt "Ержан Сапаров") (txt "2026-08-13T12:14:00")
            (txt "Нужно добавить ещё 4 сотрудника, но система не даёт. Можно расширить лимит?")
          ∷ [];
    }
    ∷ record {
      id = txt "t3";
      client_id = showcase_id;
      subject = txt "Ошибка при входе оператора смены";
      status = resolved;
      assignee = some (txt "Динара Т.");
      last_message_at = txt "2026-08-07T07:55:00";
      messages =
          said (txt "m6") client (txt "Ержан Сапаров") (txt "2026-08-06T08:30:00")
            (txt "Оператор не может войти, пишет, что сессия истекла.")
          ∷ said (txt "m7") team (txt "Динара Т.") (txt "2026-08-06T09:12:00") (
              txt
                "Сессия истекает через 15 минут без активности — попросите войти снова. Если повторится, напишите точное время.")
          ∷ said (txt "m8") client (txt "Ержан Сапаров") (txt "2026-08-07T07:55:00")
              (txt "Всё работает, больше не повторялось.")
          ∷ [];
    }
    ∷ record {
      id = txt "t4";
      client_id = showcase_id;
      subject = txt "Перенос данных из старой системы";
      status = closed;
      assignee = some (txt "Айдар К.");
      last_message_at = txt "2026-06-12T11:40:00";
      messages =
          said (txt "m9") client (txt "Ержан Сапаров") (txt "2026-06-10T15:02:00")
            (txt "Можно перенести список сотрудников из нашей прошлой программы?")
          ∷ said (txt "m10") team (txt "Айдар К.") (txt "2026-06-12T11:40:00")
              (txt "Перенесли 82 сотрудника, проверьте список в своей системе.")
          ∷ [];
    }
    ∷ []

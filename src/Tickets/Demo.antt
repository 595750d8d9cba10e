-- ===== src/Tickets/Demo.antt =====
-- web/src/features/tickets/mock.ts: the demo tickets.
use ahmed_sila.Base.{Option, none, some, List, [], ◌∷◌}
use ahmed_sila.Text.{Text, txt}
use ahmed_sila.Clients.Types.{
  TicketStatus, opened, in_progress, resolved, closed, MessageAuthor, client, team, TicketMessage,
}
use ahmed_sila.Tickets.Types.{TicketPriority, low, normal, high, GlobalTicketDetail}

abbrev said : Text → MessageAuthor → Text → Text → Text → TicketMessage
said id author author_name sent_at text = record {
  id = id;
  author = author;
  author_name = author_name;
  sent_at = sent_at;
  text = text;
}

abbrev ticket :
    Text
    → Text
    → Text
    → Text
    → Text
    → TicketStatus
    → TicketPriority
    → Option Text
    → Text
    → Text
    → List TicketMessage
    → GlobalTicketDetail
ticket id client_id client_name city subject status priority assignee contact last messages =
    record {
      ticket = record {
        id = id;
        client_id = client_id;
        client_name = client_name;
        city = city;
        subject = subject;
        status = status;
        priority = priority;
        assignee = assignee;
        last_message_at = last;
        contact_name = contact;
      };
      messages = messages;
    }

-- `TICKETS`
abbrev pub demo_tickets : List GlobalTicketDetail
demo_tickets =
    ticket (txt "t-1") (txt "5") (txt "Береке Супермаркет") (txt "Шымкент")
      (txt "Не приходит код подтверждения на почту") in_progress high (some (txt "Айдар К."))
      (txt "Ержан Сапаров") (txt "2026-08-14T11:02:00")
      (said (txt "t1-m1") client (txt "Ержан Сапаров") (txt "2026-08-13T17:20:00") (
          txt
            "Добрый день. Завели нового администратора смены, а код на почту не приходит. Проверяли спам, пусто.")
        ∷ said (txt "t1-m2") team (txt "Айдар К.") (txt "2026-08-14T09:05:00") (
            txt "Здравствуйте. Отправили код повторно. Проверьте, пожалуйста, и скажите, дошло ли.")
        ∷ said (txt "t1-m3") client (txt "Ержан Сапаров") (txt "2026-08-14T10:41:00")
            (txt "Пришло, спасибо. Но у второго сотрудника та же проблема, почта на mail.ru.")
        ∷ said (txt "t1-m4") team (txt "Айдар К.") (txt "2026-08-14T11:02:00")
            (txt "Понял, проверяем доставку на mail.ru. Ответим сегодня до конца дня.")
        ∷ [])
    ∷ ticket (txt "t-2") (txt "7") (txt "Смак на Абая") (txt "Алматы")
        (txt "Добавить сотрудника сверх лимита тарифа") opened normal (none) (txt "Асель Нурланова")
        (txt "2026-08-13T18:05:00")
        (said (txt "t2-m1") client (txt "Асель Нурланова") (txt "2026-08-13T18:05:00")
            (txt "Нужно добавить ещё 4 сотрудника, но система не даёт. Можно расширить лимит?")
          ∷ [])
    ∷ ticket (txt "t-3") (txt "1") (txt "Магнум Экспресс") (txt "Алматы")
        (txt "Оператор не видит заявки после смены") opened high (none) (txt "Дамир Ералиев")
        (txt "2026-08-13T14:30:00")
        (said (txt "t3-m1") client (txt "Дамир Ералиев") (txt "2026-08-13T14:30:00")
            (txt "После пересдачи смены заявки пропадают из списка у оператора. Скриншот приложим.")
          ∷ [])
    ∷ ticket (txt "t-4") (txt "8") (txt "Гросс Опт") (txt "Павлодар")
        (txt "Просим перенести дату списания") in_progress normal (some (txt "Динара Т."))
        (txt "Ольга Ким") (txt "2026-08-12T09:40:00")
        (said (txt "t4-m1") client (txt "Ольга Ким") (txt "2026-08-11T10:15:00")
            (txt "Можно перенести списание на 20 число? Бюджет закрывается позже.")
          ∷ said (txt "t4-m2") team (txt "Динара Т.") (txt "2026-08-12T09:40:00")
              (txt "Передали в биллинг, до конца недели подтвердим дату.")
          ∷ [])
    ∷ ticket (txt "t-5") (txt "4") (txt "Айсберг Маркет") (txt "Астана")
        (txt "Восстановить доступ после приостановки") in_progress high (some (txt "Айдар К."))
        (txt "Тимур Абдиров") (txt "2026-08-12T11:05:00")
        (said (txt "t5-m1") client (txt "Тимур Абдиров") (txt "2026-08-12T08:20:00")
            (txt "Оплату провели вчера, доступ всё ещё закрыт.")
          ∷ said (txt "t5-m2") team (txt "Айдар К.") (txt "2026-08-12T11:05:00")
              (txt "Видим платёж, возобновим доступ в течение часа.")
          ∷ [])
    ∷ ticket (txt "t-6") (txt "10") (txt "Небо Маркет") (txt "Усть-Каменогорск")
        (txt "Ошибка при входе оператора смены") resolved normal (some (txt "Динара Т."))
        (txt "Марат Жунусов") (txt "2026-08-07T07:55:00")
        (said (txt "t6-m1") client (txt "Марат Жунусов") (txt "2026-08-06T08:30:00")
            (txt "Оператор не может войти, пишет, что сессия истекла.")
          ∷ said (txt "t6-m2") team (txt "Динара Т.") (txt "2026-08-06T09:12:00") (
              txt
                "Сессия истекает через 15 минут без активности — попросите войти снова. Если повторится, напишите точное время.")
          ∷ said (txt "t6-m3") client (txt "Марат Жунусов") (txt "2026-08-07T07:55:00")
              (txt "Всё работает, больше не повторялось.")
          ∷ [])
    ∷ ticket (txt "t-7") (txt "12") (txt "Титан Ритейл") (txt "Атырау")
        (txt "Как поменять владельца аккаунта") resolved low (some (txt "Сауле М."))
        (txt "Ирина Пак") (txt "2026-08-04T13:02:00")
        (said (txt "t7-m1") client (txt "Ирина Пак") (txt "2026-08-04T12:10:00")
            (txt "Владелец сменился, как переоформить учётку?")
          ∷ said (txt "t7-m2") team (txt "Сауле М.") (txt "2026-08-04T13:02:00")
              (txt "Пришлите новые ФИО и телефон — поменяем на нашей стороне.")
          ∷ [])
    ∷ ticket (txt "t-8") (txt "5") (txt "Береке Супермаркет") (txt "Шымкент")
        (txt "Перенос данных из старой системы") closed low (some (txt "Айдар К."))
        (txt "Ержан Сапаров") (txt "2026-06-12T11:40:00")
        (said (txt "t8-m1") client (txt "Ержан Сапаров") (txt "2026-06-10T15:02:00")
            (txt "Можно перенести список сотрудников из нашей прошлой программы?")
          ∷ said (txt "t8-m2") team (txt "Айдар К.") (txt "2026-06-12T11:40:00")
              (txt "Перенесли 82 сотрудника, проверьте список в своей системе.")
          ∷ [])
    ∷ []

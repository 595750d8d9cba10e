-- ===== src/Clients/Tabs/Page.antt =====
-- web/src/features/clients/tabs: ClientTicketsTab.tsx, ClientJournalTab.tsx and ClientOverviewTab.tsx as they are drawn.
-- `date`, `date_time`, `number` and `relative` are the formats of lib/format.ts.
pub mod Laws
use ahmed_sila.Base.{
  ℕ, Bool, true, false, Option, none, some, List, [], ◌∷◌, ◌++◌, map, find, if◌then◌else◌,
}
use ahmed_sila.Text.{Text, txt}
use ahmed_sila.Markup.{
  Node, heading, span, skeleton, link, button, row_button, field, Markup, join, panel,
  definition_list, error_state, ticket_status_dot,
}
use ahmed_sila.Clients.Types.{TicketMessage, Ticket, JournalEntry, ClientDetail}
use ahmed_sila.Clients.Tabs.{
  is_open, or_name, assignee_text, reply_disabled, solve_disabled, journal_row, metrics,
}

-- What the handlers of the tabs do; a mutation has the id of the ticket whose thread is drawn.
pub data Event : Type 0 where
  refetch back : Event
  open_ticket typed : Text → Event
  send_reply : (id : Text) → (text : Text) → Event
  mark_resolved : (id : Text) → Event

abbrev pub column_headers : Markup Event
column_headers =
    span (txt "Тема")
    ∷ span (txt "Статус")
    ∷ span (txt "Назначен")
    ∷ span (txt "Последнее сообщение")
    ∷ []

abbrev pub ticket_nodes : (Text → Text) → Ticket → Markup Event
ticket_nodes date t =
    row_button (open_ticket t.id) ∷ span t.subject ∷ ticket_status_dot t.status
    ++ (span (or_name t.assignee (txt "Не назначен")) ∷ span (date t.last_message_at) ∷ [])

abbrev pub tickets_list : (Text → Text) → List Ticket → Markup Event
tickets_list date [] =
    span (txt "Обращений пока нет")
    ∷ span (txt "Когда клиент напишет в поддержку, обращение появится здесь.")
    ∷ []
tickets_list date (t ∷ ts) = column_headers ++ join (map (ticket_nodes date) (t ∷ ts))

-- The mutations of the thread that are under way.
pub record Busy : Type 0 where
  pub replying : Bool
  pub resolving : Bool

abbrev pub message_nodes : (Text → Text) → TicketMessage → Markup Event
message_nodes date_time m = span m.author_name ∷ span (date_time m.sent_at) ∷ span m.text ∷ []

abbrev pub reply_form : Ticket → Text → Busy → Markup Event
reply_form t reply busy =
    field reply typed
    ∷ button (txt "Отправить") (reply_disabled reply busy.replying) (send_reply t.id reply)
    ∷ button (txt "Отметить решённым") (solve_disabled t.status busy.resolving) (mark_resolved t.id)
    ∷ []

abbrev pub ticket_thread : (Text → Text) → Ticket → Text → Busy → Markup Event
ticket_thread date_time t reply busy =
    button (txt "← Все обращения") false back ∷ span t.subject ∷ ticket_status_dot t.status
    ++ (span (assignee_text t) ∷ join (map (message_nodes date_time) t.messages)
        ++ reply_form t reply busy)

module _ (date date_time : Text → Text) where
  abbrev pub thread_or_list : Option Ticket → List Ticket → Text → Busy → Markup Event
  thread_or_list (some t) ts reply busy = ticket_thread date_time t reply busy
  thread_or_list none ts reply busy = tickets_list date ts

  unfoldable pub tickets_tab :
      (is_error : Bool)
      → Option (List Ticket)
      → (opened_id : Option Text) → (reply : Text) → Busy
      → Markup Event
  tickets_tab true data_ opened_id reply busy = error_state refetch
  tickets_tab false none opened_id reply busy = skeleton ∷ []
  tickets_tab false (some ts) opened_id reply busy =
      thread_or_list (find (is_open opened_id) ts) ts reply busy

-- `Metric`: the value, or a skeleton, and the label.
abbrev pub metric : Text × Option Text → Markup Event
metric (label, none) = skeleton ∷ span label ∷ []
metric (label, some value) = span value ∷ span label ∷ []

abbrev pub procurement_panel : Markup Event
procurement_panel =
    panel (txt "Закупки у поставщиков") (some (txt "за 30 дней"))
      (button (txt "Обновить") true refetch ∷ [])
      (span (txt "Товар")
        ∷ span (txt "Кол-во")
        ∷ span (txt "Цена закупки")
        ∷ span (txt "Данных о закупках пока нет")
        ∷ span (
            txt
              "Здесь появятся товары, количество и цены из заявок операторов, когда клиент начнёт оформлять закупки у поставщиков.")
        ∷ [])

abbrev pub contacts_nodes : Option ClientDetail → Markup Event
contacts_nodes none = skeleton ∷ skeleton ∷ skeleton ∷ []
contacts_nodes (some c) = definition_list (
    (txt "Владелец", span c.owner_name ∷ [])
    ∷ (txt "Телефон", span c.phone ∷ [])
    ∷ (txt "Email", link (txt "mailto:" ++ c.email) c.email ∷ [])
    ∷ [])

abbrev pub overview_tab :
    (ℕ → Text) → (Text → Text) → (Text → Text) → Option ClientDetail → Markup Event
overview_tab number date_time relative c =
    join (map metric (metrics number date_time relative c))
    ++ (procurement_panel ++ panel (txt "Контакты") none [] (contacts_nodes c))

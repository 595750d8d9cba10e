-- ===== src/Clients/Access/Page.antt =====
-- web/src/features/clients/tabs/ClientAccessTab.tsx: the tab of the access as it is drawn, and what its buttons ask
-- of the backend. `date` is `formatDate` and `lower` is `toLowerCase`.
pub mod Laws
use ahmed_sila.Base.{
  ℕ, Bool, true, false, not, Option, none, some, List, [], ◌∷◌, ◌++◌, if◌then◌else◌,
}
use ahmed_sila.Text.{Text, txt}
use ahmed_sila.Http.{Network}
use ahmed_sila.Markup.{
  Gesture, gives, Node, heading, span, skeleton, button, field, Markup, when, panel,
  definition_list, modal, client_status_dot,
}
use ahmed_sila.Clients.Types.{ClientDetail, ActivationCode, plan_key}
use ahmed_sila.Clients.Api.{suspend_client, resume_client, issue_activation_code, delete_client}
use ahmed_sila.Clients.Store.{get_client}
use ahmed_sila.Clients.Card.{is_paused}
use ahmed_sila.Clients.Access.{
  Panel, Danger, on_suspend, on_access, access_disabled, access_text, shows_form, can_delete,
  delete_disabled,
}
use ahmed_sila.Clients.Journey.{At, send_reason, Press, act, acts}

-- What the handlers of the tab do.
pub data Event : Type 0 where
  issue copy access suspend close_form open_confirm close_confirm delete : Event
  typed_reason typed_name : Text → Event

-- The calls that are under way.
pub record Busy : Type 0 where
  pub issuing : Bool
  pub suspending : Bool
  pub resuming : Bool
  pub removing : Bool

abbrev pub loading_panels : Markup Event
loading_panels =
    panel (txt "Подписка") none [] (skeleton ∷ []) ++ panel (txt "Доступ") none [] (skeleton ∷ [])

abbrev pub code_box : (Text → Text) → (copied : Bool) → Option ActivationCode → Markup Event
code_box date copied none = []
code_box date copied (some a) =
    span a.code
    ∷ span (txt "действует до ")
    ∷ span (date a.expires_at)
    ∷ button (if copied then txt "Скопировано" else txt "Скопировать") false copy
    ∷ []

abbrev pub reason_form : (suspending : Bool) → Panel → Markup Event
reason_form suspending p =
    span (txt "Причина приостановки")
      ∷ field p.reason typed_reason
      ∷ when p.reason_missing (span (txt "Укажите причину — она попадёт в журнал действий") ∷ [])
    ++ (button (txt "Приостановить") suspending suspend
        ∷ button (txt "Отмена") false close_form
        ∷ [])

unfoldable pub access_panel :
    (Text → Text) → (Text → Text) → ClientDetail → Panel → Busy → Markup Event
access_panel date lower c p busy =
    let paused = is_paused (some c) in
    panel (txt "Доступ") none [] (
      button (txt "Сгенерировать новый код подтверждения") busy.issuing issue
        ∷ span (
            txt
              "Нужен, если старый код не использовали или клиент потерял доступ. Код одноразовый, действует 7 дней.")
        ∷ code_box date p.copied c.activation_code
      ++ (button (if paused then txt "Возобновить доступ" else txt "Приостановить доступ")
            (access_disabled busy.suspending busy.resuming) access
          ∷ span (access_text lower paused c.suspended_reason)
          ∷ when (shows_form paused p) (reason_form busy.suspending p)))

abbrev pub confirm_modal : Text → Bool → Danger → Markup Event
confirm_modal name removing d =
    modal (txt "Удалить клиента") close_confirm
      (button (txt "Удалить клиента") (delete_disabled name removing d) delete
        ∷ button (txt "Отмена") false close_confirm
        ∷ [])
      (span (
          txt
            "Будут удалены все данные клиента, его сотрудники потеряют доступ, обращения и журнал действий останутся только в общем архиве. Действие необратимо.")
        ∷ span (txt "Введите название клиента полностью: ")
        ∷ span name
        ∷ field d.typed_name typed_name
        ∷ [])

unfoldable pub danger_panel : Text → Danger → (removing : Bool) → Markup Event
danger_panel name d removing = panel (txt "Необратимые действия") none [] (
    span (txt "Удалить клиента")
    ∷ span (txt "Клиент и его сотрудники потеряют доступ, данные восстановить нельзя.")
    ∷ button (txt "Удалить клиента") false open_confirm
    ∷ when d.confirm_open (confirm_modal name removing d))

unfoldable pub tab :
    (Text → Text) → (Text → Text) → Option ClientDetail → Panel → Danger → Busy → Markup Event
unfolding access_panel danger_panel
tab date lower none p d busy = loading_panels
tab date lower (some c) p d busy =
    panel (txt "Подписка") none [] (
      definition_list (
        (txt "Тариф", span (plan_key c.plan) ∷ [])
        ∷ (txt "Дата начала", span (date c.created_at) ∷ [])
        ∷ (txt "Статус", client_status_dot c.status)
        ∷ []))
    ++ (access_panel date lower c p busy ++ danger_panel c.name d busy.removing)

-- What a handler of the tab of the client `id` asks of the store in memory; the local state is that of the tab
-- when the button is pressed.
module _ (n : Network) (lower : Text → Text) (iso : ℕ → Text) (encode : Text → Text) where
  unfoldable pub sends :
      ℕ
      → (ℕ → ℕ)
      → Text
      → ClientDetail
      → Panel
      → Danger
      → Event
      → At n lower iso encode
      → At n lower iso encode
  sends now draw id c p d issue s = (issue_activation_code n true lower iso encode now draw id s).1
  sends now draw id c p d access s =
      if is_paused (some c) then (resume_client n true lower iso encode now id s).1 else s
  sends now draw id c p d suspend s = send_reason n lower iso encode now id s (on_suspend p).1
  sends now draw id c p d delete s =
      if can_delete c.name d then (delete_client n true lower iso encode id s).1 else s
  sends now draw id c p d e s = s

  abbrev pub answer_event :
      ℕ
      → (ℕ → ℕ)
      → Text
      → Option ClientDetail
      → Panel
      → Danger
      → Option Event
      → At n lower iso encode
      → At n lower iso encode
  answer_event now draw id none p d o s = s
  answer_event now draw id (some c) p d none s = s
  answer_event now draw id (some c) p d (some e) s = sends now draw id c p d e s

-- A gesture on the tab of the client `id`, with its local state and the calls that are under way.
pub record Step : Type 0 where
  pub id : Text
  pub now : ℕ
  pub draw : ℕ → ℕ
  pub panel : Panel
  pub danger : Danger
  pub busy : Busy
  pub gesture : Gesture

module _ (n : Network) (date lower : Text → Text) (iso : ℕ → Text) (encode : Text → Text) where
  -- The tab shows the client that the store has.
  unfoldable pub step : Step → At n lower iso encode → At n lower iso encode
  step t s =
      let c = get_client t.id s.1 in
      answer_event n lower iso encode t.now t.draw t.id c t.panel t.danger
        (gives t.gesture (tab date lower c t.panel t.danger t.busy)) s

  abbrev pub steps : List Step → At n lower iso encode → At n lower iso encode
  steps [] s = s
  steps (t ∷ ts) s = steps ts (step t s)

-- ===== src/Overview/Demo.antt =====
-- web/src/features/overview/mock.ts: the demo events. `iso` is `toISOString`, and `now` the instant at which
-- the module is loaded, in milliseconds.
use ahmed_sila.Base.{ℕ, ◌-◌, ◌*◌, List, [], ◌∷◌}
use ahmed_sila.Text.{Text, txt}
use ahmed_sila.Overview.Types.{
  OverviewEventKind, client_created, ticket_opened, access_paused, client_activated, other,
  OverviewEvent,
}

module _ (iso : ℕ → Text) (now : ℕ) where
  abbrev pub hours_ago : ℕ → Text
  hours_ago h = iso (now - h * 60 * 60000)

  abbrev event : Text → Text → OverviewEventKind → Text → OverviewEvent
  event id occurred_at kind text = record {
    id = id;
    occurred_at = occurred_at;
    kind = kind;
    text = text;
  }

  -- `EVENTS`
  abbrev pub demo_events : List OverviewEvent
  demo_events =
      event (txt "e1") (hours_ago 3) ticket_opened
        (txt "Новое обращение от «Береке Супермаркет»: не приходит код подтверждения")
      ∷ event (txt "e2") (hours_ago 4) other
          (txt "Айдар сгенерировал новый код подтверждения для «Береке Супермаркет»")
      ∷ event (txt "e3") (hours_ago 6) client_created
          (txt "Новый клиент: «Ак Ниет Маркет», Актобе, тариф Starter")
      ∷ event (txt "e4") (hours_ago 21) ticket_opened
          (txt "Новое обращение от «Смак на Абая»: добавить сотрудника сверх лимита")
      ∷ event (txt "e5") (hours_ago 24) access_paused
          (txt "Динара приостановила доступ «Наурыз Продукты», причина: просрочка оплаты")
      ∷ event (txt "e6") (hours_ago 27) client_activated
          (txt "«Титан Ритейл» перешёл с триала на тариф Growth")
      ∷ event (txt "e7") (hours_ago 43) client_created
          (txt "Новый клиент: «Родник», Актау, тариф Starter")
      ∷ []

-- ===== src/Settings/Page.antt =====
-- web/src/features/settings/SettingsPage.tsx: the page as it is drawn, and what its handlers do. `date_time` is
-- `formatDateTime`.
use ahmed_sila.Base.{Bool, false, Option, none, some, List, [], ◌∷◌, ◌++◌, map}
use ahmed_sila.Text.{Text, txt}
use ahmed_sila.Shell.{Tone, muted}
use ahmed_sila.Shell
use ahmed_sila.Markup.{
  heading, span, tone_dot, skeleton, button, field, Markup, join, repeated, error_state, panel,
}
use ahmed_sila.Clients.Types.{plan_key}
use ahmed_sila.Settings.Types.{PlanDetail, Settings, template_vars}
use ahmed_sila.Settings.Screen.{
  State, type_text, restore_default, save_disabled, saved_at, render_preview, PlanDot, ink_muted,
  accent, plan_dot, View, failed, loading, panels, view,
}

-- What the handlers of the page do; the mutation has the text of the editor, the button that restores
-- the data that were drawn.
pub data Event : Type 0 where
  refetch : Event
  typed save : Text → Event
  restore : Settings → Event

abbrev pub plan_tone : PlanDot → Tone
plan_tone ink_muted = muted
plan_tone accent = Shell.accent

abbrev pub plan_headers : Markup Event
plan_headers =
    span (txt "Тариф")
    ∷ span (txt "Сотрудников")
    ∷ span (txt "Цена, ₸/мес")
    ∷ span (txt "Что входит")
    ∷ []

abbrev pub plan_nodes : PlanDetail → Markup Event
plan_nodes p =
    tone_dot (plan_tone (plan_dot p))
    ∷ span (plan_key p.key)
    ∷ span p.limit
    ∷ span p.price
    ∷ span p.includes
    ∷ []

-- `PlansTable`
abbrev pub plans_table : List PlanDetail → Markup Event
plans_table ps = plan_headers ++ join (map plan_nodes ps)

-- `PlansSkeleton`
abbrev pub plans_skeleton : Markup Event
plans_skeleton = repeated 3 (skeleton ∷ [])

abbrev pub plans_panel : Markup Event → Markup Event
plans_panel children =
    panel (txt "Тарифные планы") (some (txt "справочно · меняются при изменении бизнес-условий")) []
      children

abbrev pub messages_panel : Markup Event → Markup Event
messages_panel children =
    panel (txt "Шаблоны сообщений") (some (txt "уходит клиенту вместе с кодом подтверждения")) []
      children

abbrev pub variables : Markup Event
variables =
    span (txt "Подстановки") ∷ map (λ (v : Text × Text). span v.0) template_vars
    ++ (span (txt "подставляются автоматически при отправке") ∷ [])

module _ (date_time : Text → Text) where
  abbrev pub saved_nodes : Option Text → Markup Event
  saved_nodes none = []
  saved_nodes (some t) = span (txt "Сохранено " ++ date_time t) ∷ []

  abbrev pub buttons : Settings → State → Bool → Markup Event
  buttons d st saving =
      button (txt "Сохранить") (save_disabled (some d) st saving) (save st.text)
      ∷ button (txt "Вернуть исходный текст") false (restore d)
      ∷ saved_nodes (saved_at d st)

  abbrev pub editor : Settings → State → Bool → Markup Event
  editor d st saving =
      span (txt "Сообщение с кодом подтверждения") ∷ field st.text typed ∷ variables
      ++ (span (txt "Предпросмотр") ∷ span (render_preview st.text) ∷ buttons d st saving)

  abbrev pub body : View → State → Bool → Markup Event
  body failed st saving = error_state refetch
  body loading st saving = plans_panel plans_skeleton ++ messages_panel (skeleton ∷ skeleton ∷ [])
  body (panels d) st saving =
      plans_panel (
        plans_table d.plans
        ++ span (
            txt
              "Эти же описания показываются подсказкой под выбором тарифа в форме создания клиента.")
          ∷ [])
      ++ messages_panel (editor d st saving)

  -- `saving` is `saveTemplate.isPending`.
  unfoldable pub page : (is_error : Bool) → Option Settings → State → (saving : Bool) → Markup Event
  page is_error data_now st saving =
      heading (txt "Настройки")
      ∷ span (txt "Тарифные планы и шаблоны сообщений клиентам")
      ∷ body (view is_error data_now) st saving

-- The editor's state after a handler, and the text that it gives to the mutation.
unfoldable pub act : Event → State → State × Option Text
act refetch st = (st, none)
act (typed v) st = (type_text v st, none)
act (save t) st = (st, some t)
act (restore d) st = (restore_default d st, none)

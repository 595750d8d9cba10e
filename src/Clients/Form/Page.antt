-- ===== src/Clients/Form/Page.antt =====
-- web/src/features/clients/NewClientPage.tsx: the form of a new client as it is drawn, what its handlers do, and
-- a visit of it with the answers that it waits for. `date` is `formatDate`, `lower` is `toLowerCase`.
pub mod Laws
use ahmed_sila.Base.{
  ℕ, Bool, true, false, not, Option, none, some, List, [], ◌∷◌, ◌++◌, map, if◌then◌else◌,
}
use ahmed_sila.Text.{Text, txt}
use ahmed_sila.Markup.{
  Choice, Gesture, gives, Node, heading, span, tone_dot, button, field, Markup, join, when,
  choice_group, panel, modal,
}
use ahmed_sila.Clients.Types.{
  ClientPlan, starter, growth, enterprise, plan_key, plans, ActivationCode, ClientDetail, NewClient,
}
use ahmed_sila.Clients.Form.{
  FieldKey, fields, Start, with_trial, at_once, Form, empty_form, EmailCheck, trial_error, is_blank,
  on_submit, footer, set_value, touch, set_trial_days, reset_form, shown_error,
}
use ahmed_sila.Clients.Created.{field_spec, status_choices, copy_label}

-- What the handlers of the page do.
pub data Event : Type 0 where
  typed : FieldKey → Text → Event
  set_plan : ClientPlan → Event
  set_start : Start → Event
  typed_days : Text → Event
  submit cancel go_to_client create_another copy send_to_whats_app : Event

-- What `useCreateClient` has: `isPending`, `isError` and `data`.
pub data Creation : Type 0 where
  idle pending failed : Creation
  done : ClientDetail → Creation

abbrev pub is_pending : Creation → Bool
is_pending pending = true
is_pending _ = false

abbrev pub is_failed : Creation → Bool
is_failed failed = true
is_failed _ = false

-- The line under a field: the error, or else the hint.
abbrev pub error_or_hint : Text → Option Text → Markup Event
error_or_hint (c ∷ s) hint = span (c ∷ s) ∷ []
error_or_hint [] none = []
error_or_hint [] (some hint) = span hint ∷ []

-- `FormRow` of a field
abbrev pub form_row : Form → EmailCheck → FieldKey → Markup Event
form_row f q key =
    let (label, placeholder, hint) = field_spec key in
    span label ∷ field (f.values key) (typed key) ∷ error_or_hint (shown_error f q key) hint

abbrev plan_eq : ClientPlan → ClientPlan → Bool
plan_eq starter starter = true
plan_eq growth growth = true
plan_eq enterprise enterprise = true
plan_eq _ _ = false

abbrev start_eq : Start → Start → Bool
start_eq with_trial with_trial = true
start_eq at_once at_once = true
start_eq _ _ = false

-- `PLAN_CHOICES` and `STATUS_CHOICES`, with the chosen one.
abbrev pub plan_choice : Form → ClientPlan × Text → Choice Event
plan_choice f (p, hint) = record {
  label = plan_key p;
  selected = plan_eq p f.plan;
  on_choose = set_plan p;
}

abbrev pub start_choice : Form → Start × Text → Choice Event
start_choice f (s, label) = record {
  label = label;
  selected = start_eq s f.start;
  on_choose = set_start s;
}

abbrev plan_hint : Form → List (ClientPlan × Text) → Markup Event
plan_hint f [] = []
plan_hint f ((p, hint) ∷ ps) =
    let rest = plan_hint f ps in if plan_eq p f.plan then span hint ∷ [] else rest

abbrev pub plan_row : Form → Markup Event
plan_row f = span (txt "Тариф") ∷ choice_group (map (plan_choice f) plans) ++ plan_hint f plans

abbrev pub trial_days_input : Form → Start → Markup Event
trial_days_input f with_trial =
    span (txt "Длительность триала, дней") ∷ field f.trial_days typed_days ∷ []
trial_days_input f at_once = []

abbrev pub start_note : Form → Start → Markup Event
start_note f at_once = span (txt "Клиент сразу получит статус «Активен», без пробного периода") ∷ []
start_note f with_trial =
    when f.submitted (when (not (is_blank (trial_error f))) (span (trial_error f) ∷ []))

abbrev pub start_row : Form → Markup Event
start_row f =
    span (txt "Статус при создании") ∷ choice_group (map (start_choice f) status_choices)
    ++ (trial_days_input f f.start ++ start_note f f.start)

abbrev pub footer_nodes : Option (Text × Bool) → Markup Event
footer_nodes none = []
footer_nodes (some (text, muted)) = span text ∷ []

abbrev pub buttons : Form → EmailCheck → Creation → Markup Event
buttons f q c =
    button (txt "Создать клиента") (is_pending c) submit
    ∷ button (txt "Отмена") false cancel
    ∷ footer_nodes (footer (is_failed c) f q)

abbrev pub code_nodes : (Text → Text) → (copied : Bool) → Option ActivationCode → Markup Event
code_nodes date copied none = []
code_nodes date copied (some a) =
    span a.code
    ∷ span (txt "Действует 7 дней, до ")
    ∷ span (date a.expires_at)
    ∷ button (copy_label copied) false copy
    ∷ button (txt "Отправить в WhatsApp") false send_to_whats_app
    ∷ []

abbrev pub code_note : Markup Event
code_note =
    span (
      txt
        "Код одноразовый. Если владелец не успел войти за 7 дней, откройте карточку клиента и сгенерируйте новый код.")
    ∷ []

abbrev pub modal_footer : Markup Event
modal_footer =
    button (txt "Перейти к клиенту") false go_to_client
    ∷ button (txt "Создать ещё одного") false create_another
    ∷ []

-- `ActivationCodeModal`; its × also goes to the client.
abbrev pub created_modal : (Text → Text) → (copied : Bool) → Creation → Markup Event
created_modal date copied (done c) = modal (txt "Клиент создан") go_to_client modal_footer (
    span (txt "Передайте код владельцу — ")
      ∷ span c.owner_name
      ∷ span (txt " — для первого входа в систему.")
      ∷ code_nodes date copied c.activation_code
    ++ code_note)
created_modal date copied _ = []

unfoldable pub page : (Text → Text) → Form → EmailCheck → Creation → (copied : Bool) → Markup Event
page date f q c copied =
    heading (txt "Создать клиента")
      ∷ span (txt "После сохранения вы получите код подтверждения для первого входа владельца")
      ∷ panel (txt "Данные магазина") none []
          (join (map (form_row f q) fields) ++ (plan_row f ++ (start_row f ++ buttons f q c)))
    ++ created_modal date copied c

-- A visit: the state of the page, the answer about the email, and the log of what was sent; `gone` is a
-- way to another page.
pub data Mark : Type 0 where
  sent : NewClient → Mark
  answered : Mark

pub record Visit : Type 0 where
  pub form : Form
  pub check : EmailCheck
  pub creation : Creation
  pub copied : Bool
  pub gone : Bool
  pub log : List Mark

abbrev pub with_form : Form → Visit → Visit
with_form f v = record v { form = f }

abbrev pub send_client : Form × Option NewClient → Visit → Visit
send_client (f, none) v = record v { form = f }
send_client (f, some i) v = record v { form = f; creation = pending; log = sent i ∷ v.log }

unfoldable pub act : (Text → Text) → Event → Visit → Visit
act lower (typed key t) v = with_form (set_value key t v.form) v
act lower (set_plan p) v = with_form (record v.form { plan = p }) v
act lower (set_start s) v = with_form (record v.form { start = s }) v
act lower (typed_days t) v = with_form (set_trial_days t v.form) v
act lower submit v = send_client (on_submit lower v.form v.check) v
act lower cancel v = record v { gone = true }
act lower go_to_client v = record v { gone = true }
act lower create_another v = record v { form = reset_form v.form; creation = idle }
act lower copy v = record v { copied = true }
act lower send_to_whats_app v = v

-- A field that is left, an answer about an email, the end of a creation, and the end of the copied mark.
pub data Happening : Type 0 where
  gesture : Gesture → Happening
  left : FieldKey → Happening
  checked : EmailCheck → Happening
  created : Option ClientDetail → Happening
  copy_ends : Happening

abbrev pub outcome : Option ClientDetail → Creation
outcome none = failed
outcome (some c) = done c

-- An answer comes to a creation that is under way.
abbrev pub end_creation : Creation → Option ClientDetail → Visit → Visit
end_creation pending o v = record v { creation = outcome o; log = answered ∷ v.log }
end_creation _ o v = v

module _ (date lower : Text → Text) where
  abbrev pub on_event : Option Event → Visit → Visit
  on_event none v = v
  on_event (some e) v = act lower e v

  unfoldable pub happen : Happening → Visit → Visit
  happen (gesture g) v = on_event (gives g (page date v.form v.check v.creation v.copied)) v
  happen (left key) v = with_form (touch key v.form) v
  happen (checked q) v = record v { check = q }
  happen (created o) v = end_creation v.creation o v
  happen copy_ends v = record v { copied = false }

  abbrev pub visit : List Happening → Visit → Visit
  visit [] v = v
  visit (h ∷ hs) v = visit hs (happen h v)

abbrev pub start : Visit
start = record {
  form = empty_form;
  check = record { data_taken = none; is_fetching = false };
  creation = idle;
  copied = false;
  gone = false;
  log = [];
}

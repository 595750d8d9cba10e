-- ===== src/Clients/Form.antt =====
-- web/src/features/clients/NewClientPage.tsx: the form of a new client. `lower` is `toLowerCase`. The
-- answer of `useEmailTaken` for the address that the form asks about is an argument (`EmailCheck`).
pub mod Laws
pub mod Page
mod Tests
use ahmed_sila.Base.{
  ℕ, Bool, true, false, ◌&&◌, ◌||◌, not, Option, none, some, List, [], ◌∷◌, any, ltb, take, length,
  if◌then◌else◌,
}
use ahmed_sila.Text.{Text, txt, text_eq, trim, only_digits}
use ahmed_sila.Text.Decimal.{read}
use ahmed_sila.Text.Email.{is_email}
use ahmed_sila.Clients.Types.{ClientPlan, growth, NewClient}

pub data FieldKey : Type 0 where
  name address owner_name phone email : FieldKey

-- `FIELDS`
abbrev pub fields : List FieldKey
fields = name ∷ address ∷ owner_name ∷ phone ∷ email ∷ []

abbrev pub field_eq : FieldKey → FieldKey → Bool
field_eq name name = true
field_eq address address = true
field_eq owner_name owner_name = true
field_eq phone phone = true
field_eq email email = true
field_eq _ _ = false

-- `Record<FieldKey, A>`
abbrev pub Values : Type 0
Values = FieldKey → Text

pub data Start : Type 0 where
  with_trial at_once : Start

pub record Form : Type 0 where
  pub values : Values
  pub touched : FieldKey → Bool
  pub submitted : Bool
  pub plan : ClientPlan
  pub start : Start
  pub trial_days : Text

abbrev pub empty_form : Form
empty_form = record {
  values = λ k. [];
  touched = λ k. false;
  submitted = false;
  plan = growth;
  start = with_trial;
  trial_days = txt "14";
}

-- What the query of `useEmailTaken` has: `data` and `isFetching`.
pub record EmailCheck : Type 0 where
  pub data_taken : Option Bool
  pub is_fetching : Bool

abbrev pub fill_in : Text
fill_in = txt "Заполните поле"

abbrev pub bad_email : Text
bad_email = txt "Проверьте адрес: похоже, в нём опечатка"

abbrev pub short_phone : Text
short_phone = txt "Укажите номер полностью, с кодом страны"

abbrev pub email_in_use : Text
email_in_use = txt "Этот email уже используется другим клиентом"

abbrev pub bad_trial : Text
bad_trial = txt "Пробный период — от 1 до 365 дней"

-- The format tests of a field that is filled in.
abbrev pub format_error : FieldKey → Text → Text
format_error email trimmed = if not (is_email trimmed) then bad_email else []
format_error phone trimmed = if ltb (length (only_digits trimmed)) 11 then short_phone else []
format_error _ trimmed = []

abbrev pub trimmed_error : FieldKey → Text → Text
trimmed_error key [] = fill_in
trimmed_error key (c ∷ s) = format_error key (c ∷ s)

unfoldable pub validate : FieldKey → Text → Text
validate key value = trimmed_error key (trim value)

abbrev pub is_true : Option Bool → Bool
is_true none = false
is_true (some b) = b

-- `errorOf`, after `validate`
abbrev pub taken_error : FieldKey → EmailCheck → Text
taken_error email q = if is_true q.data_taken then email_in_use else []
taken_error _ q = []

abbrev pub or_text : Text → Text → Text
or_text [] t = t
or_text (c ∷ s) t = c ∷ s

unfoldable pub error_of : Form → EmailCheck → FieldKey → Text
unfolding validate
error_of f q key = or_text (validate key (f.values key)) (taken_error key q)

abbrev pub is_blank : Text → Bool
is_blank [] = true
is_blank (c ∷ s) = false

module _ (lower : Text → Text) where
  abbrev pub typed_email : Form → Text
  typed_email f = lower (trim (f.values email))

  -- The address that `useEmailTaken` is asked about; the empty text asks nothing.
  abbrev pub asked_email : Form → Text
  asked_email f = if is_blank (validate email (typed_email f)) then typed_email f else []

-- `trialDays` holds digits only (`set_trial_days`), so that `Number` gives a whole number.
abbrev pub days : Form → ℕ
days f = read f.trial_days

abbrev pub trial_error : Form → Text
trial_error f = elim f.start [
  | with_trial ↦ if ltb (days f) 1 || ltb 365 (days f) then bad_trial else []
  | at_once ↦ []
]

unfoldable pub has_errors : Form → EmailCheck → Bool
unfolding error_of
has_errors f q =
    any (λ key. not (is_blank (error_of f q key))) fields || not (is_blank (trial_error f))

abbrev pub trial_of : Form → ℕ
trial_of f = elim f.start [ with_trial ↦ days f | at_once ↦ 0 ]

abbrev pub input_of : (Text → Text) → Form → NewClient
input_of lower f = record {
  name = trim (f.values name);
  address = trim (f.values address);
  owner_name = trim (f.values owner_name);
  phone = trim (f.values phone);
  email = typed_email lower f;
  plan = f.plan;
  trial_days = trial_of f;
}

-- `onSubmit`: the form, and what goes to `create.mutate`
unfoldable pub on_submit : (Text → Text) → Form → EmailCheck → Form × Option NewClient
unfolding has_errors
on_submit lower f q = (
  record f { submitted = true },
  if has_errors f q || q.is_fetching then none else some (input_of lower f),
)

-- The text next to the buttons; `failed` is `create.isError`, and muted the second component.
unfoldable pub footer : Bool → Form → EmailCheck → Option (Text × Bool)
unfolding has_errors
footer failed f q =
    if failed
    then some (txt "Не удалось создать клиента. Проверьте соединение и попробуйте снова", false)
    else if f.submitted && has_errors f q
    then some (txt "Заполните обязательные поля", false)
    else if f.submitted && q.is_fetching
    then some (txt "Проверяем email, секунду", true)
    else none

-- The inputs' handlers.
abbrev pub set_value : FieldKey → Text → Form → Form
set_value key v f = record f { values = λ k. if field_eq k key then v else f.values k }

abbrev pub touch : FieldKey → Form → Form
touch key f = record f { touched = λ k. if field_eq k key then true else f.touched k }

unfoldable pub set_trial_days : Text → Form → Form
set_trial_days v f = record f { trial_days = take 3 (only_digits v) }

-- `resetForm`
abbrev pub reset_form : Form → Form
reset_form f = empty_form

-- The error that stands under a field.
unfoldable pub shown_error : Form → EmailCheck → FieldKey → Text
unfolding error_of
shown_error f q key = if f.touched key || f.submitted then error_of f q key else []

-- ===== src/Clients/Form/Laws.antt =====
-- What the form of a new client sends, and what it answers to every press of its button.
use ahmed_sila.Base.{
  ℕ, ◌≤◌, ◌≡◌, refl, ap, ◌∙◌, zero, suc, Option-cases, ◌≢◌, ◌↔◌, ◌⊎◌, inl, inr, true, false, none,
  some, [], ◌∷◌, take, length, length-take, All, arith, is_some,
}
use ahmed_sila.Text.{Text, txt, trim, is_digit, only_digits}
use ahmed_sila.Text.Decimal.{read, show, read-show, show-All}
use ahmed_sila.Text.Email.{is_email}
use ahmed_sila.Clients.Types.{NewClient}
use ahmed_sila.Clients.Form.{
  FieldKey, name, address, owner_name, phone, email, with_trial, at_once, Form, EmailCheck,
  format_error, trimmed_error, validate, taken_error, error_of, is_blank, days, trial_error,
  has_errors, trial_of, input_of, on_submit, footer, set_trial_days, or_text,
}

-- What the form asks of its values.
abbrev pub IsFilled : Text → Type 0
IsFilled v = trim v ≢ []

abbrev pub IsValid : Form → EmailCheck → Type 0
IsValid f q =
    IsFilled (f.values name)
    × IsFilled (f.values address)
    × IsFilled (f.values owner_name)
    × (11 ≤ length (only_digits (trim (f.values phone))))
    × (is_email (trim (f.values email)) ≡ true)
    × (q.data_taken ≢ some true)
    × ((f.start ≡ at_once) ⊎ (1 ≤ days f) × (days f ≤ 365))

plain_blank_iff :
    (key : FieldKey) (t : Text)
    → (format : (s : Text) → format_error key s ≡ [])
    → (is_blank (trimmed_error key t) ≡ true) ↔ (t ≢ [])
plain_blank_iff key [] format = ground arith
plain_blank_iff key (c ∷ t) format = ground (arith, format (c ∷ t))

phone_blank_iff :
    (t : Text) → (is_blank (trimmed_error phone t) ≡ true) ↔ (11 ≤ length (only_digits t))
phone_blank_iff [] = ground arith
phone_blank_iff (c ∷ t) = ground arith

email_blank-nil : (is_blank (trimmed_error email []) ≡ true) ↔ (is_email [] ≡ true)
unfolding is_email
email_blank-nil = ground arith

email_blank_iff : (t : Text) → (is_blank (trimmed_error email t) ≡ true) ↔ (is_email t ≡ true)
email_blank_iff [] = email_blank-nil
email_blank_iff (c ∷ t) = ground arith

or_blank_iff :
    (s t : Text) → (is_blank (or_text s t) ≡ true) ↔ ((is_blank s ≡ true) × (is_blank t ≡ true))
or_blank_iff [] t = ground arith
or_blank_iff (c ∷ s) t = ground arith

taken_blank_iff :
    (q : EmailCheck) → (is_blank (taken_error email q) ≡ true) ↔ (q.data_taken ≢ some true)
taken_blank_iff q = elim (Option-cases q.data_taken) [
  | inl e ↦ ground (arith, e)
  | inr (b, e) ↦ ground (arith, e)
]

trial_blank_iff :
    (f : Form)
    → (is_blank (trial_error f) ≡ true) ↔ ((f.start ≡ at_once) ⊎ (1 ≤ days f) × (days f ≤ 365))
trial_blank_iff f = ground arith

no_errors_iff : (f : Form) (q : EmailCheck) → (has_errors f q ≡ false) ↔ IsValid f q
unfolding has_errors error_of validate
no_errors_iff f q = ground (
  arith,
  or_blank_iff (trimmed_error email (trim (f.values email))) (taken_error email q),
  or_blank_iff (trimmed_error name (trim (f.values name))) [],
  or_blank_iff (trimmed_error address (trim (f.values address))) [],
  or_blank_iff (trimmed_error owner_name (trim (f.values owner_name))) [],
  or_blank_iff (trimmed_error phone (trim (f.values phone))) [],
  plain_blank_iff name (trim (f.values name)) (λ s. refl),
  plain_blank_iff address (trim (f.values address)) (λ s. refl),
  plain_blank_iff owner_name (trim (f.values owner_name)) (λ s. refl),
  phone_blank_iff (trim (f.values phone)),
  email_blank_iff (trim (f.values email)),
  taken_blank_iff q,
  trial_blank_iff f,
)

-- What is sent, as `onSubmit` builds it.
pub on_submit-input_of_iff :
    (lower : Text → Text) (f : Form) (q : EmailCheck) (i : NewClient)
    → ((on_submit lower f q).1 ≡ some i)
      ↔ (IsValid f q × (q.is_fetching ≡ false) × (input_of lower f ≡ i))
unfolding on_submit
on_submit-input_of_iff lower f q i = ground (arith, no_errors_iff f q)

-- The client has the trimmed texts of the form, the email in lower case, and the trial that was chosen.
abbrev pub IsTakenFrom : (Text → Text) → Form → NewClient → Type 0
IsTakenFrom lower f i =
    (i.name ≡ trim (f.values name))
    × (i.address ≡ trim (f.values address))
    × (i.owner_name ≡ trim (f.values owner_name))
    × (i.phone ≡ trim (f.values phone))
    × (i.email ≡ lower (trim (f.values email)))
    × (i.plan ≡ f.plan)
    × (f.start ≡ with_trial → i.trial_days ≡ read f.trial_days)
    × (f.start ≡ at_once → i.trial_days ≡ 0)

trial_of_iff :
    (f : Form) (n : ℕ)
    → (trial_of f ≡ n)
      ↔ ((f.start ≡ with_trial → n ≡ read f.trial_days) × (f.start ≡ at_once → n ≡ 0))
trial_of_iff f n = ground arith

input_of-IsTakenFrom_iff :
    (lower : Text → Text) (f : Form) (i : NewClient)
    → (input_of lower f ≡ i) ↔ IsTakenFrom lower f i
input_of-IsTakenFrom_iff lower f i = ground (arith, trial_of_iff f i.trial_days)

-- The press of the button sends a client exactly when the form is valid and the email's check is not under
-- way; and then the client has the trimmed values of the form, the email in lower case, the plan, and the
-- days of the trial, or none without a trial.
pub on_submit_iff :
    (lower : Text → Text) (f : Form) (q : EmailCheck) (i : NewClient)
    → ((on_submit lower f q).1 ≡ some i)
      ↔ (IsValid f q × (q.is_fetching ≡ false) × IsTakenFrom lower f i)
on_submit_iff lower f q i =
    let (there, back) = on_submit-input_of_iff lower f q i in
    let (to, from) = input_of-IsTakenFrom_iff lower f i in
    ((λ h. let (v, k, e) = there h in (v, k, to e)), λ (v, k, t). back (v, k, from t))

-- What a press of the button leads to: the client is sent and no text stands; or the form is not valid,
-- and the text asks for the required fields; or it is, and the muted text says that the email is being
-- checked.
pub data Answer (lower : Text → Text) (f : Form) (q : EmailCheck) : Type 0 where
  sent :
      IsValid f q
      → q.is_fetching ≡ false
      → is_some (on_submit lower f q).1 ≡ true
      → footer false (on_submit lower f q).0 q ≡ none
      → Answer lower f q
  invalid :
      ¬ IsValid f q
      → (on_submit lower f q).1 ≡ none
      → footer false (on_submit lower f q).0 q ≡ some (txt "Заполните обязательные поля", false)
      → Answer lower f q
  checking :
      IsValid f q
      → q.is_fetching ≡ true
      → (on_submit lower f q).1 ≡ none
      → footer false (on_submit lower f q).0 q ≡ some (txt "Проверяем email, секунду", true)
      → Answer lower f q

filter_digits : (s : Text) → All (λ c. is_digit c ≡ true) s → only_digits s ≡ s
filter_digits [] h = refl
filter_digits (c ∷ s) (h, hs) = rw h (ap (λ t. c ∷ t) (filter_digits s hs))

take_all : (k : ℕ) (s : Text) → length s ≤ k → take k s ≡ s
take_all zero [] h = refl
take_all zero (c ∷ s) h = ground (arith, h)
take_all (suc k) [] h = refl
take_all (suc k) (c ∷ s) h = ap (λ t. c ∷ t) (take_all k s (omega (arith, h)))

-- Whatever is typed, the field of the trial's days holds at most three characters; and a number of at
-- most three digits that is typed is the number of days that the form reads, which is wrong for a form
-- with a trial exactly when it is not from 1 to 365.
pub set_trial_days_lem :
    (f : Form) (v : Text) (n : ℕ)
    → length (show n) ≤ 3
    → let g = set_trial_days (show n) f in
      (length ((set_trial_days v f).trial_days) ≤ 3)
      × (days g ≡ n)
      × ((is_blank (trial_error g) ≡ true) ↔ ((f.start ≡ at_once) ⊎ (1 ≤ n) × (n ≤ 365)))
unfolding set_trial_days
set_trial_days_lem f v n h =
    let e : take 3 (only_digits (show n)) ≡ show n =
      ap (take 3) (filter_digits (show n) (show-All n)) ∙ take_all 3 (show n) h in
    let d : read (take 3 (only_digits (show n))) ≡ n = ap read e ∙ read-show n in
    (
      omega (arith, length-take 3 (only_digits v)),
      d,
      ground (arith, d, trial_blank_iff (set_trial_days (show n) f)),
    )

-- ===== src/Clients/Form/Tests.antt =====
-- A visit of the form of a new client.
use ahmed_sila.Base.{ℕ, ◌≡◌, refl, false, none, some, List, [], ◌∷◌, length}
use ahmed_sila.Text.{Text, txt, trim}
use ahmed_sila.Text.Decimal.{read}
use ahmed_sila.Text.Email.{is_email}
use ahmed_sila.Markup.{press, enter, gives}
use ahmed_sila.Clients.Form.{email, shown_error, footer, on_submit, set_trial_days}
use ahmed_sila.Clients.Form.Page.{
  Mark, sent, answered, Happening, gesture, left, checked, created, act, page, happen, visit, start,
}
use ahmed_sila.Clients.Form.Page.Laws.{IsOrderly, visit-form-IsOrderly}

abbrev as_is : Text → Text
as_is t = t

-- All fields are filled in, the email is free, the button is pressed twice and the creation fails.
abbrev happenings : List Happening
happenings =
    gesture (enter 4 (txt "Родник"))
    ∷ gesture (enter 6 (txt "Шымкент"))
    ∷ gesture (enter 8 (txt "Ержан Сапаров"))
    ∷ gesture (enter 10 (txt "+7 701 244 18 03"))
    ∷ gesture (enter 13 (txt "a@b.kz"))
    ∷ left email
    ∷ checked (record { data_taken = some false; is_fetching = false })
    ∷ gesture (press 24)
    ∷ gesture (press 24)
    ∷ created none
    ∷ []

visit-form-IsOrderly_example : IsOrderly as_is (visit as_is as_is happenings start).log
visit-form-IsOrderly_example = visit-form-IsOrderly as_is as_is happenings

abbrev is_sent : Mark → ℕ
is_sent (sent i) = 1
is_sent answered = 0

-- The second press of the button does nothing.
happenings_log : length (visit as_is as_is happenings start).log ≡ 2
unfolding happen act page gives on_submit footer shown_error is_email trim read set_trial_days
happenings_log = refl

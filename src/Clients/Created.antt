-- ===== src/Clients/Created.antt =====
-- web/src/features/clients/NewClientPage.tsx: the modal with the code of a client that has just been created,
-- and the hints of the form. `date` is `formatDate`, `encode` is `encodeURIComponent`.
pub mod Laws
use ahmed_sila.Base.{
  Bool, true, false, Option, none, some, List, [], ◌∷◌, ◌++◌, find, if◌then◌else◌,
}
use ahmed_sila.Text.{Text, txt, only_digits}
use ahmed_sila.Clients.Types.{ActivationCode, ClientDetail}
use ahmed_sila.Clients.Form.{
  FieldKey, name, address, owner_name, phone, email, Start, with_trial, at_once,
}

-- The label, the placeholder and the hint of each field of `FIELDS`.
abbrev pub field_spec : FieldKey → Text × Text × Option Text
field_spec name = (txt "Название магазина", txt "Например, Береке Супермаркет", none)
field_spec address = (txt "Город и адрес", txt "Шымкент, ул. Байтурсынова 41", none)
field_spec owner_name = (txt "Владелец (ФИО)", txt "Ержан Сапаров", none)
field_spec phone =
    (txt "Телефон", txt "+7 701 000 00 00", some (txt "На этот номер отправим код в WhatsApp"))
field_spec email = (txt "Email", txt "owner@example.kz", none)

-- `STATUS_CHOICES`, and `PLAN_CHOICES` as far as the order of the plans goes.
abbrev pub status_choices : List (Start × Text)
status_choices =
    (with_trial, txt "Начать с пробного периода") ∷ (at_once, txt "Активировать сразу") ∷ []

-- `onGoToClient`, which also closes the modal.
abbrev pub card_path : ClientDetail → Text
card_path c = txt "/clients/" ++ c.id

-- `onCopy`: what goes to the clipboard.
abbrev pub on_copy : ClientDetail → Option Text
on_copy c = elim c.activation_code [ none ↦ none | some a ↦ some a.code ]

abbrev pub copy_label : (copied : Bool) → Text
copy_label copied = if copied then txt "Скопировано" else txt "Скопировать"

module _ (date encode : Text → Text) where
  -- The message with the code.
  abbrev pub message : ActivationCode → Text
  message a =
      txt "Код для первого входа в систему: "
      ++ (a.code ++ (txt ". " ++ (txt "Действует до " ++ (date a.expires_at ++ txt "."))))

  -- `onSendToWhatsApp`: the address that is opened.
  unfoldable pub on_send_to_whats_app : ClientDetail → Option Text
  on_send_to_whats_app c = elim c.activation_code [
    | none ↦ none
    | some a ↦
        some (txt "https://wa.me/" ++ (only_digits c.phone ++ (txt "?text=" ++ encode (message a))))
  ]

  -- The part of the modal that shows the code: the code and the line below it.
  abbrev pub shown_code : ClientDetail → Option (Text × Text)
  shown_code c = elim c.activation_code [
    | none ↦ none
    | some a ↦ some (a.code, txt "Действует 7 дней, до " ++ date a.expires_at)
  ]

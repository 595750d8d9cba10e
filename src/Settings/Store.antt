-- ===== src/Settings/Store.antt =====
-- web/src/features/settings/mock.ts: the plans and the message template in memory.
use ahmed_sila.Base.{Option, none, some, List, [], ◌∷◌, ◌++◌}
use ahmed_sila.Text.{Text, txt}
use ahmed_sila.Clients.Types.{starter, growth, enterprise}
use ahmed_sila.Settings.Types.{PlanDetail, MessageTemplateSettings, Settings}

abbrev pub plans : List PlanDetail
plans =
    record {
      key = starter;
      limit = txt "до 15";
      price = txt "24 000";
      includes = txt "Базовые задачи и смены, до 15 сотрудников, поддержка по email";
    }
    ∷ record {
      key = growth;
      limit = txt "до 60";
      price = txt "58 000";
      includes = txt "Задачи и смены, заявки на закупку, приоритетная поддержка";
    }
    ∷ record {
      key = enterprise;
      limit = txt "без лимита";
      price = txt "по договору";
      includes = txt "Без ограничения по сотрудникам, отдельный менеджер, индивидуальные условия";
    }
    ∷ []

-- Two ends of a line, between the paragraphs.
abbrev break : Text
break = 10 ∷ 10 ∷ []

abbrev pub default_template : Text
default_template =
    txt "Здравствуйте, {владелец}!"
    ++ (break
        ++ (txt "Доступ для магазина «{клиент}» открыт. Код подтверждения для первого входа: {код}"
            ++ (break
                ++ (txt
                      "Код одноразовый и действует до {срок}. Введите его при первом входе — после этого вы зададите пароль и будете входить обычным способом."
                    ++ (break
                        ++ txt
                            "Если код не сработал или срок истёк, ответьте на это сообщение — пришлём новый.")))))

-- `templateText` and `templateUpdatedAt`
pub record Store : Type 0 where
  pub text : Text
  pub updated_at : Option Text

abbrev pub init : Store
init = record { text = default_template; updated_at = none }

abbrev pub template_of : Store → MessageTemplateSettings
template_of s = record { text = s.text; default_text = default_template; updated_at = s.updated_at }

unfoldable pub get : Store → Settings
get s = record { plans = plans; template = template_of s }

-- `now` is the text of the instant of the call.
unfoldable pub save_template : Text → Text → Store → MessageTemplateSettings × Store
save_template now text s =
    let s' : Store = record { text = text; updated_at = some now } in (template_of s', s')

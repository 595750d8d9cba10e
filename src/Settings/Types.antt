-- ===== src/Settings/Types.antt =====
-- web/src/features/settings/types.ts
use ahmed_sila.Base.{Option, List, [], ◌∷◌}
use ahmed_sila.Text.{Text, txt}
use ahmed_sila.Clients.Types.{ClientPlan}

pub record PlanDetail : Type 0 where
  pub key : ClientPlan
  pub limit : Text
  pub price : Text
  pub includes : Text

pub record MessageTemplateSettings : Type 0 where
  pub text : Text
  pub default_text : Text
  pub updated_at : Option Text

pub record Settings : Type 0 where
  pub plans : List PlanDetail
  pub template : MessageTemplateSettings

-- `TEMPLATE_VARS`, each with its text of `TEMPLATE_PREVIEW_SAMPLE`
abbrev pub template_vars : List (Text × Text)
template_vars =
    (txt "{владелец}", txt "Ержан")
    ∷ (txt "{клиент}", txt "Береке Супермаркет")
    ∷ (txt "{код}", txt "K7QF-3M2D")
    ∷ (txt "{срок}", txt "21.08.2026")
    ∷ []

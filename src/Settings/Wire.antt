-- ===== src/Settings/Wire.antt =====
-- The response types of web/src/features/settings/api.ts.
use ahmed_sila.Base.{Option, List}
use ahmed_sila.Text.{Text}
use ahmed_sila.Clients.Types.{ClientPlan}

pub record PlanWire : Type 0 where
  pub plan : ClientPlan
  pub limit : Text
  pub price : Text
  pub includes : Text

pub record TemplateWire : Type 0 where
  pub text : Text
  pub updated_at : Option Text

pub record SettingsWire : Type 0 where
  pub plans : List PlanWire
  pub template : TemplateWire

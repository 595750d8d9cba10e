-- ===== src/Settings/Api.antt =====
-- web/src/features/settings/api.ts
use ahmed_sila.Base.{Bool, [], ◌∷◌, map, if◌then◌else◌}
use ahmed_sila.Text.{Text, txt}
use ahmed_sila.Http.{Network, ok, str}
use ahmed_sila.Http.Payloads.{settings, template}
use ahmed_sila.Http.Calls.{getting, posting_json, On, remote, local}
use ahmed_sila.Settings.Types.{PlanDetail, MessageTemplateSettings, Settings}
use ahmed_sila.Settings.Wire.{PlanWire, TemplateWire, SettingsWire}
use ahmed_sila.Settings.Store.{Store, default_template, get, save_template}

abbrev pub to_plan_detail : PlanWire → PlanDetail
to_plan_detail p = record { key = p.plan; limit = p.limit; price = p.price; includes = p.includes }

abbrev pub to_template_settings : TemplateWire → MessageTemplateSettings
to_template_settings t = record {
  text = t.text;
  default_text = default_template;
  updated_at = t.updated_at;
}

abbrev pub to_settings : SettingsWire → Settings
to_settings w = record {
  plans = map to_plan_detail w.plans;
  template = to_template_settings w.template;
}

module _ (n : Network) (use_mock : Bool) where
  unfoldable pub fetch_settings : On n Store Settings
  fetch_settings =
      if use_mock
      then local n Store (λ s. (ok (get s), s))
      else remote n Store settings (txt "/settings") getting to_settings

  unfoldable pub save_message_template : Text → Text → On n Store MessageTemplateSettings
  save_message_template now text =
      if use_mock
      then local n Store (λ s. (let (t, s') = save_template now text s in (ok t, s')))
      else remote n Store template (txt "/settings/message-template")
          (posting_json ((txt "text", str text) ∷ [])) to_template_settings

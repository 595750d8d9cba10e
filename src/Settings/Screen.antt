-- ===== src/Settings/Screen.antt =====
-- web/src/features/settings/SettingsPage.tsx: the preview of the message template and its editor.
pub mod Laws
use ahmed_sila.Base.{
  ℕ, zero, suc, Bool, true, false, ◌&&◌, ◌||◌, not, Option, none, some, List, [], ◌∷◌, ◌++◌, length,
  if◌then◌else◌,
}
use ahmed_sila.Text.{Text, text_eq, starts_with}
use ahmed_sila.Clients.Types.{ClientPlan, starter, growth, enterprise}
use ahmed_sila.Settings.Types.{PlanDetail, Settings, template_vars}

-- `s.split(token).join(sample)`, for a token with the first unit `t` and `rest` after it. The first
-- argument is the number of units of a found token that are still to be left out.
unfoldable pub replace_from : ℕ → ℕ → Text → Text → Text → Text
replace_from skip t rest sample [] = []
replace_from (suc skip) t rest sample (c ∷ s) = replace_from skip t rest sample s
replace_from zero t rest sample (c ∷ s) =
    let after = replace_from (length rest) t rest sample s in
    let next = replace_from zero t rest sample s in
    if starts_with (c ∷ s) (t ∷ rest) then sample ++ after else c ∷ next

abbrev pub replace_all : Text → Text → Text → Text
replace_all [] sample s = s
replace_all (t ∷ rest) sample s = replace_from zero t rest sample s

-- `reduce` over the variables
abbrev pub fill : List (Text × Text) → Text → Text
fill [] s = s
fill ((token, sample) ∷ vars) s = fill vars (replace_all token sample s)

unfoldable pub render_preview : Text → Text
unfolding replace_from
render_preview s = fill template_vars s

-- The editor's text, and whether it has been given its first text.
pub record State : Type 0 where
  pub text : Text
  pub seeded : Bool

abbrev pub init : State
init = record { text = []; seeded = false }

-- The effect that runs when the query's data change.
unfoldable pub on_data : Option Settings → State → State
on_data none st = st
on_data (some d) st = if st.seeded then st else record { text = d.template.text; seeded = true }

abbrev pub type_text : Text → State → State
type_text v st = record st { text = v }

-- «Вернуть исходный текст»
abbrev pub restore_default : Settings → State → State
restore_default d st = record st { text = d.template.default_text }

unfoldable pub dirty : Option Settings → State → Bool
dirty none st = false
dirty (some d) st = not (text_eq st.text d.template.text)

-- `disabled` of «Сохранить»
unfoldable pub save_disabled : Option Settings → State → Bool → Bool
unfolding dirty
save_disabled d st is_pending = not (dirty d st) || is_pending

-- Whether «Сохранено …» stands next to the buttons, with the time; the empty text counts as none.
abbrev time_of : Option Text → Option Text
time_of none = none
time_of (some []) = none
time_of (some (c ∷ s)) = some (c ∷ s)

unfoldable pub saved_at : Settings → State → Option Text
unfolding dirty
saved_at d st = if dirty (some d) st then none else time_of d.template.updated_at

-- What the page shows: an error with the button that asks again, the skeletons, or the two panels.
pub data View : Type 0 where
  failed loading : View
  panels : Settings → View

abbrev pub view : Bool → Option Settings → View
view is_error data_now =
    if is_error then failed else elim data_now [ none ↦ loading | some d ↦ panels d ]

-- The colour of the dot before a plan.
pub data PlanDot : Type 0 where
  ink_muted accent : PlanDot

abbrev pub plan_dot : PlanDetail → PlanDot
plan_dot p = elim p.key [ starter ↦ ink_muted | growth ↦ accent | enterprise ↦ accent ]

-- A row of `PlansTable`: the dot, the plan, the number of employees, the price and what it includes.
abbrev pub row : PlanDetail → PlanDot × ClientPlan × Text × Text × Text
row p = (plan_dot p, p.key, p.limit, p.price, p.includes)

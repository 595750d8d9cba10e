-- ===== src/Markup.antt =====
-- web/src/components/ui: what the pages are built of. A page is the list of its parts in reading order; class
-- names and the nesting of the boxes are left out. `E` is the type of what a part's handler does.
pub mod Laws
use ahmed_sila.Base.{
  ℕ, zero, suc, Bool, true, false, Option, none, some, List, [], ◌∷◌, ◌++◌, map, if◌then◌else◌,
}
use ahmed_sila.Base.Int.{ℤ}
use ahmed_sila.Text.{Text, txt, text_eq}
use ahmed_sila.Text.Decimal.{show}
use ahmed_sila.Format.Plural.{format_delta}
use ahmed_sila.Shell.{Tone, client_tone, ticket_tone}
use ahmed_sila.Clients.Types.{ClientStatus, status_label, TicketStatus, ticket_status_label}

-- An `option` of a `select`: its label, whether it is the value, and what choosing it does.
pub record Choice (E : Type 0) : Type 0 where
  pub label : Text
  pub selected : Bool
  pub on_choose : E

pub data Node (E : Type 0) : Type 0 where
  heading span : Text → Node E
  tone_dot : Tone → Node E
  skeleton : Node E
  -- the address and the label
  link : Text → Text → Node E
  -- the label, `disabled` and `onClick`
  button : Text → Bool → E → Node E
  -- the label, `aria-pressed` and `onClick`
  toggle : Text → Bool → E → Node E
  -- a row that can be pressed; what stands in it comes next
  row_button : E → Node E
  -- the value and `onChange` of an input or a textarea
  field : Text → (Text → E) → Node E
  -- `disabled` and the options of a select
  select : Bool → List (Choice E) → Node E

abbrev pub Markup : Type 0 → Type 0
Markup E = List (Node E)

-- What a person does: presses the part with that number, types into it, or chooses one of its options.
pub data Gesture : Type 0 where
  press : ℕ → Gesture
  enter choose : ℕ → Text → Gesture

module _ {E : Type 0} where
  abbrev pub part_at : ℕ → Markup E → Option (Node E)
  part_at i [] = none
  part_at zero (n ∷ ns) = some n
  part_at (suc i) (n ∷ ns) = part_at i ns

  -- The button of a disabled part and the option that is the value already do nothing.
  abbrev pub pressed : Node E → Option E
  pressed (button label disabled e) = if disabled then none else some e
  pressed (toggle label selected e) = some e
  pressed (row_button e) = some e
  pressed n = none

  abbrev pub entered : Text → Node E → Option E
  entered t (field value on_change) = some (on_change t)
  entered t n = none

  abbrev pub option_of : Text → List (Choice E) → Option E
  option_of t [] = none
  option_of t (c ∷ cs) =
      let rest = option_of t cs in
      if text_eq c.label t then (if c.selected then none else some c.on_choose) else rest

  abbrev pub chosen : Text → Node E → Option E
  chosen t (select disabled cs) = let found = option_of t cs in if disabled then none else found
  chosen t n = none

  abbrev pub at : (Node E → Option E) → Option (Node E) → Option E
  at f none = none
  at f (some n) = f n

  unfoldable pub gives : Gesture → Markup E → Option E
  gives (press i) ns = at pressed (part_at i ns)
  gives (enter i t) ns = at (entered t) (part_at i ns)
  gives (choose i t) ns = at (chosen t) (part_at i ns)

  abbrev pub join : List (Markup E) → Markup E
  join [] = []
  join (m ∷ ms) = m ++ join ms

  abbrev pub when : Bool → Markup E → Markup E
  when b m = if b then m else []

  -- `Array.from({ length: n }, …)`
  abbrev pub repeated : ℕ → Markup E → Markup E
  repeated zero m = []
  repeated (suc n) m = m ++ repeated n m

  -- ui/StatusDot.tsx
  abbrev pub client_status_dot : ClientStatus → Markup E
  client_status_dot s = tone_dot (client_tone s) ∷ span (status_label s) ∷ []

  abbrev pub ticket_status_dot : TicketStatus → Markup E
  ticket_status_dot s = tone_dot (ticket_tone s) ∷ span (ticket_status_label s) ∷ []

  -- ui/FilterChip.tsx
  abbrev dot_of : Option Tone → Markup E
  dot_of none = []
  dot_of (some t) = tone_dot t ∷ []

  abbrev number_of : Option ℕ → Markup E
  number_of none = []
  number_of (some n) = span (show n) ∷ []

  abbrev pub filter_chip : Text → Option ℕ → Option Tone → Bool → E → Markup E
  filter_chip label count tone selected on_click =
      dot_of tone ++ (toggle label selected on_click ∷ number_of count)

  -- ui/ChoiceGroup.tsx: one button to an option, of which one is the value.
  abbrev pub choice_group : List (Choice E) → Markup E
  choice_group cs = map (λ (c : Choice E). toggle c.label c.selected c.on_choose) cs

  -- ui/SegmentedControl.tsx
  abbrev pub segmented_control : List (Choice E) → Markup E
  segmented_control = choice_group

  -- ui/States.tsx
  abbrev pub empty_state : Text → Text → Text → E → Markup E
  empty_state name hint cta_label on_cta =
      span name ∷ span hint ∷ button cta_label false on_cta ∷ []

  abbrev pub error_state : E → Markup E
  error_state on_retry =
      span (txt "Не удалось загрузить данные")
      ∷ span (txt "Проверьте соединение и попробуйте снова.")
      ∷ button (txt "Повторить") false on_retry
      ∷ []

  -- ui/Panel.tsx: the head stands over the children if there is a title or an action.
  abbrev text_of : Option Text → Markup E
  text_of none = []
  text_of (some []) = []
  text_of (some (c ∷ s)) = span (c ∷ s) ∷ []

  abbrev pub panel : Text → Option Text → Markup E → Markup E → Markup E
  panel name hint action children = heading name ∷ text_of hint ++ (action ++ children)

  abbrev pub definition_list : List (Text × Markup E) → Markup E
  definition_list [] = []
  definition_list ((label, value) ∷ items) = span label ∷ value ++ definition_list items

  -- ui/Modal.tsx: the head with its button, the children and the footer.
  abbrev pub modal : Text → E → Markup E → Markup E → Markup E
  modal name on_close footer children =
      heading name ∷ button (txt "×") false on_close ∷ children ++ footer

  -- ui/Metrics.tsx; `number` is `formatNumber`.
  abbrev delta_of : (ℕ → Text) → Option ℤ → Markup E
  delta_of number none = []
  delta_of number (some d) = span (format_delta number d) ∷ []

  abbrev pub metrics : (ℕ → Text) → Bool → List (Text × ℕ × Option ℤ) → Markup E
  metrics number loading [] = []
  metrics number loading ((label, value, delta) ∷ cells) =
      (if loading then skeleton ∷ [] else span (number value) ∷ delta_of number delta)
      ++ (span label ∷ metrics number loading cells)

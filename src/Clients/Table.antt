-- ===== src/Clients/Table.antt =====
-- web/src/features/clients: the title of the list and its chips (ClientsPage.tsx), the numbers over the table
-- (ClientsMetrics.tsx), and the cells of a row (columns.tsx). `number`, `relative` and `date` are the formats
-- of lib/format.ts.
use ahmed_sila.Base.{
  ℕ, Bool, true, false, Option, none, some, List, [], ◌∷◌, ◌++◌, map, length, if◌then◌else◌,
}
use ahmed_sila.Text.{Text, txt, text_eq}
use ahmed_sila.Text.Decimal.{show}
use ahmed_sila.Format.Plural.{plural}
use ahmed_sila.Clients.Types.{Client, ClientFilter, filters, filter_key, ClientStatus, plan_key}
use ahmed_sila.Clients.Queries.{StatusCounts, count_of}

abbrev pub subtitle : (is_pending : Bool) → List Client → Text
subtitle true cs = txt "Загружаем список"
subtitle false cs =
    show (length cs)
    ++ (txt " "
        ++ (plural (length cs) (txt "клиент") (txt "клиента") (txt "клиентов") ++ txt " в системе"))

-- `OPEN_TICKETS` of mock.ts
abbrev pub open_tickets_shown : ℕ
open_tickets_shown = 7

-- The cells of `ClientsMetrics`.
abbrev pub metric_cells : StatusCounts → List (Text × ℕ)
metric_cells k =
    (txt "Активных клиентов", k.active_clients)
    ∷ (txt "На триале", k.trial_clients)
    ∷ (txt "На паузе", k.paused_clients)
    ∷ (txt "Открытых обращений", open_tickets_shown)
    ∷ []

-- The chips: the filter, the label, the number, and whether the filter is chosen.
abbrev pub chips : StatusCounts → ClientFilter → List (ClientFilter × Text × ℕ × Bool)
chips k chosen =
    map
      (λ (f : ClientFilter × Text).
        (f.0, f.1, count_of f.0 k, text_eq (filter_key chosen) (filter_key f.0)))
      filters

-- `clientPath`
abbrev pub client_path : Client → Text
client_path c = txt "/clients/" ++ c.id

-- The name's cell: the link, the name, and the line below it in the roomy table.
abbrev pub name_cell : (cozy : Bool) → Client → Text × Text × Option Text
name_cell cozy c =
    (client_path c, c.name, if cozy then some (c.city ++ (txt " · " ++ plan_key c.plan)) else none)

-- The links of the last cell: the card, and the form of a suspension.
abbrev pub open_link : Client → Text
open_link c = client_path c

abbrev pub suspend_link : Client → Text
suspend_link c = client_path c ++ txt "/access?suspend=1"

abbrev pub suspend_label : Client → Text
suspend_label c = txt "Приостановить доступ: " ++ c.name

-- A column's cell.
pub data Cell : Type 0 where
  linked : Text × Text × Option Text → Cell
  status_dot : ClientStatus → Cell
  plain : Text → Cell
  divider : Cell
  actions : (card suspension label : Text) → Cell

module _ (number : ℕ → Text) (relative date : Text → Text) where
  -- `buildColumns({ cozy })`: the headers with the cells of a row
  abbrev pub build_columns : (cozy : Bool) → List (Text × (Client → Cell))
  build_columns cozy =
      (txt "Клиент", λ c. linked (name_cell cozy c))
      ∷ (txt "Статус", λ c. status_dot c.status)
      ∷ (txt "", λ c. divider)
      ∷ (txt "Сотрудников", λ c. plain (number c.employees))
      ∷ (txt "Последняя активность", λ c. plain (relative c.last_active_at))
      ∷ (txt "Создан", λ c. plain (date c.created_at))
      ∷ (txt "", λ c. actions (open_link c) (suspend_link c) (suspend_label c))
      ∷ []

-- ===== src/Clients/Screen/Page.antt =====
-- web/src/features/clients: ClientsPage.tsx and ClientsTable.tsx as they are drawn, and what the handlers do. The table
-- library (@tanstack/react-table) is a parameter; that it also goes back to the first page when the rows
-- change is left out. `number`, `relative` and `date` are the formats of lib/format.ts.
pub mod Laws
use ahmed_sila.Base.{
  ℕ, ◌==◌, Bool, true, false, not, Option, none, some, List, [], ◌∷◌, ◌++◌, map, length,
  if◌then◌else◌,
}
use ahmed_sila.Base.Int.{ℤ}
use ahmed_sila.Text.{Text, txt}
use ahmed_sila.Text.Decimal.{show}
use ahmed_sila.Markup.{
  Choice, Gesture, gives, Node, heading, span, link, button, field, Markup, join, repeated,
  filter_chip, segmented_control, empty_state, client_status_dot, metrics,
}
use ahmed_sila.Markup
use ahmed_sila.Tickets.Screen.{Query}
use ahmed_sila.Clients.Types.{Client, ClientFilter}
use ahmed_sila.Clients.Queries.{count_by_status}
use ahmed_sila.Clients.Screen.{
  State, page_sizes, filter_of, set_filter, set_query, set_page_size, show_all, rows_of,
  range_label, clients_of, View, error_state, skeleton, no_clients, no_matches, table, view,
}
use ahmed_sila.Clients.Table.{
  subtitle, metric_cells, chips, Cell, linked, status_dot, plain, divider, actions, build_columns,
}

-- What the page asks of the table: the rows of a page, `getCanPreviousPage`, `getCanNextPage`, and the
-- number of the page after `previousPage` and `nextPage`.
pub record Paging : Type 0 where
  pub page_rows : (page_index page_size : ℕ) → List Client → List Client
  pub can_previous : (page_index page_size : ℕ) → List Client → Bool
  pub can_next : (page_index page_size : ℕ) → List Client → Bool
  pub previous_index : ℕ → ℕ
  pub next_index : ℕ → ℕ

-- The page's state with the density of the rows.
pub record PageState : Type 0 where
  pub list : State
  pub cozy : Bool

-- What the page starts with, at the `status` parameter of its address.
abbrev pub start : Option Text → PageState
start param = record {
  list = record { status_param = param; query = []; page_index = 0; page_size = 25 };
  cozy = false;
}

-- What the handlers of the page do; `create_client` goes to the form of a new client.
pub data Event : Type 0 where
  search_for : Text → Event
  filter_by : ClientFilter → Event
  choose_density : (cozy : Bool) → Event
  choose_size : ℕ → Event
  show_everyone create_client previous_page next_page refetch : Event

abbrev pub segment : Text → Bool → Event → Choice Event
segment label selected e = record { label = label; selected = selected; on_choose = e }

abbrev pub density_segments : Bool → List (Choice Event)
density_segments cozy =
    segment (txt "Компактно") (not cozy) (choose_density false)
    ∷ segment (txt "Комфортно") cozy (choose_density true)
    ∷ []

abbrev pub size_segment : (page_size : ℕ) → ℕ → Choice Event
size_segment page_size n = segment (show n) (n == page_size) (choose_size n)

abbrev pub chip : ClientFilter × Text × ℕ × Bool → Markup Event
chip (f, label, count, selected) = filter_chip label (some count) none selected (filter_by f)

abbrev pub below_name : Option Text → Markup Event
below_name none = []
below_name (some t) = span t ∷ []

abbrev pub cell_nodes : Cell → Markup Event
cell_nodes (linked (path, name, below)) = link path name ∷ below_name below
cell_nodes (status_dot s) = client_status_dot s
cell_nodes (plain t) = span t ∷ []
cell_nodes divider = span [] ∷ []
cell_nodes (actions card suspension label) = link card (txt "Открыть") ∷ link suspension label ∷ []

-- `ClientsTableSkeleton`: a row of it
abbrev pub skeleton_row : Markup Event
skeleton_row =
    Markup.skeleton
    ∷ Markup.skeleton
    ∷ span []
    ∷ Markup.skeleton
    ∷ Markup.skeleton
    ∷ Markup.skeleton
    ∷ span []
    ∷ []

module _ (paging : Paging) where
  -- `getRowModel().rows`
  unfoldable pub page_of : State → List Client → List Client
  page_of st rows = paging.page_rows st.page_index st.page_size rows

  unfoldable pub act : Event → PageState → PageState
  act (search_for t) st = record st { list = set_query t st.list }
  act (filter_by f) st = record st { list = set_filter f st.list }
  act (choose_density cozy) st = record st { cozy = cozy }
  act (choose_size n) st = record st { list = set_page_size n st.list }
  act show_everyone st = record st { list = show_all st.list }
  act create_client st = st
  act previous_page st = record st {
    list = record st.list { page_index = paging.previous_index st.list.page_index };
  }
  act next_page st = record st {
    list = record st.list { page_index = paging.next_index st.list.page_index };
  }
  act refetch st = st

  abbrev pub answer : Option Event → PageState → PageState
  answer none st = st
  answer (some e) st = act e st

module _ (number : ℕ → Text) (relative date : Text → Text) (lower : Text → Text)
    (paging : Paging) where
  abbrev pub header_nodes : Bool → Markup Event
  header_nodes cozy =
      map (λ (c : Text × (Client → Cell)). span c.0) (build_columns number relative date cozy)

  abbrev pub row_nodes : Bool → Client → Markup Event
  row_nodes cozy c = join (
      map (λ (k : Text × (Client → Cell)). cell_nodes (k.1 c))
        (build_columns number relative date cozy))

  -- `ClientsTable`
  unfoldable pub clients_table : PageState → List Client → Markup Event
  unfolding page_of
  clients_table st rows =
      header_nodes st.cozy ++ join (map (row_nodes st.cozy) (page_of paging st.list rows))

  abbrev pub body : PageState → View → Markup Event
  body st error_state = Markup.error_state refetch
  body st skeleton = repeated 8 skeleton_row
  body st no_clients =
      clients_table st []
      ++ empty_state (txt "Пока нет клиентов")
          (txt "Добавьте первого клиента, чтобы начать работу.") (txt "Создать клиента")
          create_client
  body st (no_matches name) =
      clients_table st []
      ++ empty_state name (txt "Измените фильтр или уточните запрос.") (txt "Показать всех")
          show_everyone
  body st (table rows) = clients_table st rows

  -- The line under the table.
  abbrev pub footer : State → List Client → Markup Event
  footer st rows =
      span (txt "Строк на странице")
        ∷ segmented_control (map (size_segment st.page_size) page_sizes)
      ++ (span (range_label st (length rows))
          ∷ button (txt "Назад") (not (paging.can_previous st.page_index st.page_size rows))
              previous_page
          ∷ button (txt "Вперёд") (not (paging.can_next st.page_index st.page_size rows)) next_page
          ∷ [])

  abbrev pub no_delta : Text × ℕ → Text × ℕ × Option ℤ
  no_delta (label, value) = (label, value, none)

  -- The field of the search stands in the top bar of the frame.
  abbrev pub top : PageState → Query (List Client) → Markup Event
  top st q =
      let cs = clients_of q.data_found in
      field st.list.query search_for
      ∷ heading (txt "Клиенты")
      ∷ span (subtitle q.is_pending cs)
      ∷ link (txt "/clients/new") (txt "+ Клиент")
      ∷ metrics number q.is_pending (map no_delta (metric_cells (count_by_status cs)))

  abbrev pub chips_row : ClientFilter → List Client → Markup Event
  chips_row f cs = join (map chip (chips (count_by_status cs) f))

  abbrev pub density_row : Bool → Markup Event
  density_row cozy = span (txt "Плотность") ∷ segmented_control (density_segments cozy)

  unfoldable pub page : PageState → Query (List Client) → Markup Event
  unfolding view rows_of
  page st q =
      let cs = clients_of q.data_found in
      top st q
      ++ (chips_row (filter_of st.list) cs
          ++ (density_row st.cozy
              ++ (body st (view lower st.list q.data_found q.is_pending q.is_error)
                  ++ footer st.list (rows_of lower st.list cs))))

  -- A visit, with what the query gives: after each gesture the page is drawn anew.
  unfoldable pub visit : Query (List Client) → List Gesture → PageState → PageState
  unfolding act page
  visit q [] st = st
  visit q (g ∷ gs) st = visit q gs (answer paging (gives g (page st q)) st)

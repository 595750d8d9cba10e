-- ===== src/Clients/Screen.antt =====
-- web/src/features/clients/ClientsPage.tsx: the filter in the address, the search, the pages and the
-- empty states of the list of clients. The table itself is a library's.
pub mod Laws
pub mod Page
mod Tests
use ahmed_sila.Base.{
  ℕ, zero, suc, ◌+◌, ◌*◌, Bool, true, false, ◌&&◌, ◌||◌, not, Option, none, some, List, [], ◌∷◌,
  ◌++◌, any, find, length, min, if◌then◌else◌,
}
use ahmed_sila.Text.{Text, txt, text_eq, trim}
use ahmed_sila.Text.Decimal.{show}
use ahmed_sila.Clients.Types.{ClientFilter, all, only, filter_key, filters, status_label, Client}
use ahmed_sila.Clients.Queries.{filter_clients}

-- The `status` parameter of the address and the page's own state.
pub record State : Type 0 where
  pub status_param : Option Text
  pub query : Text
  pub page_index : ℕ
  pub page_size : ℕ

abbrev pub page_sizes : List ℕ
page_sizes = 25 ∷ 50 ∷ 100 ∷ []

-- `isFilter(value)`, with the filter that has the text.
abbrev keyed : Text → List (ClientFilter × Text) → Option ClientFilter
keyed v [] = none
keyed v ((f, label) ∷ fs) =
    let rest = keyed v fs in if text_eq (filter_key f) v then some f else rest

unfoldable pub is_filter : Option Text → Option ClientFilter
is_filter none = none
is_filter (some v) = keyed v filters

unfoldable pub filter_of : State → ClientFilter
unfolding is_filter
filter_of st = elim (is_filter st.status_param) [ some f ↦ f | none ↦ all ]

abbrev pub first_page : State → State
first_page st = record st { page_index = 0 }

-- `setSearchParams(next === 'all' ? {} : { status: next })`
abbrev pub param_of : ClientFilter → Option Text
param_of all = none
param_of (only s) = some (filter_key (only s))

unfoldable pub set_filter : ClientFilter → State → State
set_filter f st = first_page (record st { status_param = param_of f })

unfoldable pub set_query : Text → State → State
set_query q st = first_page (record st { query = q })

unfoldable pub set_page_size : ℕ → State → State
set_page_size n st = record st { page_index = 0; page_size = n }

-- «Показать всех»
unfoldable pub show_all : State → State
unfolding set_filter
show_all st = record (set_filter all st) { query = [] }

unfoldable pub rows_of : (Text → Text) → State → List Client → List Client
unfolding filter_of
rows_of lower st cs = filter_clients lower cs (filter_of st) st.query

-- The numbers of the first and the last row of the page.
abbrev pub first_row : State → ℕ
first_row st = st.page_index * st.page_size + 1

abbrev pub last_row : State → ℕ → ℕ
last_row st n = min n ((st.page_index + 1) * st.page_size)

unfoldable pub range_label : State → ℕ → Text
range_label st zero = txt "0 из 0"
range_label st (suc n) =
    show (first_row st) ++ (0x2013 ∷ (show (last_row st (suc n)) ++ (txt " из " ++ show (suc n))))

abbrev pub is_blank : Text → Bool
is_blank [] = true
is_blank (c ∷ s) = false

abbrev pub is_narrow : ClientFilter → Bool
is_narrow all = false
is_narrow (only s) = true

unfoldable pub filter_is_narrowed : State → Bool
unfolding filter_of
filter_is_narrowed st = is_narrow (filter_of st) || not (is_blank (trim st.query))

-- `emptyFilterTitle`
abbrev label_of : ClientFilter → Text
label_of all = []
label_of (only s) = status_label s

unfoldable pub empty_filter_title : State → Text
unfolding filter_of
empty_filter_title st =
    if not (is_blank (trim st.query))
    then txt "Ничего не найдено"
    else txt "Нет клиентов со статусом «" ++ (label_of (filter_of st) ++ txt "»")

-- What stands under the chips.
pub data View : Type 0 where
  error_state skeleton no_clients : View
  no_matches : Text → View
  table : List Client → View

-- `data ?? []`
abbrev pub clients_of : Option (List Client) → List Client
clients_of none = []
clients_of (some cs) = cs

abbrev pub rows_view : State → List Client → View
rows_view st [] = if filter_is_narrowed st then no_matches (empty_filter_title st) else no_clients
rows_view st (c ∷ cs) = table (c ∷ cs)

unfoldable pub view :
    (Text → Text) → State → (data_found : Option (List Client)) (is_pending is_error : Bool) → View
unfolding rows_of filter_is_narrowed empty_filter_title
view lower st found is_pending is_error =
    if is_error
    then error_state
    else if is_pending
    then skeleton
    else rows_view st (rows_of lower st (clients_of found))

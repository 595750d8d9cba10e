-- ===== src/Clients/Screen/Tests.antt =====
-- A table of two pages, on which the second is opened.
use ahmed_sila.Base.{
  ℕ, zero, suc, ◌+◌, ◌-◌, ◌*◌, ◌<◌, ◌≡◌, refl, true, false, some, none, List, [], ◌∷◌, ltb, take,
  drop, length, arith,
}
use ahmed_sila.Text.{Text, trim}
use ahmed_sila.Clients.Queries.{filter_clients}
use ahmed_sila.Text.Decimal.{show}
use ahmed_sila.Markup.{press, gives}
use ahmed_sila.Tickets.Screen.{Query}
use ahmed_sila.Clients.Types.{Client}
use ahmed_sila.Clients.Store.Tests.{lower, rodnik}
use ahmed_sila.Clients.Screen.{filter_of, is_filter, rows_of, view, first_row, range_label}
use ahmed_sila.Clients.Screen.Page.{Paging, clients_table, page, visit, act, page_of}
use ahmed_sila.Clients.Screen.Page.Laws.{
  IsDocumented, shown_rows, end, shown, label_at, visit-page_of,
}

abbrev paging : Paging
paging = record {
  page_rows = λ i size cs. take size (drop (i * size) cs);
  can_previous = λ i size cs. ltb 0 i;
  can_next = λ i size cs. ltb ((i + 1) * size) (length cs);
  previous_index = λ i. i - 1;
  next_index = λ i. i + 1;
}

can_next_documented :
    (i size : ℕ) (cs : List Client)
    → ltb ((i + 1) * size) (length cs) ≡ true
    → (i + 1) * size < length cs
can_next_documented i size cs h = ground (arith, h)

abbrev documented : IsDocumented paging
documented = record {
  rows_lem = λ i size cs. refl;
  can_next_lem = can_next_documented;
  previous_lem = λ i. refl;
  next_lem = λ i. refl;
}

abbrev copies : ℕ → List Client
copies zero = []
copies (suc n) = rodnik.client ∷ copies n

abbrev answered : Query (List Client)
answered = record { data_found = some (copies 26); is_pending = false; is_error = false }

abbrev plain : Text → Text
plain t = t

matching :
    length (
      shown_rows show plain plain lower paging answered
        (end show plain plain lower paging answered (press 261 ∷ []) none))
    ≡ 26
unfolding visit gives filter_clients trim filter_of is_filter rows_of view act page_of clients_table
    page
matching = refl

some_match : (n : ℕ) → n ≡ 26 → 0 < n
some_match n e = omega (arith, e)

-- The button «Вперёд» is the part with the number 261.
visit-page_of_example :
    let st = end show plain plain lower paging answered (press 261 ∷ []) none in
    let rows = shown_rows show plain plain lower paging answered st in
    let on_page = shown show plain plain lower paging answered (press 261 ∷ []) none in
    (0 < length on_page)
    × (range_label st.list (length rows)
        ≡ label_at (first_row st.list) (length on_page) (length rows))
visit-page_of_example =
    visit-page_of show plain plain lower paging answered (press 261 ∷ []) none documented
      (some_match _ matching)

turned : (end show plain plain lower paging answered (press 261 ∷ []) none).list.page_index ≡ 1
unfolding visit gives filter_clients trim filter_of is_filter rows_of view act page_of clients_table
    page
turned = refl

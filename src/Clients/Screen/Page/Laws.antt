-- ===== src/Clients/Screen/Page/Laws.antt =====
-- The rows that the list of clients shows, and the label that counts them.
use ahmed_sila.Base.{
  ℕ, zero, suc, ◌+◌, ◌-◌, ◌*◌, ◌<◌, min, ◌≡◌, refl, ap, Bool, true, false, not, Option, none, some,
  List, [], ◌∷◌, ◌++◌, map, take, drop, length, length-take, length-drop, ◌⊎◌, inl, inr, Member,
  All, arith,
}
use ahmed_sila.Text.{Text, txt}
use ahmed_sila.Text.Decimal.{show}
use ahmed_sila.Markup.{Gesture, gives, join, Markup, metrics, empty_state}
use ahmed_sila.Markup.Laws.{Offers, Allowed, gives-Allowed, All-append, All-join, button-Offers}
use ahmed_sila.Tickets.Screen.{Query}
use ahmed_sila.Clients.Types.{Client, ClientFilter}
use ahmed_sila.Clients.Screen.{
  State, range_label, page_sizes, set_filter, set_query, set_page_size, show_all, rows_of,
  first_row, last_row, clients_of, filter_of, view, View, error_state, skeleton, no_clients,
  no_matches, table,
}
use ahmed_sila.Clients.Table.{Cell, metric_cells, linked, status_dot, plain, divider, actions}
use ahmed_sila.Clients.Queries.{count_by_status}
use ahmed_sila.Base.Int.{ℤ}
use ahmed_sila.Clients.Screen.Page.{
  Paging, PageState, top, no_delta, chips_row, density_row, cell_nodes, header_nodes, row_nodes,
  clients_table, body, footer, start, Event, search_for, filter_by, choose_density, choose_size,
  show_everyone, create_client, previous_page, next_page, refetch, page_of, page, act, answer,
  visit,
}

-- What the table library's documentation says of pages.
pub record IsDocumented (p : Paging) : Type 0 where
  pub rows_lem :
      (i size : ℕ) (cs : List Client) → p.page_rows i size cs ≡ take size (drop (i * size) cs)
  -- there is a next page where some row stands after this one
  pub can_next_lem :
      (i size : ℕ) (cs : List Client) → p.can_next i size cs ≡ true → (i + 1) * size < length cs
  pub previous_lem : (i : ℕ) → p.previous_index i ≡ i - 1
  pub next_lem : (i : ℕ) → p.next_index i ≡ i + 1

-- The page is one of the choices' size, and there are rows on it, or it is the first.
abbrev pub IsOnRows : State → ℕ → Type 0
IsOnRows st n =
    Member st.page_size page_sizes × ((st.page_index ≡ 0) ⊎ (st.page_index * st.page_size < n))

on_rows_shown :
    (i size : ℕ) (cs : List Client)
    → Member size page_sizes
    → (i ≡ 0) ⊎ (i * size < length cs)
    → 0 < length cs
    → (0 < length (take size (drop (i * size) cs)))
      × (i * size + length (take size (drop (i * size) cs)) ≡ min (length cs) ((i + 1) * size))
on_rows_shown i size cs m h p =
    let n = length-drop (i * size) cs in
    let k = length-take size (drop (i * size) cs) in ground (arith, m, h, p, n, k)

-- The label of so many rows from the one with that number on.
abbrev pub label_at : (first count all : ℕ) → Text
label_at first count all =
    show first ++ (0x2013 ∷ (show (first + count - 1) ++ (txt " из " ++ show all)))

range_label-label_at :
    (st : State) (n count : ℕ)
    → 0 < n
    → st.page_index * st.page_size + count ≡ last_row st n
    → range_label st n ≡ label_at (first_row st) count n
unfolding range_label
range_label-label_at st zero count p e = ground arith
range_label-label_at st (suc n) count p e =
    let k : last_row st (suc n) ≡ first_row st + count - 1 = omega (arith, e) in
    ap (λ k. show (first_row st) ++ (0x2013 ∷ (show k ++ (txt " из " ++ show (suc n))))) k

back_on_rows :
    (i size n : ℕ)
    → Member size page_sizes
    → (i ≡ 0) ⊎ (i * size < n)
    → (i - 1 ≡ 0) ⊎ ((i - 1) * size < n)
back_on_rows i size n m h = ground (arith, m, h)

-- The button of the next page is offered only where the table has one, and each size is one of three.
abbrev R : Paging → State → List Client → Event → Type 0
R paging st rows next_page = paging.can_next st.page_index st.page_size rows ≡ true
R paging st rows (choose_size n) = Member n page_sizes
R paging st rows _ = Unit {0}

holds_when_enabled : (b : Bool) → not b ≡ false → b ≡ true
holds_when_enabled b h = ground (arith, h)

module _ (number : ℕ → Text) (relative date : Text → Text) (lower : Text → Text) (paging : Paging)
    (cs : List Client) where
  abbrev rows : PageState → List Client
  unfolding rows_of
  rows st = rows_of lower st.list cs

  step-IsOnRows :
      (st : PageState) (e : Event)
      → IsDocumented paging
      → R paging st.list (rows st) e
      → IsOnRows st.list (length (rows st))
      → IsOnRows (act paging e st).list (length (rows (act paging e st)))
  unfolding act rows_of set_filter set_query set_page_size show_all
  step-IsOnRows st (search_for t) d r (m, h) = (m, inl refl)
  step-IsOnRows st (filter_by f) d r (m, h) = (m, inl refl)
  step-IsOnRows st (choose_density cozy) d r h = h
  step-IsOnRows st (choose_size n) d r h = (r, inl refl)
  step-IsOnRows st show_everyone d r (m, h) = (m, inl refl)
  step-IsOnRows st create_client d r h = h
  step-IsOnRows st previous_page d r (m, h) = (
    m,
    rw (d.previous_lem st.list.page_index)
        (back_on_rows st.list.page_index st.list.page_size (length (rows st)) m h),
  )
  step-IsOnRows st next_page d r (m, h) = (
    m,
    rw (d.next_lem st.list.page_index)
        (inr (d.can_next_lem st.list.page_index st.list.page_size (rows st) r)),
  )
  step-IsOnRows st refetch d r h = h

  answer-IsOnRows :
      (o : Option Event) (st : PageState)
      → IsDocumented paging
      → Allowed (R paging st.list (rows st)) o
      → IsOnRows st.list (length (rows st))
      → IsOnRows (answer paging o st).list (length (rows (answer paging o st)))
  answer-IsOnRows none st d r h = h
  answer-IsOnRows (some e) st d r h = step-IsOnRows st e d r h

  -- Everything that the parts give is allowed.
  abbrev Keeps : PageState → Markup Event → Type 0
  Keeps st m = All (Offers (R paging st.list (rows st))) m

  metrics-Offers :
      (st : PageState) (loading : Bool) (ms : List (Text × ℕ × Option ℤ))
      → Keeps st (metrics number loading ms)
  metrics-Offers st loading [] = tt
  metrics-Offers st true ((label, value, delta) ∷ ms) = (tt, (tt, metrics-Offers st true ms))
  metrics-Offers st false ((label, value, none) ∷ ms) = (tt, (tt, metrics-Offers st false ms))
  metrics-Offers st false ((label, value, some d) ∷ ms) =
      (tt, (tt, (tt, metrics-Offers st false ms)))

  chips-Offers :
      (st : PageState) (f : ClientFilter)
      → Keeps st (chips_row number relative date lower paging f cs)
  chips-Offers st f = ground arith

  density-Offers :
      (st : PageState) (cozy : Bool) → Keeps st (density_row number relative date lower paging cozy)
  density-Offers st cozy = ground arith

  cell-Offers : (st : PageState) (k : Cell) → Keeps st (cell_nodes k)
  cell-Offers st (linked (path, name, none)) = ground arith
  cell-Offers st (linked (path, name, some t)) = ground arith
  cell-Offers st (status_dot s) = ground arith
  cell-Offers st (plain t) = ground arith
  cell-Offers st divider = ground arith
  cell-Offers st (actions card suspension label) = ground arith

  row-Offers :
      (st : PageState) (c : Client)
      → Keeps st (row_nodes number relative date lower paging st.cozy c)
  row-Offers st c = ground arith

  table-Offers :
      (st : PageState) (us : List Client)
      → Keeps st (clients_table number relative date lower paging st us)
  unfolding page_of clients_table
  table-Offers st us =
      let head : Keeps st (header_nodes number relative date lower paging st.cozy) = ground arith in
      All-append (R paging st.list (rows st))
        (header_nodes number relative date lower paging st.cozy)
        (join
          (map (row_nodes number relative date lower paging st.cozy) (page_of paging st.list us)))
        head
        (All-join (R paging st.list (rows st)) (row_nodes number relative date lower paging st.cozy)
          (page_of paging st.list us) (row-Offers st))

  empty-Offers :
      (st : PageState) (name hint label : Text) (e : Event)
      → R paging st.list (rows st) e
      → Keeps st
          (clients_table number relative date lower paging st [] ++ empty_state name hint label e)
  empty-Offers st name hint label e r =
      let rest : Keeps st (empty_state name hint label e) = (tt, (tt, (r, tt))) in
      All-append (R paging st.list (rows st))
        (clients_table number relative date lower paging st []) (empty_state name hint label e)
        (table-Offers st []) rest

  body-Offers : (st : PageState) (v : View) → Keeps st (body number relative date lower paging st v)
  body-Offers st error_state = ground arith
  body-Offers st skeleton = ground arith
  body-Offers st no_clients =
      empty-Offers st (txt "Пока нет клиентов")
        (txt "Добавьте первого клиента, чтобы начать работу.") (txt "Создать клиента") create_client
        tt
  body-Offers st (no_matches name) =
      empty-Offers st name (txt "Измените фильтр или уточните запрос.") (txt "Показать всех")
        show_everyone tt
  body-Offers st (table us) = table-Offers st us

  footer-Offers :
      (st : PageState) → Keeps st (footer number relative date lower paging st.list (rows st))
  unfolding rows_of
  footer-Offers st =
      let next =
        button-Offers (R paging st.list (rows st)) (txt "Вперёд")
          (not (paging.can_next st.list.page_index st.list.page_size (rows st))) next_page
          (holds_when_enabled (paging.can_next st.list.page_index st.list.page_size (rows st))) in
      let previous =
        button-Offers (R paging st.list (rows st)) (txt "Назад")
          (not (paging.can_previous st.list.page_index st.list.page_size (rows st))) previous_page
          (λ h. tt) in
      (tt, (inl refl, (inr (inl refl), (inr (inr (inl refl)), (tt, (previous, (next, tt)))))))

  top-Offers :
      (st : PageState) (q : Query (List Client))
      → Keeps st (top number relative date lower paging st q)
  top-Offers st q = (
    (λ t. tt),
    (
      tt,
      (
        tt,
        (
          tt,
          metrics-Offers st q.is_pending (
              map (no_delta number relative date lower paging)
                (metric_cells (count_by_status (clients_of q.data_found)))),
        ),
      ),
    ),
  )

-- The parts of the page in their order.
module _ (number : ℕ → Text) (relative date : Text → Text) (lower : Text → Text) (paging : Paging)
    (q : Query (List Client)) where
  abbrev pub cs : List Client
  cs = clients_of q.data_found

  abbrev pub shown_rows : PageState → List Client
  unfolding rows_of
  shown_rows st = rows_of lower st.list cs

  abbrev Sound : PageState → Event → Type 0
  Sound st = R paging st.list (shown_rows st)

  abbrev drawn : PageState → Markup Event
  unfolding page
  drawn st = page number relative date lower paging st q

  page-Offers : (st : PageState) → All (Offers (Sound st)) (drawn st)
  unfolding page
  page-Offers st =
      let v = view lower st.list q.data_found q.is_pending q.is_error in
      let t = top number relative date lower paging st q in
      let c = chips_row number relative date lower paging (filter_of st.list) cs in
      let d = density_row number relative date lower paging st.cozy in
      let b = body number relative date lower paging st v in
      let f = footer number relative date lower paging st.list (shown_rows st) in
      let keeps_f = footer-Offers number relative date lower paging cs st in
      let keeps_b = body-Offers number relative date lower paging cs st v in
      let keeps_d = density-Offers number relative date lower paging cs st st.cozy in
      let keeps_c = chips-Offers number relative date lower paging cs st (filter_of st.list) in
      let keeps_t = top-Offers number relative date lower paging cs st q in
      All-append (Sound st) t (c ++ (d ++ (b ++ f))) keeps_t (
        All-append (Sound st) c (d ++ (b ++ f)) keeps_c
          (All-append (Sound st) d (b ++ f) keeps_d (All-append (Sound st) b f keeps_b keeps_f)))

  visit-IsOnRows :
      (gs : List Gesture) (st : PageState)
      → IsDocumented paging
      → IsOnRows st.list (length (shown_rows st))
      → let end = visit number relative date lower paging q gs st in
        IsOnRows end.list (length (shown_rows end))
  unfolding visit
  visit-IsOnRows [] st d h = h
  visit-IsOnRows (g ∷ gs) st d h = visit-IsOnRows gs (answer paging (gives g (drawn st)) st) d (
      answer-IsOnRows number relative date lower paging cs (gives g (drawn st)) st d
        (gives-Allowed (Sound st) g (drawn st) (page-Offers st)) h)

  abbrev pub end : List Gesture → Option Text → PageState
  unfolding visit
  end gs param = visit number relative date lower paging q gs (start param)

  -- The rows of the table's page at the end.
  abbrev pub shown : List Gesture → Option Text → List Client
  unfolding page_of
  shown gs param = page_of paging (end gs param).list (shown_rows (end gs param))

  -- Where the table library pages as its documentation says: after any gestures on the list of clients as it is drawn,
  -- while the query's answer stays, if some client matches the filter and the search then the table
  -- shows at least one, and the label under it names the first and the last of those shown.
  pub visit-page_of :
      (gs : List Gesture) (param : Option Text)
      → IsDocumented paging
      → 0 < length (shown_rows (end gs param))
      → (0 < length (shown gs param))
        × (range_label (end gs param).list (length (shown_rows (end gs param)))
            ≡ label_at
                (first_row (end gs param).list)
                (length (shown gs param))
                (length (shown_rows (end gs param))))
  unfolding visit page_of
  visit-page_of gs param d p =
      let (m, h) = visit-IsOnRows gs (start param) d (inl refl, inl refl) in
      let st = (end gs param).list in
      let all = shown_rows (end gs param) in
      let (some_shown, count) = on_rows_shown st.page_index st.page_size all m h p in
      rw (d.rows_lem st.page_index st.page_size all) (
        some_shown,
        range_label-label_at st (length all)
            (length (take st.page_size (drop (st.page_index * st.page_size) all))) p count,
      )

-- ===== src/Clients/Screen/Laws.antt =====
-- The filter's place in the address, the rows' numbers, and the empty states of the list of clients.
use ahmed_sila.Base.{
  ℕ, ◌≤◌, ◌<◌, ◌≡◌, refl, ap, ◌∙◌, ◌≢◌, ◌↔◌, ◌⊎◌, inl, inr, Bool, true, false, Option, none, some,
  List, [], ◌∷◌, filter_all, arith, Member, Bool-cases,
}
use ahmed_sila.Text.{Text, txt, text_eq, trim}
use ahmed_sila.Clients.Types.{active, trial, paused, ClientFilter, all, only, Client}
use ahmed_sila.Clients.Queries.{filter_clients}
use ahmed_sila.Clients.Screen.{
  State, page_sizes, is_filter, filter_of, set_filter, set_query, set_page_size, show_all, rows_of,
  first_row, last_row, filter_is_narrowed, no_clients, view, param_of, is_narrow, is_blank,
  clients_of, rows_view,
}

read-param :
    (f : ClientFilter)
    → (elim (is_filter (param_of f)) as (λ _. ClientFilter) [ some g ↦ g | none ↦ all ]) ≡ f
unfolding is_filter text_eq
read-param all = refl
read-param (only active) = refl
read-param (only trial) = refl
read-param (only paused) = refl

-- A filter that is set is the filter that the address then gives, and an address without a known
-- status gives all clients.
pub filter_of-set_filter :
    (f : ClientFilter) (st : State)
    → (filter_of (set_filter f st) ≡ f)
      × (filter_of (record st { status_param = none }) ≡ all)
      × (filter_of (record st { status_param = some (txt "closed") }) ≡ all)
unfolding filter_of set_filter is_filter text_eq
filter_of-set_filter f st = (read-param f, refl, refl)

-- The page's first and last row, of `n` rows.
abbrev pub Fits : State → ℕ → Type 0
Fits st n =
    (first_row st ≡ 1) × (1 ≤ last_row st n) × (last_row st n ≤ n) × (last_row st n ≤ st.page_size)

-- After the filter, the search or the size of the page is changed, the numbers of the page's rows fit
-- the rows that there are: a first and a last row, at most the page's size apart, from row 1 on.
pub set_filter-Fits :
    (st : State) (f : ClientFilter) (q : Text) (size n : ℕ)
    → Member size page_sizes
    → Member st.page_size page_sizes
    → 0 < n
    → Fits (set_filter f st) n × Fits (set_query q st) n × Fits (set_page_size size st) n
unfolding set_filter set_query set_page_size
set_filter-Fits st f q size n ms mp h = ground (arith, ms, mp, h)

filter_clients-all :
    (lower : Text → Text) (cs : List Client) (query : Text)
    → lower [] ≡ []
    → trim query ≡ []
    → filter_clients lower cs all query ≡ cs
unfolding filter_clients
filter_clients-all lower cs query l h = rw h (rw l (filter_all _ cs (λ c. refl)))

narrow_iff : (f : ClientFilter) → (is_narrow f ≡ false) ↔ (f ≡ all)
narrow_iff all = ground arith
narrow_iff (only s) = ground arith

blank_iff : (t : Text) → (is_blank t ≡ true) ↔ (t ≡ [])
blank_iff [] = ground arith
blank_iff (c ∷ t) = ground arith

not_narrowed :
    (st : State) → filter_is_narrowed st ≡ false → (filter_of st ≡ all) × (trim st.query ≡ [])
unfolding filter_is_narrowed
not_narrowed st h = ground (arith, h, narrow_iff (filter_of st), blank_iff (trim st.query))

trim-nil : trim [] ≡ []
unfolding trim
trim-nil = refl

show_all-wide : (st : State) → filter_is_narrowed (show_all st) ≡ false
unfolding filter_is_narrowed show_all filter_of is_filter set_filter trim
show_all-wide st = refl

rows-cases : (cs : List Client) → (cs ≡ []) ⊎ ((c : Client) × (ds : List Client) × (cs ≡ c ∷ ds))
rows-cases [] = inl refl
rows-cases (c ∷ ds) = inr (c, ds, refl)

rows_view-narrowed :
    (st : State) (cs : List Client) → filter_is_narrowed st ≡ true → rows_view st cs ≢ no_clients
rows_view-narrowed st [] h = rw h (ground arith)
rows_view-narrowed st (c ∷ cs) h = ground arith

narrowed-view :
    (lower : Text → Text) (st : State) (found : Option (List Client)) (is_pending is_error : Bool)
    → filter_is_narrowed st ≡ true
    → view lower st found is_pending is_error ≢ no_clients
unfolding view
narrowed-view lower st found is_pending is_error h =
    ground (arith, rows_view-narrowed st (rows_of lower st (clients_of found)) h)

full-view :
    (lower : Text → Text) (st : State) (found : Option (List Client)) (is_pending is_error : Bool)
    (c : Client) (cs : List Client)
    → rows_of lower st (clients_of found) ≡ c ∷ cs
    → view lower st found is_pending is_error ≢ no_clients
unfolding view
full-view lower st found is_pending is_error c cs e = ground (arith, e)

no_clients-empty :
    (lower : Text → Text) (st : State) (found : Option (List Client)) (is_pending is_error : Bool)
    → lower [] ≡ []
    → (view lower st found is_pending is_error ≢ no_clients) ⊎ (clients_of found ≡ [])
unfolding view rows_of show_all
no_clients-empty lower st found is_pending is_error l = elim (Bool-cases (filter_is_narrowed st)) [
  | inl e ↦ inl (narrowed-view lower st found is_pending is_error e)
  | inr e ↦
      (let (f, q) = not_narrowed st e in
        let r : rows_of lower st (clients_of found) ≡ clients_of found =
          ap (λ g. filter_clients lower (clients_of found) g st.query) f
          ∙ filter_clients-all lower (clients_of found) st.query l q in
        elim (rows-cases (clients_of found)) [
          | inl z ↦ inr z
          | inr (c, cs, z) ↦ inl (λ h. full-view lower st found is_pending is_error c cs (r ∙ z) h)
        ])
]

-- The invitation to create a first client stands only where there are no clients at all; and where the
-- button «Показать всех» has been pressed, the screen shows all clients that there are and never says
-- that the filter left none. (The lower case of the empty text is taken to be empty.)
pub show_all-view :
    (lower : Text → Text) (st : State) (found : Option (List Client)) (is_pending is_error : Bool)
    → lower [] ≡ []
    → ((view lower st found is_pending is_error ≢ no_clients) ⊎ (clients_of found ≡ []))
      × (rows_of lower (show_all st) (clients_of found) ≡ clients_of found)
      × (filter_is_narrowed (show_all st) ≡ false)
unfolding view rows_of show_all
show_all-view lower st found is_pending is_error l = (
  no_clients-empty lower st found is_pending is_error l,
  filter_clients-all lower (clients_of found) [] l trim-nil,
  show_all-wide st,
)

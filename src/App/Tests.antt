-- ===== src/App/Tests.antt =====
-- An instance of the law of the routes, with a router that knows the static patterns and the star.
use ahmed_sila.Base.{
  ◌≡◌, refl, ap, ◌∙◌, ◌≢◌, ◌⊎◌, inl, inr, true, false, Bool, ◌&&◌, not, Option, none, some, List,
  find, Member, Member-find, find-some, arith,
}
use ahmed_sila.Text.{Text, txt, text_eq}
use ahmed_sila.Text.Laws.{text_eq_iff}
use ahmed_sila.Session.{AuthState, anonymous, authenticated}
use ahmed_sila.Shell.{NavItem, tickets}
use ahmed_sila.App.{page, redirect, new_client_page, any_path, login_path, app}
use ahmed_sila.App.Laws.{is_dynamic, folded, Ranks, Leads, app-nav}

abbrev is_exact : Text → Text → Bool
is_exact path p = text_eq p path && not (is_dynamic p)

abbrev is_alike : Text → Text → Bool
is_alike path p = text_eq (folded p) (folded path) && not (is_dynamic p)

abbrev is_star : Text → Bool
is_star p = text_eq p any_path

abbrev or_else : Option Text → Option Text → Option Text
or_else (some p) o = some p
or_else none o = o

abbrev best : List Text → Text → Option Text
best ps path =
    or_else (find (is_exact path) ps) (or_else (find (is_alike path) ps) (find is_star ps))

star_dynamic : (p : Text) → is_star p ≡ true → is_dynamic p ≡ true
star_dynamic p h = ap is_dynamic ((text_eq_iff p any_path).0 h)

or_else-cases : (p : Text) (o r : Option Text) → or_else o r ≡ some p → (o ≡ some p) ⊎ (r ≡ some p)
or_else-cases p none r h = inr h
or_else-cases p (some q) r h = inl h

or_else-some : (q : Text) (o r : Option Text) → r ≡ some q → or_else o r ≢ none
or_else-some q none r e h = ground (arith, e, h)
or_else-some q (some p) r e h = ground (arith, h)

or_else-not_none : (o r : Option Text) → r ≢ none → or_else o r ≢ none
or_else-not_none none r h e = h e
or_else-not_none (some p) r h e = ground (arith, e)

or_else-left : (q : Text) (o r : Option Text) → o ≡ some q → or_else o r ≡ some q
or_else-left q o r e = rw e refl

module _ (ps : List Text) (path : Text) where
  -- A pattern that is chosen is the path, or like it, or the star.
  best-cases :
      (p : Text)
      → best ps path ≡ some p
      → Member p ps × ((is_exact path p ≡ true) ⊎ (is_alike path p ≡ true) ⊎ (is_star p ≡ true))
  best-cases p h =
      elim (or_else-cases p (find (is_exact path) ps)
        (or_else (find (is_alike path) ps) (find is_star ps)) h) [
          | inl e ↦ (let (m, k) = Member-find (is_exact path) p ps e in (m, inl k))
          | inr r ↦ elim (or_else-cases p (find (is_alike path) ps) (find is_star ps) r) [
            | inl e ↦ (let (m, k) = Member-find (is_alike path) p ps e in (m, inr (inl k)))
            | inr e ↦ (let (m, k) = Member-find is_star p ps e in (m, inr (inr k)))
          ]
        ]

  static_at :
      (p : Text)
      → (is_exact path p ≡ true) ⊎ (is_alike path p ≡ true) ⊎ (is_star p ≡ true)
      → is_dynamic p ≡ false
      → folded p ≡ folded path
  static_at p (inl k) plain = ap folded ((text_eq_iff p path).0 (ground (arith, k)))
  static_at p (inr (inl k)) plain = (text_eq_iff (folded p) (folded path)).0 (ground (arith, k))
  static_at p (inr (inr k)) plain = ground (arith, star_dynamic p k, plain)

  first_at : (q : Text) → find (is_exact path) ps ≡ some q → best ps path ≡ some path
  first_at q e =
      let (_, k) = Member-find (is_exact path) q ps e in
      let same : q ≡ path = (text_eq_iff q path).0 (ground (arith, k)) in
      or_else-left path (find (is_exact path) ps)
        (or_else (find (is_alike path) ps) (find is_star ps)) (e ∙ ap some same)

  star_at : Member any_path ps → best ps path ≢ none
  unfolding text_eq
  star_at m =
      let (q, e) = find-some is_star any_path ps m refl in
      or_else-not_none (find (is_exact path) ps)
        (or_else (find (is_alike path) ps) (find is_star ps))
        (or_else-some q (find (is_alike path) ps) (find is_star ps) e)

exact_refl : (path : Text) → is_dynamic path ≡ false → is_exact path path ≡ true
exact_refl path h = ground (arith, h, (text_eq_iff path path).1 refl)

best-Ranks : Ranks best
best-Ranks = record {
  chosen = λ ps path p k e. (best-cases ps path p e).0;
  static_first = λ ps path k m h.
      (let (q, e) = find-some (is_exact path) path ps m (exact_refl path h) in
        first_at ps path q e);
  static_only = λ ps path p k plain e h. static_at ps path p (best-cases ps path p e).1 h;
  star = λ ps path k rooted m. star_at ps path m;
}

abbrev signed_in : AuthState
signed_in = record { access_token = some (txt "t"); user = none; status = authenticated }

abbrev signed_out : AuthState
signed_out = record { access_token = none; user = none; status = anonymous }

abbrev item : NavItem
item = record { key = tickets; label = txt "Обращения"; to = some (txt "/tickets"); badge = some 7 }

app-nav_example :
    Leads best best-Ranks signed_in signed_out item
    × (app best signed_in (txt "/clients/new") ≡ page new_client_page)
    × (app best signed_out (txt "/clients/new") ≡ redirect login_path)
app-nav_example =
    app-nav best best-Ranks signed_in signed_out (some 7) item refl refl (inr (inr (inl refl)))

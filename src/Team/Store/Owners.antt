-- ===== src/Team/Store/Owners.antt =====
-- The owners of the panel under the operations on the staff in memory.
use ahmed_sila.Base.{
  ◌≡◌, refl, ap, ◌∙◌, sym, inl, inr, false, Bool-cases, Option, none, some, [], ◌∷◌, find, arith,
}
use ahmed_sila.Text.{Text}
use ahmed_sila.Text.Laws.{text_eq_iff}
use ahmed_sila.Team.Types.{TeamRole, is_owner, TeamMember}
use ahmed_sila.Team.Store.{Staff, has_id, assign, update_role, revoke}
use ahmed_sila.Team.Store.Laws.{owners, without, find-assign, find-without}

-- No id stands twice.
abbrev pub IsStaff : Staff → Type 0
IsStaff [] = Unit
IsStaff (m ∷ ms) = (find (has_id m.id) ms ≡ none) × IsStaff ms

-- A member with the id, who is not an owner.
abbrev Common : Text → Staff → TeamMember → Type 0
Common id ms m = (find (has_id id) ms ≡ some m) × (is_owner m.role ≡ false)

owners-assign :
    (id : Text) (role : TeamRole) (ms : Staff) (m : TeamMember)
    → Common id ms m
    → is_owner role ≡ false
    → owners (assign id role ms) ≡ owners ms
unfolding assign
owners-assign id role [] m (e, k) h = refl
owners-assign id role (n ∷ ms) m (e, k) h = elim (Bool-cases (has_id id n)) [
  | inl q ↦
      (let same : n ≡ m = ground (arith, e, q) in
        let common : is_owner n.role ≡ false = ap (λ (x : TeamMember). is_owner x.role) same ∙ k in
        rw (q, h, common) refl)
  | inr q ↦ (let tail = owners-assign id role ms m (ground (arith, e, q), k) h in rw (q, tail) refl)
]

without-none : (id : Text) (ms : Staff) → find (has_id id) ms ≡ none → without id ms ≡ ms
without-none id [] e = refl
without-none id (n ∷ ms) e = ground (arith, e, without-none id ms)

owners-without :
    (id : Text) (ms : Staff) (m : TeamMember)
    → IsStaff ms
    → Common id ms m
    → owners (without id ms) ≡ owners ms
owners-without id [] m v (e, k) = refl
owners-without id (n ∷ ms) m (fresh, v) (e, k) = elim (Bool-cases (has_id id n)) [
  | inl q ↦
      (let same : n ≡ m = ground (arith, e, q) in
        let common : is_owner n.role ≡ false = ap (λ (x : TeamMember). is_owner x.role) same ∙ k in
        let alone : find (has_id id) ms ≡ none =
          ap (λ j. find (has_id j) ms) (sym ((text_eq_iff n.id id).0 q)) ∙ fresh in
        rw (q, common, without-none id ms alone) refl)
  | inr q ↦ (let tail = owners-without id ms m v (ground (arith, e, q), k) in rw (q, tail) refl)
]

IsStaff-assign :
    (id : Text) (role : TeamRole) (ms : Staff) → IsStaff ms → IsStaff (assign id role ms)
unfolding assign
IsStaff-assign id role [] v = tt
IsStaff-assign id role (n ∷ ms) (fresh, v) =
    ground (arith, IsStaff-assign id role ms v, find-assign id n.id role ms, fresh, v)

IsStaff-without : (id : Text) (ms : Staff) → IsStaff ms → IsStaff (without id ms)
IsStaff-without id [] v = tt
IsStaff-without id (n ∷ ms) (fresh, v) =
    ground (arith, IsStaff-without id ms v, find-without id n.id ms, fresh)

-- The owners stay as they are, and no id comes to stand twice.
abbrev pub Keeps : Staff → Staff → Type 0
Keeps ms ns = (owners ns ≡ owners ms) × IsStaff ns

update_found-Keeps :
    (id : Text) (r : TeamRole) (ms : Staff) (o : Option TeamMember)
    → IsStaff ms
    → is_owner r ≡ false
    → find (has_id id) ms ≡ o
    → Keeps ms (update_role id r ms).1
unfolding update_role
update_found-Keeps id r ms none v h e = ground (arith, e, v)
update_found-Keeps id r ms (some m) v h e = elim (Bool-cases (is_owner m.role)) [
  | inl k ↦ rw (e, k) (refl, v)
  | inr k ↦ rw (e, k) (owners-assign id r ms m (e, k) h, IsStaff-assign id r ms v)
]

-- A role that is not the owner's, given to whom it may be, keeps the owners.
pub update_role-Keeps :
    (id : Text) (r : TeamRole) (ms : Staff)
    → IsStaff ms
    → is_owner r ≡ false
    → Keeps ms (update_role id r ms).1
update_role-Keeps id r ms v h = update_found-Keeps id r ms (find (has_id id) ms) v h refl

revoke_found-Keeps :
    (id : Text) (ms : Staff) (o : Option TeamMember)
    → IsStaff ms
    → find (has_id id) ms ≡ o
    → Keeps ms (revoke id ms)
unfolding revoke
revoke_found-Keeps id ms none v e = rw e (refl, v)
revoke_found-Keeps id ms (some m) v e = elim (Bool-cases (is_owner m.role)) [
  | inl k ↦ rw (e, k) (refl, v)
  | inr k ↦ rw (e, k) (owners-without id ms m v (e, k), IsStaff-without id ms v)
]

-- A removal keeps the owners, whoever has the id.
pub revoke-Keeps : (id : Text) (ms : Staff) → IsStaff ms → Keeps ms (revoke id ms)
revoke-Keeps id ms v = revoke_found-Keeps id ms (find (has_id id) ms) v refl

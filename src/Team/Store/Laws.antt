-- ===== src/Team/Store/Laws.antt =====
-- What the operations on the staff in memory change, and what they never touch.
use ahmed_sila.Base.{
  ◌≡◌, refl, Option, none, some, [], ◌∷◌, filter, find, not, length, arith, if◌then◌else◌,
}
use ahmed_sila.Text.{Text, text_eq}
use ahmed_sila.Text.Laws.{text_eq_iff}
use ahmed_sila.Team.Types.{TeamRole, is_owner, TeamMember}
use ahmed_sila.Team.Store.{Staff, has_id, assign, update_role, revoke}

-- The owners, in their order.
abbrev pub owners : Staff → Staff
owners = filter (λ (m : TeamMember). is_owner m.role)

abbrev pub without : Text → Staff → Staff
without id = filter (λ m. not (has_id id m))

abbrev with_role : TeamRole → Option TeamMember → Option TeamMember
with_role role none = none
with_role role (some m) = some (record m { role = role })

-- What the two operations make of the member with the id, if there is one.
abbrev pub changed : TeamRole → Option TeamMember → Option TeamMember
changed role none = none
changed role (some m) = if is_owner m.role then some m else some (record m { role = role })

abbrev pub answered : TeamRole → Option TeamMember → Option TeamMember
answered role none = none
answered role (some m) = if is_owner m.role then none else some (record m { role = role })

abbrev pub revoked : Option TeamMember → Option TeamMember
revoked none = none
revoked (some m) = if is_owner m.role then some m else none

pub find-assign :
    (id j : Text) (role : TeamRole) (ms : Staff)
    → find (has_id j) (assign id role ms)
      ≡ (if text_eq id j then with_role role (find (has_id j) ms) else find (has_id j) ms)
unfolding assign
find-assign id j role [] = ground arith
find-assign id j role (m ∷ ms) =
    ground
      (arith, text_eq_iff id j, text_eq_iff m.id id, text_eq_iff m.id j, find-assign id j role ms)

length-assign : (id : Text) (role : TeamRole) (ms : Staff) → length (assign id role ms) ≡ length ms
unfolding assign
length-assign id role [] = refl
length-assign id role (m ∷ ms) = ground (arith, length-assign id role ms)

pub find-without :
    (id j : Text) (ms : Staff)
    → find (has_id j) (without id ms) ≡ (if text_eq id j then none else find (has_id j) ms)
find-without id j [] = ground arith
find-without id j (m ∷ ms) =
    ground (arith, text_eq_iff id j, text_eq_iff m.id id, text_eq_iff m.id j, find-without id j ms)

-- `updateRole` answers with the member in the new role, unless there is no such member or it is the
-- owner; the lookup of that id then gives that member, the owner as before, and every other lookup and
-- the number of members stay.
pub update_role_lem :
    (id j : Text) (role : TeamRole) (ms : Staff)
    → let r = update_role id role ms in
      (r.0 ≡ answered role (find (has_id id) ms))
      × (find (has_id j) r.1
          ≡ (if text_eq id j then changed role (find (has_id j) ms) else find (has_id j) ms))
      × (length r.1 ≡ length ms)
unfolding update_role
update_role_lem id j role ms =
    ground (arith, text_eq_iff id j, find-assign id j role ms, length-assign id role ms)

-- `revoke` takes out every member with the id, unless there is none or the first one is the owner: the
-- lookup of that id then gives nothing, the owner as before, and every other lookup stays.
pub revoke_lem :
    (id j : Text) (ms : Staff)
    → find (has_id j) (revoke id ms)
      ≡ (if text_eq id j then revoked (find (has_id j) ms) else find (has_id j) ms)
unfolding revoke
revoke_lem id j ms = ground (arith, text_eq_iff id j, find-without id j ms)

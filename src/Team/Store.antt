-- ===== src/Team/Store.antt =====
-- web/src/features/team/mock.ts: the staff in memory, which answers when the panel runs without a
-- backend. `lower` is `toLowerCase`; a draw of `Math.random()` is a number k that stands for k / 2^53.
-- The list of members is the module's variable `members`.
pub mod Laws
pub mod Owners
use ahmed_sila.Base.{
  ℕ, zero, suc, ◌*◌, ◌/◌, Bool, true, false, Option, none, some, List, [], ◌∷◌, ◌++◌, any, filter,
  find, not, if◌then◌else◌,
}
use ahmed_sila.Text.{Text, txt, text_eq, trim}
use ahmed_sila.Http.{Outcome, ok, thrown, plain_error}
use ahmed_sila.Team.Types.{TeamRole, is_owner, TeamMember}

abbrev pub Staff : Type 0
Staff = List TeamMember

abbrev pub alphabet : Text
alphabet = txt "ABCDEFGHJKLMNPQRSTUVWXYZabcdefghjkmnpqrstuvwxyz23456789"

abbrev char_at : Text → ℕ → Text
char_at [] i = []
char_at (c ∷ s) zero = c ∷ []
char_at (c ∷ s) (suc i) = char_at s i

-- `Array.from({ length: count }, …).join('')`, from the draw with the number `count - 1` down.
unfoldable pub token_of : ℕ → (ℕ → ℕ) → Text
token_of zero draw = []
token_of (suc count) draw =
    char_at alphabet (draw count * 55 / 9007199254740992) ++ token_of count draw

unfoldable pub random_token : (ℕ → ℕ) → Text
unfolding token_of
random_token draw = token_of 32 draw

unfoldable pub is_email_taken : (Text → Text) → Text → Staff → Bool
is_email_taken lower email ms =
    let needle = lower (trim email) in any (λ (m : TeamMember). text_eq (lower m.email) needle) ms

abbrev pub already_there : Text
already_there = txt "Этот сотрудник уже есть в команде"

-- `invite(email, _role)`: no member is added.
unfoldable pub invite : (Text → Text) → (ℕ → ℕ) → Text → TeamRole → Staff → Outcome Text
unfolding is_email_taken random_token
invite lower draw email role ms =
    if is_email_taken lower email ms
    then thrown (plain_error already_there)
    else ok (random_token draw)

abbrev pub has_id : Text → TeamMember → Bool
has_id id m = text_eq m.id id

-- `member.role = role` on the member that `find` gives.
unfoldable pub assign : Text → TeamRole → Staff → Staff
assign id role [] = []
assign id role (m ∷ ms) =
    let rest = assign id role ms in if has_id id m then record m { role = role } ∷ ms else m ∷ rest

abbrev pub update_found : Text → TeamRole → Staff → Option TeamMember → Option TeamMember × Staff
update_found id role ms none = (none, ms)
update_found id role ms (some m) =
    if is_owner m.role then (none, ms) else (some (record m { role = role }), assign id role ms)

unfoldable pub update_role : Text → TeamRole → Staff → Option TeamMember × Staff
update_role id role ms = update_found id role ms (find (has_id id) ms)

abbrev pub revoke_found : Text → Staff → Option TeamMember → Staff
revoke_found id ms none = ms
revoke_found id ms (some m) = if is_owner m.role then ms else filter (λ k. not (has_id id k)) ms

unfoldable pub revoke : Text → Staff → Staff
revoke id ms = revoke_found id ms (find (has_id id) ms)

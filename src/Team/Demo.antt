-- ===== src/Team/Demo.antt =====
-- web/src/features/team/mock.ts: the staff with which the panel starts. `at d h m` is `daysAgo(d, h, m)`.
use ahmed_sila.Base.{ℕ, Bool, true, false, Option, none, some, [], ◌∷◌}
use ahmed_sila.Text.{Text, txt}
use ahmed_sila.Team.Types.{TeamRole, owner, admin, support, viewer, TeamMember}
use ahmed_sila.Team.Store.{Staff}

module _ (at : (days hour minute : ℕ) → Text) where
  abbrev member : Text → Text → Text → TeamRole → Bool → Option Text → Bool → TeamMember
  member id name email role two_factor last_login is_me = record {
    id = id;
    name = name;
    email = email;
    role = role;
    two_factor_enabled = two_factor;
    last_login_at = last_login;
    is_me = is_me;
  }

  -- `members`
  abbrev pub demo_staff : Staff
  demo_staff =
      member (txt "1") (txt "Айдар Керимов") (txt "a.kerimov@example.kz") owner true
        (some (at 3 9 2)) true
      ∷ member (txt "2") (txt "Динара Тлеубаева") (txt "d.tleubaeva@example.kz") admin true
          (some (at 3 8 41)) false
      ∷ member (txt "3") (txt "Сауле Молдагалиева") (txt "s.moldagalieva@example.kz") support true
          (some (at 4 19 15)) false
      ∷ member (txt "4") (txt "Руслан Алиев") (txt "r.aliev@example.kz") support false (none) false
      ∷ member (txt "5") (txt "Мария Штерн") (txt "m.shtern@example.kz") viewer false
          (some (at 15 11 30)) false
      ∷ []

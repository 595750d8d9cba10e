-- ===== src/Session/Tests.antt =====
-- Instances of the session's laws, and runs of its functions.
use ahmed_sila.Base.{◌≡◌, refl, [], ◌∷◌}
use ahmed_sila.Text.{txt}
use ahmed_sila.Session.{AuthUser, Store, init, subscribe_auth}

abbrev pub aidar : AuthUser
aidar = record {
  id = txt "1";
  email = txt "a@example.kz";
  full_name = txt "Айдар Керимов";
  role = txt "owner";
  permissions = [];
}

abbrev heard : Store
heard = record init { listeners = 4 ∷ 7 ∷ [] }

subscribe_twice : (subscribe_auth 7 heard).listeners ≡ 4 ∷ 7 ∷ []
unfolding subscribe_auth
subscribe_twice = refl

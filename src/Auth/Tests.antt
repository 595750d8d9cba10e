-- ===== src/Auth/Tests.antt =====
-- Instances of the laws of signing in and out.
use ahmed_sila.Base.{ℕ, ◌≡◌, ◌≢◌, ◌⊎◌, false, none, some, []}
use ahmed_sila.Text.{txt}
use ahmed_sila.Session.{init}
use ahmed_sila.Session.Laws.{IsConsistent, IsConsistent-init}
use ahmed_sila.Http.{
  Failure, ok, thrown, Fetched, network_error, Network, World, do_refresh, request,
}
use ahmed_sila.Http.Payloads.{Shape, El, user}
use ahmed_sila.Http.Tests.{backend}
use ahmed_sila.Auth.{blank, children, require_auth, sign_in, logout, restore_session, get_init}
use ahmed_sila.Auth.Form.{Form, on_submit, message_of}
use ahmed_sila.Auth.Form.Laws.{on_submit_cases}
use ahmed_sila.Auth.Laws.{session-IsConsistent, restore_session_settles}

abbrev opened : World backend
opened = record { store = init; server = 0 }

session-IsConsistent_example :
    IsConsistent (sign_in backend (txt "a@b.kz") (txt "secret") opened).1.store.state
    × IsConsistent (logout backend opened).1.store.state
    × IsConsistent (restore_session backend opened).1.store.state
    × IsConsistent (request backend user (txt "/me") get_init opened).1.store.state
session-IsConsistent_example =
    session-IsConsistent backend user (txt "/me") (txt "a@b.kz") (txt "secret") get_init opened
      IsConsistent-init

restore_session_settles_example :
    let out = restore_session backend opened in
    ((out.0 ≡ ok tt) × (require_auth out.1.store.state ≢ blank))
    ⊎ ((f : Failure) × (out.0 ≡ thrown f)
        × ((do_refresh backend opened).0 ≡ thrown f)
        × (out.1.store ≡ opened.store))
restore_session_settles_example = restore_session_settles backend opened

-- No backend at all.
abbrev silence : (s : Shape) → Fetched (El s)
silence s = network_error

abbrev offline : Network
offline = record { State = ℕ; fetch = λ s r k. (silence s, k) }

abbrev stranded : World offline
stranded = record { store = init; server = 0 }

abbrev filled_in : Form
filled_in = record {
  email = txt " a@b.kz";
  password = txt "secret";
  error = txt "Неверный пароль";
  pending = false;
}

on_submit_cases_example :
    let out = on_submit backend filled_in opened in
    ((out.0.0 ≡ record filled_in { error = []; pending = false })
      × (out.0.1 ≡ some (txt "/overview"))
      × (require_auth out.1.store.state ≡ children))
    ⊎ ((e : Failure) × (out.0.0 ≡ record filled_in { error = message_of e; pending = false })
        × (out.0.1 ≡ none)
        × (out.1.store ≡ init))
on_submit_cases_example = on_submit_cases backend filled_in opened

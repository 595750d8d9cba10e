-- ===== src/Clients/Access/Laws.antt =====
-- What the access tab sends, and how its forms behave.
use ahmed_sila.Base.{◌≡◌, ◌≢◌, ◌↔◌, ◌⊎◌, Bool, true, false, none, some, [], ◌∷◌, arith}
use ahmed_sila.Text.{Text, trim}
use ahmed_sila.Text.Laws.{text_eq_iff, trim_idem}
use ahmed_sila.Clients.Access.{
  Panel, on_suspend, is_blank, Danger, open_confirm, can_delete, deletes, delete_disabled,
  type_reason,
}

blank_iff : (t : Text) → (is_blank t ≡ true) ↔ (t ≡ [])
blank_iff [] = ground arith
blank_iff (c ∷ t) = ground arith

-- The form of a suspension sends a reason exactly when one is typed, that is not only white space, and
-- sends it trimmed; otherwise nothing is sent, and the form stays open and says that it is missing,
-- until something is typed.
pub on_suspend_lem :
    (p : Panel) (v : Text)
    → ((trim p.reason ≢ []) × (on_suspend p ≡ (p, some (trim p.reason))))
      ⊎ ((trim p.reason ≡ [])
          × ((on_suspend p).1 ≡ none)
          × ((on_suspend p).0.reason_missing ≡ true)
          × ((on_suspend p).0.form_open ≡ p.form_open)
          × ((type_reason v (on_suspend p).0).reason_missing ≡ false))
unfolding on_suspend
on_suspend_lem p v = ground (arith, blank_iff (trim p.reason))

-- What is sent is trimmed and not empty.
pub on_suspend-sent : (p : Panel) (r : Text) → (on_suspend p).1 ≡ some r → (r ≢ []) × (trim r ≡ r)
unfolding on_suspend
on_suspend-sent p r h = ground (arith, h, blank_iff (trim p.reason), trim_idem p.reason)

-- The client is deleted exactly when the modal's text is its name, but for white space around it, and
-- no deletion is under way; a modal that has just been opened cannot delete a client that has a name,
-- whatever was typed before.
pub deletes_iff :
    (name : Text) (is_pending : Bool) (d : Danger)
    → ((deletes name is_pending d ≡ true) ↔ ((trim d.typed_name ≡ name) × (is_pending ≡ false)))
      × ((name ≡ []) ⊎ (deletes name is_pending (open_confirm d) ≡ false))
unfolding deletes delete_disabled can_delete open_confirm trim
deletes_iff name is_pending d =
    (ground (arith, text_eq_iff (trim d.typed_name) name), ground (arith, text_eq_iff [] name))

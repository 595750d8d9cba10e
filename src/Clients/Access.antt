-- ===== src/Clients/Access.antt =====
-- web/src/features/clients/tabs/ClientAccessTab.tsx: the panel of the access and the panel that deletes
-- the client. `lower` is `toLowerCase`.
pub mod Laws
pub mod Page
use ahmed_sila.Base.{
  Bool, true, false, ◌&&◌, ◌||◌, not, Option, none, some, List, [], ◌∷◌, ◌++◌, if◌then◌else◌,
}
use ahmed_sila.Text.{Text, txt, text_eq, trim}
use ahmed_sila.Clients.Types.{ActivationCode}

-- `AccessPanel`'s own state.
pub record Panel : Type 0 where
  pub form_open : Bool
  pub reason : Text
  pub reason_missing : Bool
  pub copied : Bool

abbrev pub panel_init : Bool → Panel
panel_init suspend_requested = record {
  form_open = suspend_requested;
  reason = [];
  reason_missing = false;
  copied = false;
}

-- `closeForm`: the state, and the address that replaces the present one.
abbrev pub closed_path : Text → Text
closed_path id = txt "/clients/" ++ (id ++ txt "/access")

unfoldable pub close_form : Text → Panel → Panel × Text
close_form id p =
    (record p { form_open = false; reason = []; reason_missing = false }, closed_path id)

abbrev pub type_reason : Text → Panel → Panel
type_reason v p = record p { reason = v; reason_missing = false }

abbrev pub is_blank : Text → Bool
is_blank [] = true
is_blank (c ∷ s) = false

-- `onSuspend`: the state, and what goes to `suspend.mutate`, whose `onSuccess` is `closeForm`.
unfoldable pub on_suspend : Panel → Panel × Option Text
on_suspend p =
    if is_blank (trim p.reason)
    then (record p { reason_missing = true }, none)
    else (p, some (trim p.reason))

-- The access button: `resume.mutate`, or the form.
unfoldable pub on_access : (paused : Bool) → Panel → Panel × Bool
on_access true p = (p, true)
on_access false p = (record p { form_open = true }, false)

unfoldable pub access_disabled : (suspending resuming : Bool) → Bool
access_disabled suspending resuming = suspending || resuming

unfoldable pub shows_form : (paused : Bool) → Panel → Bool
shows_form paused p = not paused && p.form_open

-- The text under the access button; the empty reason counts as none.
abbrev pub reason_text : (Text → Text) → Option Text → Text
reason_text lower none = []
reason_text lower (some []) = []
reason_text lower (some (c ∷ r)) = txt " Причина приостановки: " ++ (lower (c ∷ r) ++ txt ".")

unfoldable pub access_text : (Text → Text) → (paused : Bool) → Option Text → Text
access_text lower paused reason =
    if paused
    then txt "Сотрудники клиента снова смогут входить в систему." ++ reason_text lower reason
    else txt "Сотрудники клиента перестанут входить в систему. Нужно указать причину."

-- `onCopy`: what goes to the clipboard, and the callbacks of its promise and of the timer.
abbrev pub on_copy : Option ActivationCode → Option Text
on_copy none = none
on_copy (some a) = some a.code

abbrev pub on_written : Panel → Panel
on_written p = record p { copied = true }

abbrev pub on_timeout : Panel → Panel
on_timeout p = record p { copied = false }

-- `DangerPanel`'s own state.
pub record Danger : Type 0 where
  pub confirm_open : Bool
  pub typed_name : Text

abbrev pub danger_init : Danger
danger_init = record { confirm_open = false; typed_name = [] }

unfoldable pub open_confirm : Danger → Danger
open_confirm d = record { confirm_open = true; typed_name = [] }

abbrev pub close_confirm : Danger → Danger
close_confirm d = record d { confirm_open = false }

abbrev pub type_name : Text → Danger → Danger
type_name v d = record d { typed_name = v }

-- `canDelete`
unfoldable pub can_delete : Text → Danger → Bool
can_delete client_name d = text_eq (trim d.typed_name) client_name

unfoldable pub delete_disabled : Text → Bool → Danger → Bool
unfolding can_delete
delete_disabled client_name is_pending d = not (can_delete client_name d) || is_pending

-- A press of the modal's button: whether it deletes the client.
unfoldable pub deletes : Text → Bool → Danger → Bool
unfolding delete_disabled can_delete
deletes client_name is_pending d =
    not (delete_disabled client_name is_pending d) && can_delete client_name d

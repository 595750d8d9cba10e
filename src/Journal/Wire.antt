-- ===== src/Journal/Wire.antt =====
-- The response type of web/src/features/journal/api.ts.
use ahmed_sila.Base.{ℕ, Option}
use ahmed_sila.Text.{Text}
use ahmed_sila.Journal.Types.{JournalActionKind}

pub record JournalEntryWire : Type 0 where
  pub id : ℕ
  pub occurred_at : Text
  pub actor : Text
  pub kind : JournalActionKind
  pub text : Text
  pub client_id : Option Text
  pub client_name : Option Text

-- ===== src/Journal/Types.antt =====
-- web/src/features/journal/types.ts
use ahmed_sila.Base.{◌≡◌, ◌↔◌, Bool, true, false, Option, List, [], ◌∷◌, arith}
use ahmed_sila.Text.{Text, txt}

pub data JournalActionKind : Type 0 where
  access clients subscription tickets team : JournalActionKind

abbrev pub kind_label : JournalActionKind → Text
kind_label access = txt "Доступ"
kind_label clients = txt "Клиенты"
kind_label subscription = txt "Подписка"
kind_label tickets = txt "Обращения"
kind_label team = txt "Команда"

abbrev pub kind_order : List JournalActionKind
kind_order = access ∷ clients ∷ subscription ∷ tickets ∷ team ∷ []

abbrev pub kind_eq : JournalActionKind → JournalActionKind → Bool
kind_eq access access = true
kind_eq clients clients = true
kind_eq subscription subscription = true
kind_eq tickets tickets = true
kind_eq team team = true
kind_eq _ _ = false

pub kind_eq_iff : (a b : JournalActionKind) → (kind_eq a b ≡ true) ↔ (a ≡ b)
kind_eq_iff a b = ground arith

pub record GlobalJournalEntry : Type 0 where
  pub id : Text
  pub occurred_at : Text
  pub actor : Text
  pub kind : JournalActionKind
  pub text : Text
  pub client_id : Option Text
  pub client_name : Option Text

-- `'all' | string`
abbrev pub JournalActorFilter : Type 0
JournalActorFilter = Text

-- `'all' | JournalActionKind`
pub data JournalKindFilter : Type 0 where
  all : JournalKindFilter
  only : JournalActionKind → JournalKindFilter

-- `'7' | '30' | 'custom'`
pub data JournalPeriod : Type 0 where
  week month custom : JournalPeriod

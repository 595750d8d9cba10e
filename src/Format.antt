-- ===== src/Format.antt =====
-- web/src/lib/format.ts: dates and numbers for the interface. What `Intl` prints is a parameter; the
-- Russian plural categories of `Intl.PluralRules` are written out for whole numbers.
mod Tests
pub mod Plural
pub mod Relative
pub mod RuDate

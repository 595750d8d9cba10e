-- ===== src/Format/Relative.antt =====
-- `formatRelative` of web/src/lib/format.ts. A time is in milliseconds from the earliest instant that
-- a `Date` holds, so that it is no negative number. `Intl.RelativeTimeFormat` prints the result.
use ahmed_sila.Base.{ℕ, ◌+◌, ◌-◌, ◌*◌, ◌/◌, ◌≤◌, ◌<◌, List, [], ◌∷◌, leb, ltb, if◌then◌else◌, arith}

pub data TimeUnit : Type 0 where
  year month day hour minute : TimeUnit

abbrev pub size : TimeUnit → ℕ
size year = 365 * 24 * 60 * 60
size month = 30 * 24 * 60 * 60
size day = 24 * 60 * 60
size hour = 60 * 60
size minute = 60

abbrev pub units : List TimeUnit
units = year ∷ month ∷ day ∷ hour ∷ minute ∷ []

pub data Side : Type 0 where
  past future : Side

-- `Math.round(x / d)` of a number on either side of zero, as its size: halves go up.
abbrev pub round_div : Side → ℕ → ℕ → ℕ
round_div future x d = (2 * x + d) / (2 * d)
round_div past x d = (2 * x + d - 1) / (2 * d)

-- What the function prints: the fixed text, or a number of units.
pub data Shown : Type 0 where
  just_now : Shown
  ago ahead : ℕ → TimeUnit → Shown

abbrev shown : Side → ℕ → TimeUnit → Shown
shown past k u = ago k u
shown future k u = ahead k u

-- The loop over `UNITS`.
unfoldable pub choose : Side → ℕ → List TimeUnit → Shown
choose side abs [] = just_now
choose side abs (u ∷ us) =
    let rest = choose side abs us in
    if leb (size u) abs then shown side (round_div side abs (size u)) u else rest

unfoldable pub from_seconds : Side → ℕ → Shown
unfolding choose
from_seconds side abs = if ltb abs 60 then just_now else choose side abs units

unfoldable pub format_relative : ℕ → ℕ → Shown
unfolding from_seconds
format_relative time now =
    if leb now time
    then from_seconds future (round_div future (time - now) 1000)
    else from_seconds past (round_div past (now - time) 1000)

abbrev pub seconds_between : ℕ → ℕ → ℕ
seconds_between time now =
    if leb now time then round_div future (time - now) 1000 else round_div past (now - time) 1000

-- A unit is chosen for times below the next longer one.
abbrev pub limit : TimeUnit → ℕ → ℕ
limit year secs = secs + 1
limit month _ = size year
limit day _ = size month
limit hour _ = size day
limit minute _ = size hour

-- The most of a unit that can be shown.
abbrev pub most : TimeUnit → ℕ → ℕ
most year secs = secs
most month _ = 12
most day _ = 30
most hour _ = 24
most minute _ = 60

abbrev Fits : ℕ → ℕ → TimeUnit → Type 0
Fits secs k u = (size u ≤ secs) × (secs < limit u secs) × (1 ≤ k) × (k ≤ most u secs)

-- The rounded number of a unit is within half a unit of the time.
abbrev IsNear : ℕ → ℕ → TimeUnit → Type 0
IsNear secs k u = (2 * secs ≤ (2 * k + 1) * size u) × (2 * k * size u ≤ 2 * secs + size u)

abbrev pub Describes : ℕ → ℕ → Shown → Type 0
Describes time now just_now = seconds_between time now < 60
Describes time now (ago k u) =
    (time < now) × Fits (seconds_between time now) k u × IsNear (seconds_between time now) k u
Describes time now (ahead k u) =
    (now ≤ time) × Fits (seconds_between time now) k u × IsNear (seconds_between time now) k u

-- A time within a minute of now is shown as just now. Any other is shown as ago or ahead, by the side
-- of now on which it lies, in a unit that is not longer than the time between, rounded to the nearest
-- number of that unit, which is at least 1 and at most 60 minutes, 24 hours, 30 days or 12 months.
pub format_relative-Describes : (time now : ℕ) → Describes time now (format_relative time now)
unfolding format_relative
format_relative-Describes time now = ground arith

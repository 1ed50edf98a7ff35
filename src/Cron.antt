-- ===== src/Cron.antt =====
-- crates/cuartel-core/src/cron.rs: the values of a cron field and what they match. A text is the
-- list of its code points. `matches` subtracts on `u32`, and wraps around.
pub mod Chars
pub mod Parse
pub mod Calendar
pub mod Tick
pub mod Jobs
pub mod Valid
pub mod Decimal
pub mod Words
pub mod Pieces
pub mod Cases
pub mod Depth
pub mod Printed
pub mod RoundTrip
pub mod Reparse
pub mod Least
pub mod Meaning
pub mod Due
mod Tests
use cuartel.Common.{
  ℕ, ◌+◌, ◌-◌, ◌%◌, ◌^◌, String, Bool, true, false, ◌&&◌, ◌||◌, List, [], ◌∷◌, ltb, leb, ◌==◌,
  if◌then◌else◌,
}

abbrev pub Chars : Type 0
Chars = List ℕ

pub data CronError : Type 0 where
  invalid_field : String → Chars → CronError
  too_few_fields too_many_fields : ℕ → CronError
  value_out_of_range : String → ℕ → ℕ → ℕ → CronError
  no_next_tick : CronError

-- `Step` and `List` hold values again: a list of values is a data type of its own.
mutual
  pub data CronFieldValue : Type 0 where
    any : CronFieldValue
    exact : ℕ → CronFieldValue
    range : ℕ → ℕ → CronFieldValue
    step : CronFieldValue → ℕ → CronFieldValue
    list : Values → CronFieldValue

  pub data Values : Type 0 where
    nil : Values
    cons : CronFieldValue → Values → Values

pub record CronField : Type 0 where
  pub value : CronFieldValue
  pub min : ℕ
  pub max : ℕ

-- The `Step` case of `matches`, whose base is not looked into any deeper.
unfoldable pub step_matches : CronFieldValue → ℕ → ℕ → ℕ → Bool
step_matches any by val min = ((val + 2 ^ 32 - min) % 2 ^ 32) % by == 0
step_matches (range lo hi) by val min = leb lo val && leb val hi && (val - lo) % by == 0
step_matches _ by val min = false

unfoldable mutual
  unfolding step_matches

  pub value_matches : CronFieldValue → ℕ → ℕ → Bool
  value_matches any val min = true
  value_matches (exact v) val min = val == v
  value_matches (range lo hi) val min = leb lo val && leb val hi
  value_matches (step base k) val min = if k == 0 then false else step_matches base k val min
  value_matches (list items) val min = any_matches items val min

  pub any_matches : Values → ℕ → ℕ → Bool
  any_matches nil val min = false
  any_matches (cons v vs) val min = value_matches v val min || any_matches vs val min

unfoldable pub matches : CronField → ℕ → Bool
matches f val = value_matches f.value val f.min

pub record CronExpr : Type 0 where
  pub minute : CronField
  pub hour : CronField
  pub day_of_month : CronField
  pub month : CronField
  pub day_of_week : CronField

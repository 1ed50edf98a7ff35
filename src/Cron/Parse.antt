-- ===== src/Cron/Parse.antt =====
-- crates/cuartel-core/src/cron.rs: the parser of cron expressions and `Display`. `parse_field_value`
-- calls itself on shorter texts; its fuel is the depth of the calls, which is at most three.
use cuartel.Common.{
  ℕ, zero, suc, String, Bool, false, ◌||◌, List, [], ◌∷◌, ◌++◌, none, some, length, ltb, ◌==◌,
  if◌then◌else◌,
}
use cuartel.Cron.{
  Chars, invalid_field, too_few_fields, too_many_fields, value_out_of_range, CronFieldValue, any,
  exact, range, step, list, Values, nil, cons, CronField, CronExpr,
}
use cuartel.Cron.Chars.{
  contains, split, split_once, trim, split_whitespace, parse_u32, to_string, join,
}
use cuartel.Cron.Tick.{Outcome, ok, err, out_of_fuel}

infixl 5 ◌>>=◌ ◌>>◌
abbrev pub ◌>>=◌ : {A B : Type 0} → Outcome A → (A → Outcome B) → Outcome B
ok a >>= f = f a
err e >>= f = err e
out_of_fuel >>= f = out_of_fuel

abbrev pub ◌>>◌ : {B : Type 0} → Outcome (Unit {0}) → Outcome B → Outcome B
m >> k = m >>= λ _. k

-- `ok_or` and `map_err` on a failed number
abbrev pub number : String → Chars → Chars → Outcome ℕ
number field input text = elim (parse_u32 text) [
  | some n ↦ ok n
  | none ↦ err (invalid_field field input)
]

unfoldable pub validate_range : ℕ → String → ℕ → ℕ → Outcome (Unit {0})
validate_range val field min max =
    if ltb val min || ltb max val then err (value_out_of_range field val min max) else ok tt

-- The parts of a list, until the first error; the function is the parser of one part.
unfoldable pub parse_parts : (Chars → Outcome CronFieldValue) → List Chars → Outcome Values
unfolding trim
parse_parts parse [] = ok nil
parse_parts parse (p ∷ ps) = do v ← parse (trim p); vs ← parse_parts parse ps; ok (cons v vs)

abbrev pub is_star : Chars → Bool
is_star [] = false
is_star (c ∷ []) = c == 42
is_star (c ∷ d ∷ s) = false

module _ (field : String) (min max : ℕ) where
  -- `"lo-hi"`
  unfoldable pub parse_range : Chars → Chars → Chars → Outcome CronFieldValue
  unfolding parse_u32 validate_range
  parse_range input lo_text hi_text = do
    lo ← number field input lo_text
    hi ← number field input hi_text
    validate_range lo field min max
    validate_range hi field min max
    ok (range lo hi)

  -- `"*"` or a number
  unfoldable pub parse_single : Chars → Outcome CronFieldValue
  unfolding parse_u32 validate_range
  parse_single input =
      if is_star input
      then ok any
      else (do val ← number field input input; validate_range val field min max; ok (exact val))

  abbrev pub guard_step : ℕ → Chars → Outcome (Unit {0})
  guard_step k input = if k == 0 then err (invalid_field field input) else ok tt

  -- `"base/step"`, with what the parser makes of the base
  unfoldable pub parse_step : Chars → Outcome CronFieldValue → Chars → Outcome CronFieldValue
  unfolding parse_u32
  parse_step input base step_text = do
    k ← number field input step_text
    guard_step k input
    b ← base
    ok (step b k)

  unfoldable pub parse_field_value : ℕ → Chars → Outcome CronFieldValue
  unfolding contains split split_once parse_parts parse_range parse_single parse_step
  parse_field_value zero input = out_of_fuel
  parse_field_value (suc depth) input =
      let parts = parse_parts (parse_field_value depth) (split 44 input) >>= (λ vs. ok (list vs)) in
      if contains 44 input then parts else elim (split_once 47 input) [
        | some (base, step_text) ↦ parse_step input (parse_field_value depth base) step_text
        | none ↦ elim (split_once 45 input) [
          | some (lo_text, hi_text) ↦ parse_range input lo_text hi_text
          | none ↦ parse_single input
        ]
      ]

  abbrev pub depth : ℕ
  depth = 3

  unfoldable pub parse_field : Chars → Outcome CronField
  unfolding parse_field_value
  parse_field input = do
    value ← parse_field_value depth input
    ok (record { value = value; min = min; max = max })

-- The five fields in their order.
unfoldable pub parse_fields : Chars → Chars → Chars → Chars → Chars → Outcome CronExpr
unfolding parse_field
parse_fields a b c d e = do
  minute ← parse_field "minute" 0 59 a
  hour ← parse_field "hour" 0 23 b
  day_of_month ← parse_field "day_of_month" 1 31 c
  month ← parse_field "month" 1 12 d
  day_of_week ← parse_field "day_of_week" 0 6 e
  ok (record {
    minute = minute;
    hour = hour;
    day_of_month = day_of_month;
    month = month;
    day_of_week = day_of_week;
  })

-- `parse` on the pieces between white space.
unfoldable pub parse_words : List Chars → Outcome CronExpr
unfolding parse_fields
parse_words (a ∷ b ∷ c ∷ d ∷ e ∷ []) = parse_fields a b c d e
parse_words ws =
    if ltb (length ws) 5
    then err (too_few_fields (length ws))
    else err (too_many_fields (length ws))

unfoldable pub parse : Chars → Outcome CronExpr
unfolding split_whitespace parse_words
parse expr = parse_words (split_whitespace expr)

-- `Display`
unfoldable mutual
  unfolding to_string join

  pub value_str : CronFieldValue → Chars
  value_str any = 42 ∷ []
  value_str (exact n) = to_string n
  value_str (range lo hi) = to_string lo ++ (45 ∷ to_string hi)
  value_str (step base k) = value_str base ++ (47 ∷ to_string k)
  value_str (list items) = join 44 (value_strs items)

  pub value_strs : Values → List Chars
  value_strs nil = []
  value_strs (cons v vs) = value_str v ∷ value_strs vs

unfoldable pub display : CronExpr → Chars
unfolding value_str join
display e = join 32 (
    value_str e.minute.value
    ∷ value_str e.hour.value
    ∷ value_str e.day_of_month.value
    ∷ value_str e.month.value
    ∷ value_str e.day_of_week.value
    ∷ [])

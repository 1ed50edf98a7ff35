-- ===== src/Cron/Reparse.antt =====
-- Whole cron expressions: what `parse` returns, and that it reads what `Display` writes.
use cuartel.Common.{
  ℕ, ◌^◌, ◌<◌, ◌≡◌, refl, ap, ◌∙◌, String, Bool, true, false, List, [], ◌∷◌, arith, length, ltb,
  if◌then◌else◌, subst,
}
use cuartel.Cron.{Chars, CronField, CronExpr, too_few_fields, too_many_fields}
use cuartel.Cron.Chars.{split_whitespace, no_chars}
use cuartel.Cron.Tick.{Outcome, ok, err}
use cuartel.Cron.Parse.{parse_field, parse_fields, parse_words, parse, value_str, display}
use cuartel.Cron.Words.{IsSolid, split_whitespace-join}
use cuartel.Cron.Valid.{Good, Good-bind, IsValid}
use cuartel.Cron.Depth.{parse_field_value-IsValid}
use cuartel.Cron.Printed.{valid-IsSolid, valid_some}
use cuartel.Cron.RoundTrip.{valid_trip}

-- A field with a value that is valid in its bounds.
abbrev pub IsField : ℕ → ℕ → CronField → Type 0
IsField min max f = IsValid min max f.value × (f.min ≡ min) × (f.max ≡ max)

pub record IsExpr (e : CronExpr) : Type 0 where
  pub minutes : IsField 0 59 e.minute
  pub hours : IsField 0 23 e.hour
  pub days : IsField 1 31 e.day_of_month
  pub months : IsField 1 12 e.month
  pub weekdays : IsField 0 6 e.day_of_week

module _ (field : String) (min max : ℕ) where
  parse_field-Good : (s : Chars) → Good (IsField min max) (parse_field field min max s)
  unfolding parse_field
  parse_field-Good s =
      Good-bind (IsValid min max) _ _ _ (parse_field_value-IsValid field min max s)
        λ v valid. (valid, refl, refl)

  field_trip :
      (f : CronField)
      → max < 2 ^ 32
      → IsField min max f
      → parse_field field min max (value_str f.value) ≡ ok f
  unfolding parse_field
  field_trip f small h = rw (valid_trip field min max small f.value h.0) (ground (arith, h.1, h.2))

  printed :
      (f : CronField)
      → IsField min max f
      → IsSolid (value_str f.value) × (no_chars (value_str f.value) ≡ false)
  printed f h = (valid-IsSolid min max f.value h.0, valid_some min max f.value h.0)

parse_fields-Good : (a b c d e : Chars) → Good IsExpr (parse_fields a b c d e)
unfolding parse_fields
parse_fields-Good a b c d e =
    Good-bind (IsField 0 59) _ _ _ (parse_field-Good "minute" 0 59 a) λ minute v.
      Good-bind (IsField 0 23) _ _ _ (parse_field-Good "hour" 0 23 b) λ hour w.
        Good-bind (IsField 1 31) _ _ _ (parse_field-Good "day_of_month" 1 31 c) λ day x.
          Good-bind (IsField 1 12) _ _ _ (parse_field-Good "month" 1 12 d) λ month y.
            Good-bind (IsField 0 6) _ _ _ (parse_field-Good "day_of_week" 0 6 e)
              λ weekday z. record { minutes = v; hours = w; days = x; months = y; weekdays = z }

wrong_count :
    (n : ℕ) (x y : Outcome CronExpr)
    → Good IsExpr x
    → Good IsExpr y
    → Good IsExpr (if ltb n 5 then x else y)
wrong_count n x y h k = split (ltb n 5)
  where
    split : (b : Bool) → Good IsExpr (if b then x else y)
    split true = h
    split false = k

parse_words-Good : (ws : List Chars) → Good IsExpr (parse_words ws)
unfolding parse_words
parse_words-Good [] = tt
parse_words-Good (a ∷ []) = tt
parse_words-Good (a ∷ b ∷ []) = tt
parse_words-Good (a ∷ b ∷ c ∷ []) = tt
parse_words-Good (a ∷ b ∷ c ∷ d ∷ []) = tt
parse_words-Good (a ∷ b ∷ c ∷ d ∷ e ∷ []) = parse_fields-Good a b c d e
parse_words-Good (a ∷ b ∷ c ∷ d ∷ e ∷ f ∷ ws) =
    let n = length (a ∷ b ∷ c ∷ d ∷ e ∷ f ∷ ws) in
    wrong_count n (err (too_few_fields n)) (err (too_many_fields n)) tt tt

-- The parser always ends, and an expression that it accepts has five fields whose values lie in the
-- bounds of their fields, with steps above zero and lists of at least two items.
pub parse-IsExpr : (s : Chars) → Good IsExpr (parse s)
unfolding parse
parse-IsExpr s = parse_words-Good (split_whitespace s)

-- A well-formed expression is parsed from what `Display` writes of it.
pub display_trip : (e : CronExpr) → IsExpr e → parse (display e) ≡ ok e
unfolding parse display parse_words parse_fields
display_trip e h =
    ap parse_words (
      split_whitespace-join (value_str e.minute.value)
        (value_str e.hour.value
          ∷ value_str e.day_of_month.value
          ∷ value_str e.month.value
          ∷ value_str e.day_of_week.value
          ∷ [])
        (
          printed "minute" 0 59 e.minute h.minutes,
          (
            printed "hour" 0 23 e.hour h.hours,
            (
              printed "day_of_month" 1 31 e.day_of_month h.days,
              (
                printed "month" 1 12 e.month h.months,
                (printed "day_of_week" 0 6 e.day_of_week h.weekdays, tt),
              ),
            ),
          ),
        ))
    ∙ rw
        (
          field_trip "minute" 0 59 e.minute (omega arith) h.minutes,
          field_trip "hour" 0 23 e.hour (omega arith) h.hours,
          field_trip "day_of_month" 1 31 e.day_of_month (omega arith) h.days,
          field_trip "month" 1 12 e.month (omega arith) h.months,
          field_trip "day_of_week" 0 6 e.day_of_week (omega arith) h.weekdays,
        )
        refl

-- An expression that was parsed from any text is parsed again, unchanged, from what `Display`
-- writes of it.
pub parse-display : (s : Chars) (e : CronExpr) → parse s ≡ ok e → parse (display e) ≡ ok e
parse-display s e h = display_trip e (subst (Good IsExpr) h (parse-IsExpr s))

-- ===== src/Cron/Tests.antt =====
-- Cron expressions on a calendar of years with twelve months of thirty days.
use cuartel.Common.{
  ℕ, ◌+◌, ◌-◌, ◌*◌, ◌/◌, ◌%◌, ◌≤◌, ◌<◌, ◌≡◌, ◌↔◌, refl, String, true, [], ◌∷◌, Option, none, some,
  arith,
}
use Prim.Native.Char.{code}
use cuartel.Common.Text.{is_whitespace}
use cuartel.Agent.{pi}
use cuartel.Cron.{
  Chars, too_few_fields, value_out_of_range, invalid_field, no_next_tick, any, exact, range, step,
  list, nil, cons, CronExpr, value_matches, matches,
}
use cuartel.Cron.Calendar.{Calendar, per_minute, per_hour, per_day, next_year, next_month}
use cuartel.Cron.Tick.{ok, err, next_tick, window, search_tick}
use cuartel.Cron.Parse.{parse, display, parse_field_value, depth}
use cuartel.Cron.Valid.{Good, IsValid}
use cuartel.Cron.Depth.{parse_field_value-IsValid}
use cuartel.Cron.Reparse.{IsExpr, parse-IsExpr, parse-display}
use cuartel.Cron.Least.{Finds, next_tick-least}
use cuartel.Cron.Meaning.{DenotesField, value_matches-DenotesField}
use cuartel.Cron.Jobs.{ScheduledJob, new, advance_schedule}
use cuartel.Cron.Due.{Advances, advance_schedule-Advances, exact_step_never}

abbrev codes : String → Chars
codes String.[] = []
codes (String.◌∷◌ c s) = code c ∷ codes s

abbrev month_of : ℕ → ℕ
month_of t = t / per_day / 30 % 12 + 1

abbrev first_day : ℕ → ℕ → Option ℕ
first_day year month = some ((year * 360 + (month - 1) * 30) * per_day)

month_end :
    (t : ℕ)
    → (n : ℕ) × (first_day (next_year (t / per_day / 360) (month_of t)) (next_month (month_of t))
        ≡ some (n * per_day))
      × (t / per_day < n)
      × ((s : ℕ) → t ≤ s → s / per_day < n → month_of s ≡ month_of t)
month_end t = ((t / per_day / 30 + 1) * 30, ground arith, omega arith, λ s from to. omega arith)

abbrev even_months : Calendar
even_months = record {
  minute = λ t. t / per_minute % 60;
  hour = λ t. t / per_hour % 24;
  day = λ t. t / per_day % 30 + 1;
  weekday = λ t. t / per_day % 7;
  month = month_of;
  year = λ t. t / per_day / 360;
  start_of_minute = λ t. some (t / per_minute * per_minute);
  start_of_hour = λ t. some (t / per_hour * per_hour);
  midnight = λ t. t / per_day * per_day;
  next_midnight = λ t. some ((t / per_day + 1) * per_day);
  first_of = first_day;
  start_of_minute_lem = λ t. refl;
  start_of_hour_lem = λ t. refl;
  next_midnight_lem = λ t. refl;
  same_hour = λ s t h. omega arith;
  same_day = λ s t h. (omega arith, omega arith);
  first_of_next = month_end;
}

abbrev quarter_hours : Chars
quarter_hours = codes "*/15 9-17 * * 1-5,0"

quarter_hours_parsed :
    parse quarter_hours
    ≡ ok (record {
      minute = record { value = step any 15; min = 0; max = 59 };
      hour = record { value = range 9 17; min = 0; max = 23 };
      day_of_month = record { value = any; min = 1; max = 31 };
      month = record { value = any; min = 1; max = 12 };
      day_of_week = record {
        value = list (cons (range 1 5) (cons (exact 0) nil));
        min = 0;
        max = 6;
      };
    })
unfolding parse is_whitespace
quarter_hours_parsed = refl

too_few : parse (codes "* * *") ≡ err (too_few_fields 3)
unfolding parse is_whitespace
too_few = refl

out_of_range : parse (codes "60 * * * *") ≡ err (value_out_of_range "minute" 60 0 59)
unfolding parse is_whitespace
out_of_range = refl

no_number : parse (codes "abc * * * *") ≡ err (invalid_field "minute" (codes "abc"))
unfolding parse is_whitespace
no_number = refl

abbrev nine_o_clock : CronExpr
nine_o_clock = record {
  minute = record { value = exact 0; min = 0; max = 59 };
  hour = record { value = exact 9; min = 0; max = 23 };
  day_of_month = record { value = any; min = 1; max = 31 };
  month = record { value = any; min = 1; max = 12 };
  day_of_week = record { value = any; min = 0; max = 6 };
}

-- Ten o'clock on the fourth day, in a search with little fuel.
next_morning :
    search_tick even_months 40 nine_o_clock (5 * per_day) (3 * per_day + 10 * per_hour)
    ≡ ok (4 * per_day + 9 * per_hour)
unfolding search_tick value_matches matches
next_morning = refl

parse-IsExpr_example : Good IsExpr (parse quarter_hours)
parse-IsExpr_example = parse-IsExpr quarter_hours

parse_field_value-IsValid_example :
    Good (IsValid 0 59) (parse_field_value "minute" 0 59 (depth "minute" 0 59) (codes "5,10-20"))
parse_field_value-IsValid_example = parse_field_value-IsValid "minute" 0 59 (codes "5,10-20")

abbrev nine : Chars
nine = codes "0 9 * * *"

parse-display_example : parse (display nine_o_clock) ≡ ok nine_o_clock
unfolding parse is_whitespace
parse-display_example = parse-display nine nine_o_clock refl

next_tick-least_example :
    Finds even_months nine_o_clock
      (7 + 1)
      (7 + window even_months)
      (next_tick even_months nine_o_clock 7)
next_tick-least_example = next_tick-least even_months nine_o_clock 7

value_matches-DenotesField_example :
    (value_matches (step any 15) 30 0 ≡ true) ↔ DenotesField 0 (step any 15) 30
value_matches-DenotesField_example =
    value_matches-DenotesField 0 59 30 (omega arith) (omega arith) (step any 15)
      (tt, omega arith, omega arith) tt

abbrev daily : ScheduledJob
daily = record {
  id = "j1";
  name = "Daily lint";
  cron_expr = nine;
  agent_type = pi;
  prompt = "Run lint";
  workspace_id = "ws-1";
  enabled = true;
  last_run_at = none;
  next_run_at = some 5;
  created_at = 0;
}

advance_schedule-Advances_example :
    Advances even_months daily 7 (advance_schedule even_months daily 7)
advance_schedule-Advances_example = advance_schedule-Advances even_months daily 7

abbrev five_by_ten : CronExpr
five_by_ten = record nine_o_clock {
  minute = record { value = step (exact 5) 10; min = 0; max = 59 };
}

five_by_ten_accepted : parse (codes "5/10 9 * * *") ≡ ok five_by_ten
unfolding parse is_whitespace
five_by_ten_accepted = refl

five_by_ten-IsExpr : IsExpr five_by_ten
five_by_ten-IsExpr = record {
  minutes = (((omega arith, omega arith), omega arith, omega arith), refl, refl);
  hours = ((omega arith, omega arith), refl, refl);
  days = (tt, refl, refl);
  months = (tt, refl, refl);
  weekdays = (tt, refl, refl);
}

exact_step_never_example :
    (parse (display five_by_ten) ≡ ok five_by_ten)
    × ((after : ℕ) → next_tick even_months five_by_ten after ≡ err no_next_tick)
    × (new even_months "j2" "Lint" (display five_by_ten) pi "Run lint" "ws-1" 7 ≡ err no_next_tick)
exact_step_never_example =
    exact_step_never even_months five_by_ten 5 10 "j2" "Lint" pi "Run lint" "ws-1" 7
      five_by_ten-IsExpr refl

five_by_ten_text : display five_by_ten ≡ codes "5/10 9 * * *"
unfolding display
five_by_ten_text = refl

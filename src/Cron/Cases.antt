-- ===== src/Cron/Cases.antt =====
-- The four branches of `parse_field_value`, as equations.
use cuartel.Common.{ℕ, suc, ◌≡◌, refl, String, true, false, none, some}
use cuartel.Cron.{Chars, list}
use cuartel.Cron.Chars.{contains, split, split_once}
use cuartel.Cron.Tick.{ok}
use cuartel.Cron.Parse.{
  ◌>>=◌, parse_parts, parse_range, parse_single, parse_step, parse_field_value,
}

module _ (field : String) (min max d : ℕ) (s : Chars) where
  pub list_case :
      contains 44 s ≡ true
      → parse_field_value field min max (suc d) s
        ≡ (parse_parts (parse_field_value field min max d) (split 44 s) >>= (λ vs. ok (list vs)))
  unfolding parse_field_value
  list_case comma = rw comma refl

  pub step_case :
      (base step_text : Chars)
      → contains 44 s ≡ false
      → split_once 47 s ≡ some (base, step_text)
      → parse_field_value field min max (suc d) s
        ≡ parse_step field min max s (parse_field_value field min max d base) step_text
  unfolding parse_field_value
  step_case base step_text no_comma slash = rw (no_comma, slash) refl

  pub range_case :
      (lo hi : Chars)
      → contains 44 s ≡ false
      → split_once 47 s ≡ none
      → split_once 45 s ≡ some (lo, hi)
      → parse_field_value field min max (suc d) s ≡ parse_range field min max s lo hi
  unfolding parse_field_value
  range_case lo hi no_comma no_slash dash = rw (no_comma, no_slash, dash) refl

  pub single_case :
      contains 44 s ≡ false
      → split_once 47 s ≡ none
      → split_once 45 s ≡ none
      → parse_field_value field min max (suc d) s ≡ parse_single field min max s
  unfolding parse_field_value
  single_case no_comma no_slash no_dash = rw (no_comma, no_slash, no_dash) refl

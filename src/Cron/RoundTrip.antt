-- ===== src/Cron/RoundTrip.antt =====
-- A cron expression that was parsed is parsed again from what `Display` writes of it.
use cuartel.Common.{
  ℕ, suc, ◌^◌, ◌≤◌, ◌<◌, ◌≡◌, refl, ◌∙◌, String, false, [], ◌∷◌, ◌++◌, All, arith, inl, inr,
}
use cuartel.Cron.{Chars, CronFieldValue, any, exact, range, step, list, Values, nil, cons}
use cuartel.Cron.Chars.{contains, split_once, to_string, join}
use cuartel.Cron.Tick.{ok}
use cuartel.Cron.Parse.{
  number, is_star, guard_step, validate_range, parse_parts, parse_range, parse_single, parse_step,
  parse_field_value, depth, value_str, value_strs,
}
use cuartel.Cron.Decimal.{IsDigit, to_string-IsDigit, parse_u32-to_string}
use cuartel.Cron.Words.{split_once-found, split_once-none, split-join, contains-join, trim-solid}
use cuartel.Cron.Cases.{list_case, step_case, range_case, single_case}
use cuartel.Cron.Valid.{IsPlain, IsItem, IsValid, AllItems}
use cuartel.Cron.Printed.{digits_lack, plain_lacks, item_lacks, item-IsSolid}

module _ (field : String) (min max : ℕ) (small : max < 2 ^ 32) where
  number-to_string : (n : ℕ) (input : Chars) → n < 2 ^ 32 → number field input (to_string n) ≡ ok n
  number-to_string n input h = rw (parse_u32-to_string n h, number) refl

  in_range : (n : ℕ) → min ≤ n → n ≤ max → validate_range n field min max ≡ ok tt
  unfolding validate_range
  in_range n low high = ground arith

  digit_no_star : (s : Chars) → All IsDigit s → is_star s ≡ false
  digit_no_star [] h = refl
  digit_no_star (c ∷ []) h = ground arith
  digit_no_star (c ∷ d ∷ s) h = refl

  star_trip : (d : ℕ) → parse_field_value field min max (suc d) (42 ∷ []) ≡ ok any
  unfolding contains split_once parse_single
  star_trip d = single_case field min max d (42 ∷ []) refl refl refl

  plain_trip :
      (d : ℕ) (v : CronFieldValue)
      → IsPlain min max v
      → parse_field_value field min max (suc d) (value_str v) ≡ ok v
  unfolding value_str parse_range parse_single
  plain_trip d any h = star_trip d
  plain_trip d (exact n) h =
      single_case field min max d (to_string n) (digits_lack 44 n (omega arith))
        (split_once-none 47 (to_string n) (digits_lack 47 n (omega arith)))
        (split_once-none 45 (to_string n) (digits_lack 45 n (omega arith)))
      ∙ rw
          (
            digit_no_star (to_string n) (to_string-IsDigit n),
            number-to_string n (to_string n) (omega arith),
            in_range n h.0 h.1,
          )
          refl
  plain_trip d (range lo hi) h =
      let s = to_string lo ++ (45 ∷ to_string hi) in
      range_case field min max d s (to_string lo) (to_string hi)
        (plain_lacks min max 44 (range lo hi) h (inl refl))
        (split_once-none 47 s (plain_lacks min max 47 (range lo hi) h (inr refl)))
        (split_once-found 45 (to_string lo) (to_string hi) (digits_lack 45 lo (omega arith)))
      ∙ rw
          (
            number-to_string lo s (omega arith),
            number-to_string hi s (omega arith),
            in_range lo h.0 h.1,
            in_range hi h.2 h.3,
          )
          refl
  plain_trip d (step base k) h = elim h [ ]
  plain_trip d (list items) h = elim h [ ]

  step_kept : (k : ℕ) (input : Chars) → 0 < k → guard_step field min max k input ≡ ok tt
  step_kept k input h = ground arith

  item_trip :
      (d : ℕ) (v : CronFieldValue)
      → IsItem min max v
      → parse_field_value field min max (suc (suc d)) (value_str v) ≡ ok v
  unfolding value_str parse_step
  item_trip d any h = plain_trip (suc d) any h
  item_trip d (exact n) h = plain_trip (suc d) (exact n) h
  item_trip d (range lo hi) h = plain_trip (suc d) (range lo hi) h
  item_trip d (list items) h = elim h [ ]
  item_trip d (step base k) h =
      let s = value_str base ++ (47 ∷ to_string k) in
      step_case field min max (suc d) s (value_str base) (to_string k)
        (item_lacks min max (step base k) h)
        (split_once-found 47 (value_str base) (to_string k)
          (plain_lacks min max 47 base h.0 (inr refl)))
      ∙ rw (number-to_string k s h.2, step_kept k s h.1, plain_trip d base h.0) refl

  parts_trip :
      (d : ℕ) (vs : Values)
      → AllItems min max vs
      → parse_parts (parse_field_value field min max (suc (suc d))) (value_strs vs) ≡ ok vs
  unfolding value_strs parse_parts
  parts_trip d nil h = refl
  parts_trip d (cons v vs) h =
      rw
        (
          trim-solid (value_str v) (item-IsSolid min max v h.0),
          item_trip d v h.0,
          parts_trip d vs h.1,
        )
        refl

  parts_lack :
      (vs : Values) → AllItems min max vs → All (λ q. contains 44 q ≡ false) (value_strs vs)
  unfolding value_strs
  parts_lack nil h = tt
  parts_lack (cons v vs) h = (item_lacks min max v h.0, parts_lack vs h.1)

  pub valid_trip :
      (v : CronFieldValue)
      → IsValid min max v
      → parse_field_value field min max (depth field min max) (value_str v) ≡ ok v
  unfolding value_str value_strs
  valid_trip any h = item_trip 1 any h
  valid_trip (exact n) h = item_trip 1 (exact n) h
  valid_trip (range lo hi) h = item_trip 1 (range lo hi) h
  valid_trip (step base k) h = item_trip 1 (step base k) h
  valid_trip (list nil) h = elim h [ ]
  valid_trip (list (cons v nil)) h = elim h [ ]
  valid_trip (list (cons v (cons w vs))) h =
      let items = cons v (cons w vs) in
      let all : AllItems min max items = (h.0, (h.1, h.2)) in
      list_case field min max 2 (join 44 (value_strs items))
        (contains-join 44 (value_str v) (value_str w) (value_strs vs))
      ∙ rw
          (
            split-join 44 (value_str v) (value_str w ∷ value_strs vs) (parts_lack items all),
            parts_trip 0 items all,
          )
          refl

-- ===== src/Cron/Meaning.antt =====
-- The numbers that a cron field stands for.
use native.Mathlib.Nat.{mod-add-div', mul-mod_left}
use cuartel.Common.{
  ℕ, ◌+◌, ◌-◌, ◌*◌, ◌/◌, ◌%◌, ◌^◌, ◌≤◌, ◌<◌, ◌≡◌, ◌↔◌, ◌⊎◌, inl, inr, refl, ap, ◌∙◌, true, arith,
  Bool-cases,
}
use cuartel.Cron.{
  CronFieldValue, any, exact, range, step, list, Values, nil, cons, step_matches, value_matches,
  any_matches,
}
use cuartel.Cron.Valid.{IsItem, IsValid, AllItems}

-- The numbers from a start on in equal steps.
abbrev pub Stepped : ℕ → ℕ → ℕ → Type 0
Stepped start k val = (j : ℕ) × (val ≡ start + j * k)

-- `min` is the least number of the field: `*/k` counts from there.
abbrev pub Denotes : ℕ → CronFieldValue → ℕ → Type 0
Denotes min any val = Unit
Denotes min (exact n) val = val ≡ n
Denotes min (range lo hi) val = (lo ≤ val) × (val ≤ hi)
Denotes min (step any k) val = Stepped min k val
Denotes min (step (range lo hi) k) val = Stepped lo k val × (val ≤ hi)
Denotes min (step (exact n) k) val = Stepped n k val
Denotes min (step (step base j) k) val = ⊥
Denotes min (step (list items) k) val = ⊥
Denotes min (list items) val = ⊥

-- The items of a list, none of which is a list.
abbrev pub DenotesAny : ℕ → Values → ℕ → Type 0
DenotesAny min nil val = ⊥
DenotesAny min (cons v vs) val = Denotes min v val ⊎ DenotesAny min vs val

abbrev pub DenotesField : ℕ → CronFieldValue → ℕ → Type 0
DenotesField min (list items) val = DenotesAny min items val
DenotesField min any val = Unit
DenotesField min (exact n) val = Denotes min (exact n) val
DenotesField min (range lo hi) val = Denotes min (range lo hi) val
DenotesField min (step base k) val = Denotes min (step base k) val

-- The forms of a step that the comment on `CronExpr` lists: over all numbers or over a range.
abbrev pub IsSupported : CronFieldValue → Type 0
IsSupported (step (exact n) k) = ⊥
IsSupported (step any k) = Unit
IsSupported (step (range lo hi) k) = Unit
IsSupported (step (step base j) k) = Unit
IsSupported (step (list items) k) = Unit
IsSupported any = Unit
IsSupported (exact n) = Unit
IsSupported (range lo hi) = Unit
IsSupported (list items) = Unit

abbrev pub AllSupported : Values → Type 0
AllSupported nil = Unit
AllSupported (cons v vs) = IsSupported v × AllSupported vs

abbrev pub IsDocumented : CronFieldValue → Type 0
IsDocumented (list items) = AllSupported items
IsDocumented any = Unit
IsDocumented (exact n) = Unit
IsDocumented (range lo hi) = Unit
IsDocumented (step base k) = IsSupported (step base k)

step_of : (start k val : ℕ) → start ≤ val → 0 < k → ((val - start) % k ≡ 0) → Stepped start k val
step_of start k val low some_step h =
    ((val - start) / k, omega (arith, mod-add-div' (val - start) k))

on_step : (start k val : ℕ) → 0 < k → Stepped start k val → (val - start) % k ≡ 0
on_step start k val some_step (j, e) =
    let off : val - start ≡ j * k = omega arith in ap (λ d. d % k) off ∙ mul-mod_left j k

-- The subtraction does not wrap around for a number of the field.
unwrapped : (min val : ℕ) → min ≤ val → val < 2 ^ 32 → (val + 2 ^ 32 - min) % 2 ^ 32 ≡ val - min
unwrapped min val low small = omega arith

module _ (min max val : ℕ) (low : min ≤ val) (small : val < 2 ^ 32) where
  step_iff :
      (base : CronFieldValue) (k : ℕ)
      → IsItem min max (step base k)
      → IsSupported (step base k)
      → (value_matches (step base k) val min ≡ true) ↔ Denotes min (step base k) val
  unfolding value_matches step_matches
  step_iff any k h s = (
    λ e. step_of min k val low h.1 (ground (arith, unwrapped min val low small)),
    λ d. ground (arith, unwrapped min val low small, on_step min k val h.1 d),
  )
  step_iff (exact n) k h s = elim s [ ]
  step_iff (range lo hi) k h s = (
    λ e. (step_of lo k val (ground arith) h.1 (ground arith), ground arith),
    λ d. ground (arith, on_step lo k val h.1 d.0, started lo k d.0),
  )
    where
      started : (lo k : ℕ) → Stepped lo k val → lo ≤ val
      started lo k (j, e) = omega arith
  step_iff (step base j) k h s = elim h.0 [ ]
  step_iff (list items) k h s = elim h.0 [ ]

  item_iff :
      (v : CronFieldValue)
      → IsItem min max v
      → IsSupported v
      → (value_matches v val min ≡ true) ↔ Denotes min v val
  unfolding value_matches
  item_iff any h s = (λ _. tt, λ _. refl)
  item_iff (exact n) h s = ground arith
  item_iff (range lo hi) h s = ground arith
  item_iff (step base k) h s = step_iff base k h s
  item_iff (list items) h s = elim h [ ]

  items_iff :
      (vs : Values)
      → AllItems min max vs
      → AllSupported vs
      → (any_matches vs val min ≡ true) ↔ DenotesAny min vs val
  unfolding any_matches
  items_iff nil h s = (λ e. cc, λ d. elim d [ ])
  items_iff (cons v vs) h s =
      let (first, back) = item_iff v h.0 s.0 in
      let (rest, rest_back) = items_iff vs h.1 s.1 in
      (
        λ e. elim (Bool-cases (value_matches v val min)) [
          | inl yes_v ↦ inl (first yes_v)
          | inr no_v ↦ inr (rest (ground arith))
        ],
        λ d. elim d [ inl f ↦ rw (back f) refl | inr r ↦ ground (arith, rest_back r) ],
      )

  -- A number of the field is matched by the value of a parsed field exactly if it is one of those
  -- that the value stands for: every number for `*`, the number itself, the numbers of a range,
  -- those of a range or of the whole field that are a multiple of the step away from its start, and
  -- those of some item of a list. The value must have no step on a single number, such as `5/10`,
  -- which would stand for the numbers from that one on in such steps.
  pub value_matches-DenotesField :
      (v : CronFieldValue)
      → IsValid min max v
      → IsDocumented v
      → (value_matches v val min ≡ true) ↔ DenotesField min v val
  unfolding value_matches
  value_matches-DenotesField any h s = item_iff any h s
  value_matches-DenotesField (exact n) h s = item_iff (exact n) h s
  value_matches-DenotesField (range lo hi) h s = item_iff (range lo hi) h s
  value_matches-DenotesField (step base k) h s = item_iff (step base k) h s
  value_matches-DenotesField (list nil) h s = elim h [ ]
  value_matches-DenotesField (list (cons v nil)) h s = elim h [ ]
  value_matches-DenotesField (list (cons v (cons w vs))) h s =
      items_iff (cons v (cons w vs)) (h.0, (h.1, h.2)) s

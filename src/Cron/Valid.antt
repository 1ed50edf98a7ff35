-- ===== src/Cron/Valid.antt =====
-- What the parser of a field returns: within the bounds of the field, with steps above zero, and
-- with no list or step below another one. It never runs out of fuel.
use cuartel.Common.{
  ℕ, ◌+◌, ◌-◌, ◌*◌, ◌^◌, ◌≤◌, ◌<◌, ◌≡◌, refl, String, Bool, true, false, ◌||◌, [], ◌∷◌, some, arith,
  ltb, ◌==◌, if◌then◌else◌, Bool-cases, Option-cases, inl, inr,
}
use cuartel.Cron.{Chars, CronFieldValue, any, exact, range, step, list, Values, nil, cons}
use cuartel.Cron.Chars.{scan, parse_u32}
use cuartel.Cron.Tick.{Outcome, ok, err, out_of_fuel}
use cuartel.Cron.Parse.{
  ◌>>=◌, number, validate_range, parse_range, parse_single, parse_step, is_star, guard_step,
}

-- A postcondition of a successful run, which must not be out of fuel.
abbrev pub Good : {A : Type 0} → (A → Type 0) → Outcome A → Type 0
Good P (ok a) = P a
Good P (err e) = Unit
Good P out_of_fuel = ⊥

pub Good-bind :
    {A B : Type 0} (P : A → Type 0) (Q : B → Type 0) (m : Outcome A) (f : A → Outcome B)
    → Good P m
    → ((a : A) → P a → Good Q (f a))
    → Good Q (m >>= f)
Good-bind P Q (ok a) f h k = k a h
Good-bind P Q (err e) f h k = tt
Good-bind P Q out_of_fuel f h k = elim h [ ]

module _ (min max : ℕ) where
  abbrev pub IsPlain : CronFieldValue → Type 0
  IsPlain any = Unit
  IsPlain (exact n) = (min ≤ n) × (n ≤ max)
  IsPlain (range lo hi) = (min ≤ lo) × (lo ≤ max) × (min ≤ hi) × (hi ≤ max)
  IsPlain (step base k) = ⊥
  IsPlain (list items) = ⊥

  abbrev pub IsItem : CronFieldValue → Type 0
  IsItem (step base k) = IsPlain base × (0 < k) × (k < 2 ^ 32)
  IsItem any = Unit
  IsItem (exact n) = IsPlain (exact n)
  IsItem (range lo hi) = IsPlain (range lo hi)
  IsItem (list items) = ⊥

  abbrev pub AllItems : Values → Type 0
  AllItems nil = Unit
  AllItems (cons v vs) = IsItem v × AllItems vs

  abbrev pub IsValid : CronFieldValue → Type 0
  IsValid (list nil) = ⊥
  IsValid (list (cons v nil)) = ⊥
  IsValid (list (cons v (cons w vs))) = IsItem v × IsItem w × AllItems vs
  IsValid any = Unit
  IsValid (exact n) = IsPlain (exact n)
  IsValid (range lo hi) = IsPlain (range lo hi)
  IsValid (step base k) = IsItem (step base k)

  pub Plain-Item : (v : CronFieldValue) → IsPlain v → IsItem v
  Plain-Item any h = h
  Plain-Item (exact n) h = h
  Plain-Item (range lo hi) h = h
  Plain-Item (step base k) h = elim h [ ]
  Plain-Item (list items) h = h

  pub Item-Valid : (v : CronFieldValue) → IsItem v → IsValid v
  Item-Valid any h = h
  Item-Valid (exact n) h = h
  Item-Valid (range lo hi) h = h
  Item-Valid (step base k) h = h
  Item-Valid (list items) h = elim h [ ]

scan_bound : (n : ℕ) (s : Chars) (m : ℕ) → n < 2 ^ 32 → scan n s ≡ some m → m < 2 ^ 32
unfolding scan
scan_bound n [] m h e = ground arith
scan_bound n (c ∷ s) m h e = ground (arith, scan_bound (n * 10 + (c - 48)) s m)

parse_u32_bound : (s : Chars) (m : ℕ) → parse_u32 s ≡ some m → m < 2 ^ 32
unfolding parse_u32
parse_u32_bound [] m e = absurd (cc)
parse_u32_bound (c ∷ []) m e = ground (arith, scan_bound 0 (c ∷ []) m)
parse_u32_bound (c ∷ d ∷ s) m e = ground (arith, scan_bound 0 (d ∷ s) m, scan_bound 0 (c ∷ d ∷ s) m)

number-Good : (field : String) (input s : Chars) → Good (λ n. n < 2 ^ 32) (number field input s)
number-Good field input s = elim (Option-cases (parse_u32 s)) [
  | inl e ↦ rw (e, Good) tt
  | inr (n, e) ↦ rw (e, Good) (parse_u32_bound s n e)
]

validate_range-Good :
    (val : ℕ) (field : String) (min max : ℕ)
    → Good (λ _. (min ≤ val) × (val ≤ max)) (validate_range val field min max)
unfolding validate_range
validate_range-Good val field min max = elim (Bool-cases (ltb val min || ltb max val)) [
  | inl out ↦ rw (out, Good) tt
  | inr within ↦ rw (within, Good) (ground arith, ground arith)
]

Good-if :
    {A : Type 0} (P : A → Type 0) (b : Bool) (x y : Outcome A)
    → (b ≡ true → Good P x)
    → (b ≡ false → Good P y)
    → Good P (if b then x else y)
Good-if P true x y h k = h refl
Good-if P false x y h k = k refl

guard_step-Good :
    (field : String) (min max k : ℕ) (input : Chars)
    → Good (λ _. 0 < k) (guard_step field min max k input)
guard_step-Good field min max k input =
    Good-if (λ _. 0 < k) (k == 0) _ _ (λ e. tt) (λ e. ground arith)

module _ (field : String) (min max : ℕ) where
  pub parse_range-Good :
      (input lo hi : Chars) → Good (IsPlain min max) (parse_range field min max input lo hi)
  unfolding parse_range
  parse_range-Good input lo_text hi_text =
      Good-bind (λ n. n < 2 ^ 32) _ _ _ (number-Good field input lo_text)
        λ lo _.
          Good-bind (λ n. n < 2 ^ 32) _ _ _ (number-Good field input hi_text)
            λ hi _.
              Good-bind (λ _. (min ≤ lo) × (lo ≤ max)) _ _ _ (validate_range-Good lo field min max)
                λ _ a.
                  Good-bind (λ _. (min ≤ hi) × (hi ≤ max)) _ _ _
                    (validate_range-Good hi field min max) λ _ b. (a.0, a.1, b.0, b.1)

  pub parse_single-Good :
      (input : Chars) → Good (IsPlain min max) (parse_single field min max input)
  unfolding parse_single
  parse_single-Good input =
      Good-if (IsPlain min max) (is_star input) _ _ (λ _. tt)
        λ _.
          Good-bind (λ n. n < 2 ^ 32) _ _ _ (number-Good field input input)
            λ n _.
              Good-bind (λ _. (min ≤ n) × (n ≤ max)) _ _ _ (validate_range-Good n field min max)
                λ _ a. a

  pub parse_step-Good :
      (input step_text : Chars) (base : Outcome CronFieldValue)
      → Good (IsPlain min max) base
      → Good (IsItem min max) (parse_step field min max input base step_text)
  unfolding parse_step
  parse_step-Good input step_text base h =
      Good-bind (λ n. n < 2 ^ 32) _ _ _ (number-Good field input step_text)
        λ k low.
          Good-bind (λ _. 0 < k) _ _ _ (guard_step-Good field min max k input)
            λ _ some_step. Good-bind (IsPlain min max) _ base _ h λ b plain. (plain, some_step, low)

-- ===== src/Cron/Depth.antt =====
-- The three depths of `parse_field_value`: a base of a step, an item of a list, and a whole field.
use cuartel.Common.{
  ℕ, suc, ◌≤◌, ◌≡◌, refl, ap, String, false, List, [], ◌∷◌, none, All, arith, length, Bool-cases,
  Option-cases, inl, inr, subst,
}
use cuartel.Cron.{Chars, list, Values, nil, cons}
use cuartel.Cron.Chars.{contains, split, split_once, trim}
use cuartel.Cron.Tick.{Outcome, ok, err, out_of_fuel}
use cuartel.Cron.Parse.{parse_parts, parse_field_value, depth}
use cuartel.Cron.Cases.{list_case, step_case, range_case, single_case}
use cuartel.Cron.Words.{split_once-none}
use cuartel.Cron.Pieces.{
  contains-trim, contains-split, split_many, FirstLacks, split_once-FirstLacks,
  split_once-FirstLacks_too,
}
use cuartel.Cron.Valid.{
  Good, Good-bind, IsPlain, IsItem, IsValid, AllItems, Plain-Item, Item-Valid, parse_range-Good,
  parse_single-Good, parse_step-Good,
}

Good-mono :
    {A : Type 0} (P Q : A → Type 0) (m : Outcome A) → ((a : A) → P a → Q a) → Good P m → Good Q m
Good-mono P Q (ok a) k h = k a h
Good-mono P Q (err e) k h = tt
Good-mono P Q out_of_fuel k h = h

abbrev pub count : Values → ℕ
count nil = 0
count (cons v vs) = suc (count vs)

module _ (field : String) (min max : ℕ) where
  base-Good :
      (d : ℕ) (s : Chars)
      → contains 44 s ≡ false
      → split_once 47 s ≡ none
      → Good (IsPlain min max) (parse_field_value field min max (suc d) s)
  base-Good d s no_comma no_slash = elim (Option-cases (split_once 45 s)) [
    | inl e ↦
        rw (single_case field min max d s no_comma no_slash e) (parse_single-Good field min max s)
    | inr ((lo, hi), e) ↦
        rw (range_case field min max d s lo hi no_comma no_slash e)
          (parse_range-Good field min max s lo hi)
  ]

  IsItem-Good :
      (d : ℕ) (s : Chars)
      → contains 44 s ≡ false
      → Good (IsItem min max) (parse_field_value field min max (suc (suc d)) s)
  IsItem-Good d s no_comma = elim (Option-cases (split_once 47 s)) [
    | inl e ↦
        Good-mono (IsPlain min max) (IsItem min max) _ (Plain-Item min max)
          (base-Good (suc d) s no_comma e)
    | inr ((base, step_text), e) ↦
        let no_slash : contains 47 base ≡ false =
          subst (FirstLacks 47) e (split_once-FirstLacks 47 s) in
        let still : contains 44 base ≡ false =
          subst (FirstLacks 44) e (split_once-FirstLacks_too 44 47 s no_comma) in
        rw (step_case field min max (suc d) s base step_text no_comma e) (
          parse_step-Good field min max s step_text (parse_field_value field min max (suc d) base)
            (base-Good d base still (split_once-none 47 base no_slash)))
  ]

  parts-Good :
      (d : ℕ) (ps : List Chars)
      → All (λ p. contains 44 p ≡ false) ps
      → Good
          (λ vs. AllItems min max vs × (count vs ≡ length ps))
          (parse_parts (parse_field_value field min max (suc (suc d))) ps)
  unfolding parse_parts
  parts-Good d [] h = (tt, refl)
  parts-Good d (p ∷ ps) h =
      Good-bind (IsItem min max) _ _ _ (IsItem-Good d (trim p) (contains-trim 44 p h.0)) λ v item.
        Good-bind (λ vs. AllItems min max vs × (count vs ≡ length ps)) _ _ _ (parts-Good d ps h.1)
          λ vs rest. ((item, rest.0), ap suc rest.1)

  list-IsValid : (vs : Values) → AllItems min max vs → 2 ≤ count vs → IsValid min max (list vs)
  list-IsValid nil items h = absurd (omega arith)
  list-IsValid (cons v nil) items h = absurd (omega arith)
  list-IsValid (cons v (cons w vs)) items h = (items.0, items.1.0, items.1.1)

  -- The parser of a field ends within its depth, and what it returns lies in the bounds of the
  -- field, with steps above zero, no step in a step, and at least two items in a list.
  pub parse_field_value-IsValid :
      (s : Chars) → Good (IsValid min max) (parse_field_value field min max (depth field min max) s)
  parse_field_value-IsValid s = elim (Bool-cases (contains 44 s)) [
    | inr no_comma ↦
        Good-mono (IsItem min max) (IsValid min max) _ (Item-Valid min max)
          (IsItem-Good 1 s no_comma)
    | inl comma ↦ rw (list_case field min max 2 s comma) (
        Good-bind (λ vs. AllItems min max vs × (count vs ≡ length (split 44 s))) _ _ _
          (parts-Good 0 (split 44 s) (contains-split 44 s))
          λ vs h. list-IsValid vs h.0 (omega (arith, h.1, split_many 44 s comma)))
  ]

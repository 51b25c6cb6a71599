-- ===== src/Rules/Pattern/Height.antt =====
-- core/src/rules/pattern.rs: how deep the quantifiers of a pattern are nested, and how far they count.
use root_cx.Prelude.{
  ℕ, suc, ◌+◌, ◌≤◌, ◌<◌, ◌≡◌, Bool, true, false, some, Text, length, ltb, ltb→ge, Option,
  Option-cases, if◌then◌else◌, arith, refl, inl, inr, starts_with, bytes, ◌==◌,
}
use Prim.Native.Nat.{max}
use root_cx.Rules.Pattern.{
  Ast, RepetitionKind, zero_or_one, zero_or_more, one_or_more, range, exactly, at_least, bounded,
  repetition, group, capture_index, capture_name, non_capturing, alternation, concat, Asts, no_asts,
  ast_and, Why, Verdict, admitted, refused, ◌then_also◌, walk, walk_each, limiting_count,
  max_repeat, validate, max_pattern_chars, chars,
}

-- Quantifiers that stand under one another.
abbrev mutual
  pub star_height : Ast → ℕ
  star_height (repetition kind ast) = suc (star_height ast)
  star_height (group kind ast) = star_height ast
  star_height (alternation asts) = star_heights asts
  star_height (concat asts) = star_heights asts
  star_height _ = 0

  pub star_heights : Asts → ℕ
  star_heights no_asts = 0
  star_heights (ast_and ast asts) = max (star_height ast) (star_heights asts)

-- How often a range lets its operand stand, at the least or at the most: the larger of its numbers.
abbrev pub largest_number : RepetitionKind → ℕ
largest_number (range (exactly n)) = n
largest_number (range (at_least n)) = n
largest_number (range (bounded m n)) = max m n
largest_number _ = 0

-- The documented condition of `regex_syntax` on `{m,n}`: the first number is not the larger one.
abbrev pub IsOrdered : RepetitionKind → Type 0
IsOrdered (range (bounded m n)) = m ≤ n
IsOrdered _ = Unit {0}

abbrev mutual
  pub AllOrdered : Ast → Type 0
  AllOrdered (repetition kind ast) = IsOrdered kind × AllOrdered ast
  AllOrdered (group kind ast) = AllOrdered ast
  AllOrdered (alternation asts) = EachOrdered asts
  AllOrdered (concat asts) = EachOrdered asts
  AllOrdered _ = Unit {0}

  pub EachOrdered : Asts → Type 0
  EachOrdered no_asts = Unit {0}
  EachOrdered (ast_and ast asts) = AllOrdered ast × EachOrdered asts

-- The largest number in a range of the tree.
abbrev mutual
  pub largest_count : Ast → ℕ
  largest_count (repetition kind ast) = max (largest_number kind) (largest_count ast)
  largest_count (group kind ast) = largest_count ast
  largest_count (alternation asts) = largest_counts asts
  largest_count (concat asts) = largest_counts asts
  largest_count _ = 0

  pub largest_counts : Asts → ℕ
  largest_counts no_asts = 0
  largest_counts (ast_and ast asts) = max (largest_count ast) (largest_counts asts)

abbrev used : Bool → ℕ
used true = 1
used false = 0

abbrev IsTame : ℕ → ℕ → Bool → Type 0
IsTame height count repeated = (height + used repeated ≤ 1) × (count ≤ max_repeat)

then_also_split : (v w : Verdict) → (v then_also w) ≡ admitted → (v ≡ admitted) × (w ≡ admitted)
then_also_split admitted w h = (refl, h)
then_also_split (refused why) w h = cc

within_limit :
    (too_far : Bool) (why : Why) (inner : Verdict)
    → (if too_far then refused why else inner) ≡ admitted
    → (too_far ≡ false) × (inner ≡ admitted)
within_limit true why inner h = cc
within_limit false why inner h = (refl, h)

largest_number_lem :
    (kind : RepetitionKind) → IsOrdered kind → largest_number kind ≤ limiting_count kind
largest_number_lem zero_or_one ordered = omega arith
largest_number_lem zero_or_more ordered = omega arith
largest_number_lem one_or_more ordered = omega arith
largest_number_lem (range (exactly n)) ordered = omega arith
largest_number_lem (range (at_least n)) ordered = omega arith
largest_number_lem (range (bounded m n)) ordered = omega arith

repeated_once :
    (count number height inner_count : ℕ) (why : Why) (inner : Verdict)
    → (if ltb max_repeat count then refused why else inner) ≡ admitted
    → (inner ≡ admitted → IsTame height inner_count true)
    → number ≤ count
    → IsTame (suc height) (max number inner_count) false
repeated_once count number height inner_count why inner h ih le =
    let (near, ok_inner) = within_limit (ltb max_repeat count) why inner h in
    omega (arith, ltb→ge max_repeat count near, ih ok_inner)

mutual
  unfolding walk

  walk-IsTame :
      (ast : Ast) (repeated : Bool)
      → AllOrdered ast
      → walk ast repeated ≡ admitted
      → IsTame (star_height ast) (largest_count ast) repeated
  walk-IsTame (repetition kind ast) true o h = cc
  walk-IsTame (repetition kind ast) false o h =
      repeated_once (limiting_count kind) (largest_number kind) (star_height ast)
        (largest_count ast) _ (walk ast true) h (λ k. walk-IsTame ast true o.1 k)
        (largest_number_lem kind o.0)
  walk-IsTame (group capture_index ast) repeated o h = walk-IsTame ast repeated o h
  walk-IsTame (group capture_name ast) repeated o h = cc
  walk-IsTame (group (non_capturing true) ast) repeated o h = walk-IsTame ast repeated o h
  walk-IsTame (group (non_capturing false) ast) repeated o h = cc
  walk-IsTame (alternation asts) repeated o h = walk_each-IsTame asts repeated o h
  walk-IsTame (concat asts) repeated o h = walk_each-IsTame asts repeated o h
  walk-IsTame _ true o h = omega arith
  walk-IsTame _ false o h = omega arith

  walk_each-IsTame :
      (asts : Asts) (repeated : Bool)
      → EachOrdered asts
      → walk_each asts repeated ≡ admitted
      → IsTame (star_heights asts) (largest_counts asts) repeated
  walk_each-IsTame no_asts true o h = omega arith
  walk_each-IsTame no_asts false o h = omega arith
  walk_each-IsTame (ast_and ast asts) repeated o h =
      let (first, rest) = then_also_split (walk ast repeated) (walk_each asts repeated) h in
      omega (arith, walk-IsTame ast repeated o.0 first, walk_each-IsTame asts repeated o.1 rest)

-- What `validate` admits is not empty, has `max_pattern_chars` characters at most, and parses to a
-- tree with no quantifier under another, where neither number of a range is beyond `max_repeat`. The
-- parser is one that refuses `{m,n}` with m > n, as `regex_syntax` does.
pub validate-IsTame :
    (parse_regex : Text → Option Ast) (pattern : Text)
    → ((text : Text) (ast : Ast) → parse_regex text ≡ some ast → AllOrdered ast)
    → validate parse_regex pattern ≡ admitted
    → (0 < length pattern)
      × (chars pattern ≤ max_pattern_chars)
      × ((ast : Ast) × (parse_regex pattern ≡ some ast)
          × (star_height ast ≤ 1)
          × (largest_count ast ≤ max_repeat))
unfolding validate
validate-IsTame parse_regex pattern ordered h = elim (Option-cases (parse_regex pattern)) [
  | inl missing ↦ ground arith
  | inr (ast, found) ↦
      let (short, walked) = admitted_parts (walk ast false) (rw (found, validate) at h) in
      let (height, count) = walk-IsTame ast false (ordered pattern ast found) walked in
      (short.0, short.1, (ast, found, omega arith, count))
]
  where
    admitted_parts :
        (inner : Verdict)
        → (if length pattern == 0
            then refused Why.empty_pattern
            else if ltb max_pattern_chars (chars pattern)
            then refused Why.pattern_too_long
            else if starts_with pattern (bytes "***")
            then refused Why.directors
            else inner)
          ≡ admitted
        → ((0 < length pattern) × (chars pattern ≤ max_pattern_chars)) × (inner ≡ admitted)
    admitted_parts inner k = ground arith

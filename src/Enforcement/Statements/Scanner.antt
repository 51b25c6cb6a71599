-- ===== src/Enforcement/Statements/Scanner.antt =====
-- core/src/governance/enforcement/sql_proxy.rs, `strip_leading_noise` and `skip_block_comment`, beside
-- the database's own scanner.
use root_cx.Prelude.{
  ℕ, zero, suc, ◌-◌, ◌≤◌, ◌<◌, ◌≡◌, ◌≢◌, refl, sym, ap, subst, ◌∙◌, ◌⊎◌, inl, inr, true, false,
  ◌&&◌, Bool-cases, Option, some, Option-cases, [], ◌∷◌, ◌++◌, All, Text, and_split, drop, length,
  starts_with, starts_with_sound, ◌==◌, ==_iff, if◌then◌else◌, arith,
}
use root_cx.Prelude.Spaces.{space_width, trim_start}
use root_cx.Enforcement.Statements.{
  line_opening, block_opening, is_newline, after_line, skip_from, skip_block_comment, head, ran_out,
  behind_block, strip_loop,
}

-- What is behind a block comment that is open to a depth: comments nest.
pub data Closes : ℕ → Text → Text → Type 0 where
  last : {after : Text} → Closes 1 (b'*' ∷ b'/' ∷ after) after
  close :
      {depth : ℕ} {s after : Text}
      → Closes (suc depth) s after
      → Closes (suc (suc depth)) (b'*' ∷ b'/' ∷ s) after
  deeper :
      {depth : ℕ} {s after : Text}
      → Closes (suc depth) s after
      → Closes depth (b'/' ∷ b'*' ∷ s) after
  other :
      {depth a b : ℕ} {s after : Text}
      → (a == b'/' && b == b'*') ≡ false
      → (a == b'*' && b == b'/') ≡ false
      → Closes depth (b ∷ s) after
      → Closes depth (a ∷ b ∷ s) after

-- How PostgreSQL's scanner comes from a text to its first token: over white space, comments to the end
-- of a line, and block comments.
pub data Skips : Text → Text → Type 0 where
  here : {s : Text} → Skips s s
  space :
      {s h : Text} (width : ℕ)
      → space_width s ≡ suc width
      → Skips (drop (suc width) s) h
      → Skips s h
  line :
      {after h : Text} (body : Text) (newline : ℕ)
      → All (λ c. is_newline c ≡ false) body
      → is_newline newline ≡ true
      → Skips after h
      → Skips (line_opening ++ (body ++ newline ∷ after)) h
  block : {s after h : Text} → Closes 1 s after → Skips after h → Skips (block_opening ++ s) h

trim_start-drop : (n : ℕ) (s : Text) → trim_start n s ≡ trim_start 0 (drop n s)
unfolding trim_start
trim_start-drop zero s = refl
trim_start-drop (suc n) [] = refl
trim_start-drop (suc n) (c ∷ s) = trim_start-drop n s

length-drop : (n : ℕ) (s : Text) → length (drop n s) ≤ length s
length-drop zero s = omega arith
length-drop (suc n) [] = omega arith
length-drop (suc n) (c ∷ s) = omega (arith, length-drop n s)

pred_suc : (n : ℕ) → suc n - 1 ≡ n
pred_suc n = omega arith

suc_nonzero : (n : ℕ) → (suc n == 0) ≡ false
suc_nonzero n = ground arith

behind_space :
    (c : ℕ) (s h : Text) (width : ℕ)
    → space_width (c ∷ s) ≡ width
    → ((n : ℕ) → Skips (trim_start 0 (drop n s)) h → Skips (drop n s) h)
    → Skips (if width == 0 then c ∷ s else trim_start (width - 1) s) h
    → Skips (c ∷ s) h
behind_space c s h zero e next k = k
behind_space c s h (suc width) e next k = space width e (
    next width (
      subst (λ x. Skips x h) (trim_start-drop width s)
        (rw (suc_nonzero width, pred_suc width) at k)))

-- White space is skipped.
pub Skips-trim_start :
    (fuel : ℕ) (s h : Text) → length s ≤ fuel → Skips (trim_start 0 s) h → Skips s h
unfolding trim_start
Skips-trim_start fuel [] h bound k = k
Skips-trim_start zero (c ∷ s) h bound k = absurd (omega arith)
Skips-trim_start (suc fuel) (c ∷ s) h bound k =
    behind_space c s h (space_width (c ∷ s)) refl
      (λ n. Skips-trim_start fuel (drop n s) h (omega (arith, length-drop n s))) k

pub length-trim_start : (n : ℕ) (s : Text) → length (trim_start n s) ≤ length s
unfolding trim_start
length-trim_start n [] = omega arith
length-trim_start (suc n) (c ∷ s) = omega (arith, length-trim_start n s)
length-trim_start zero (c ∷ s) = ground (arith, length-trim_start (space_width (c ∷ s) - 1) s)

length-after_line : (s : Text) → length (after_line s) ≤ length s
unfolding after_line
length-after_line [] = omega arith
length-after_line (c ∷ s) = ground (arith, length-after_line s)

after_line-cases :
    (s : Text)
    → (after_line s ≡ [])
      ⊎ ((body : Text) × (newline : ℕ) × (s ≡ body ++ newline ∷ after_line s)
          × All (λ c. is_newline c ≡ false) body
          × (is_newline newline ≡ true))
unfolding after_line
after_line-cases [] = inl refl
after_line-cases (c ∷ s) = elim (Bool-cases (is_newline c)) [
  | inl t ↦ rw t (inr ([], c, refl, tt, t))
  | inr f ↦ rw f (elim (after_line-cases s) [
    | inl none_left ↦ inl none_left
    | inr (body, newline, same, clean, ends) ↦
        inr (c ∷ body, newline, ap (λ (x : Text). c ∷ x) same, (f, clean), ends)
  ])
]

closed :
    (depth : ℕ) (s after : Text)
    → ((d : ℕ)
        → skip_from (suc d) s ≡ some after
        → Closes (suc d) s after × (length after < length s))
    → (if depth == 0 then some s else skip_from depth s) ≡ some after
    → Closes (suc depth) (b'*' ∷ b'/' ∷ s) after × (length after < suc (suc (length s)))
closed zero s after next h = let same : s ≡ after = cc h in rw (← same) (last, omega arith)
closed (suc depth) s after next h =
    let (c, shorter) = next depth (rw (suc_nonzero depth) at h) in (close c, omega (arith, shorter))

skip_from-Closes :
    (fuel depth : ℕ) (s after : Text)
    → length s ≤ fuel
    → skip_from (suc depth) s ≡ some after
    → Closes (suc depth) s after × (length after < length s)
unfolding skip_from
skip_from-Closes fuel depth [] after bound h = cc
skip_from-Closes fuel depth (a ∷ []) after bound h = cc
skip_from-Closes zero depth (a ∷ b ∷ s) after bound h = absurd (omega arith)
skip_from-Closes (suc fuel) depth (a ∷ b ∷ s) after bound h =
    elim (Bool-cases (a == b'/' && b == b'*')) [
      | inl opens ↦
          let (first, second) = and_split (a == b'/') (b == b'*') opens in
          let (c, shorter) =
            skip_from-Closes fuel (suc depth) s after (omega arith) (rw opens at h) in
          rw ((==_iff a b'/').0 first, (==_iff b b'*').0 second) (deeper c, omega (arith, shorter))
      | inr no_open ↦ elim (Bool-cases (a == b'*' && b == b'/')) [
        | inr no_close ↦
            let (c, shorter) =
              skip_from-Closes fuel depth (b ∷ s) after (omega arith)
                (rw (no_open, no_close) at h) in
            (other no_open no_close c, omega (arith, shorter))
        | inl closes ↦
            let (first, second) = and_split (a == b'*') (b == b'/') closes in
            rw ((==_iff a b'*').0 first, (==_iff b b'/').0 second)
              (closed depth s after (λ d. skip_from-Closes fuel d s after (omega arith))
                (rw (no_open, closes, pred_suc depth) at h))
      ]
    ]

ended : (fuel : ℕ) (h : Text) → strip_loop fuel (trim_start 0 []) ≡ head h → [] ≡ h
unfolding strip_loop trim_start
ended zero h e = cc
ended (suc fuel) h e = cc

-- A first token that is there is reached over noise only.
pub strip_loop-Skips : (fuel : ℕ) (s h : Text) → strip_loop fuel s ≡ head h → h ≢ [] → Skips s h
unfolding strip_loop skip_block_comment
strip_loop-Skips zero s h e some_token = cc
strip_loop-Skips (suc fuel) s h e some_token = elim (Bool-cases (starts_with s line_opening)) [
  | inl t ↦
      let (rest, same) = starts_with_sound s line_opening t in
      let loop : strip_loop fuel (trim_start 0 (after_line rest)) ≡ head h =
        (ap (λ (x : Text). strip_loop fuel (trim_start 0 (after_line (drop 2 x)))) (sym same))
        ∙ (rw t at e) in
      rw same (elim (after_line-cases rest) [
        | inl none_left ↦ absurd (
            some_token (
              sym (
                ended fuel h
                  (ap (λ (x : Text). strip_loop fuel (trim_start 0 x)) (sym none_left) ∙ loop))))
        | inr (body, newline, whole, clean, ends) ↦ rw whole (
            line body newline clean ends (
              Skips-trim_start (length (after_line rest)) (after_line rest) h (omega arith)
                (strip_loop-Skips fuel _ h loop some_token)))
      ])
  | inr no_line ↦ elim (Bool-cases (starts_with s block_opening)) [
    | inl t ↦
        let (rest, same) = starts_with_sound s block_opening t in
        elim (Option-cases (skip_from 1 rest)) [
          | inl open_end ↦ cc (rw (no_line, t) at e)
          | inr (after, found) ↦
              let loop : strip_loop fuel (trim_start 0 after) ≡ head h =
                ap (λ (o : Option Text). behind_block o (λ x. strip_loop fuel (trim_start 0 x)))
                  (sym (ap (λ (x : Text). skip_from 1 (drop 2 x)) same ∙ found))
                ∙ (rw (no_line, t) at e) in
              let (c, shorter) = skip_from-Closes (length rest) 0 rest after (omega arith) found in
              rw same (
                block c (
                  Skips-trim_start (length after) after h (omega arith)
                    (strip_loop-Skips fuel _ h loop some_token)))
        ]
    | inr no_block ↦
        let same : s ≡ h = cc (rw (no_line, no_block) at e) in subst (Skips s) same here
  ]
]

pub strip_loop-ends : (fuel : ℕ) (s : Text) → length s < fuel → strip_loop fuel s ≢ ran_out
unfolding strip_loop skip_block_comment
strip_loop-ends zero s bound e = absurd (omega arith)
strip_loop-ends (suc fuel) s bound e = elim (Bool-cases (starts_with s line_opening)) [
  | inl t ↦
      let (rest, same) = starts_with_sound s line_opening t in
      let loop : strip_loop fuel (trim_start 0 (after_line rest)) ≡ ran_out =
        ap (λ (x : Text). strip_loop fuel (trim_start 0 (after_line (drop 2 x)))) (sym same)
        ∙ (rw t at e) in
      strip_loop-ends fuel _
        (omega (
          arith,
          ap (λ (x : Text). length x) same,
          length-after_line rest,
          length-trim_start 0 (after_line rest),
        ))
        loop
  | inr no_line ↦ elim (Bool-cases (starts_with s block_opening)) [
    | inr no_block ↦ cc (rw (no_line, no_block) at e)
    | inl t ↦
        let (rest, same) = starts_with_sound s block_opening t in
        elim (Option-cases (skip_from 1 rest)) [
          | inl open_end ↦ cc (
              ap (λ (o : Option Text). behind_block o (λ x. strip_loop fuel (trim_start 0 x)))
                (sym (ap (λ (x : Text). skip_from 1 (drop 2 x)) same ∙ open_end))
              ∙ (rw (no_line, t) at e))
          | inr (after, found) ↦
              let loop : strip_loop fuel (trim_start 0 after) ≡ ran_out =
                ap (λ (o : Option Text). behind_block o (λ x. strip_loop fuel (trim_start 0 x)))
                  (sym (ap (λ (x : Text). skip_from 1 (drop 2 x)) same ∙ found))
                ∙ (rw (no_line, t) at e) in
              let (c, shorter) = skip_from-Closes (length rest) 0 rest after (omega arith) found in
              strip_loop-ends fuel _
                (omega
                  (arith, shorter, ap (λ (x : Text). length x) same, length-trim_start 0 after))
                loop
        ]
  ]
]

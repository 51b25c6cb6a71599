-- ===== src/Authority/PermissionKeys.antt =====
-- core/src/manifest.rs: which texts are permission keys, and which of them an app may declare.
use root_cx.Prelude.{
  ℕ, ◌≡◌, Bool, true, false, ◌||◌, Option, none, some, List, [], ◌∷◌, Text, bytes, text_eq, any,
  all, and_split, strip_suffix, is_lower, is_digit, ◌==◌, if◌then◌else◌, arith,
}

-- `matches!(b, b'_' | b':' | b'.' | b'*')`
abbrev pub is_key_byte : ℕ → Bool
is_key_byte b = is_lower b || (is_digit b || (b == b'_' || (b == b':' || (b == b'.' || b == b'*'))))

pub data KeyError : Type 0 where
  charset : KeyError
  reserved : Text → KeyError

abbrev pub is_empty : Text → Bool
is_empty [] = true
is_empty (_ ∷ _) = false

-- `none` is `Ok(())`.
unfoldable pub validate_perm_key : Text → Option KeyError
validate_perm_key key =
    if is_empty key then some charset else if all is_key_byte key then none else some charset

-- `key.rsplit(':').next()`
abbrev pub last_segment : Text → Text
last_segment [] = []
last_segment (c ∷ key) =
    let later = last_segment key in if any (λ b. b == b':') (c ∷ key) then later else c ∷ key

abbrev pub reserved_scope_suffixes : List Text
reserved_scope_suffixes = bytes "own" ∷ bytes "shared" ∷ []

abbrev pub is_given {ℓ} : {A : Type ℓ} → Option A → Bool
is_given none = false
is_given (some _) = true

abbrev pub reserves : Text → Text → Bool
reserves action suffix = text_eq action suffix || is_given (strip_suffix action (b'.' ∷ suffix))

unfoldable pub reserved_in : Text → List Text → Option KeyError
reserved_in action [] = none
reserved_in action (suffix ∷ suffixes) =
    let rest = reserved_in action suffixes in
    if reserves action suffix then some (reserved suffix) else rest

abbrev pub unless_refused : Option KeyError → Option KeyError → Option KeyError
unless_refused (some e) next = some e
unless_refused none next = next

unfoldable pub validate_declared_perm_key : Text → Option KeyError
validate_declared_perm_key key =
    unless_refused (validate_perm_key key) (reserved_in (last_segment key) reserved_scope_suffixes)

-- A key holds no comma.
key_byte_uncut : (key : Text) → all is_key_byte key ≡ true → any (λ c. c == b',') key ≡ false
key_byte_uncut [] h = ground arith
key_byte_uncut (c ∷ key) h =
    let (fits, rest) = and_split (is_key_byte c) (all is_key_byte key) h in
    rw (key_byte_uncut key rest, no_comma c fits) (ground arith)
  where
    no_comma : (c : ℕ) → is_key_byte c ≡ true → (c == b',') ≡ false
    no_comma c h = ground arith

pub validate_perm_key-uncut :
    (key : Text) → validate_perm_key key ≡ none → any (λ c. c == b',') key ≡ false
unfolding validate_perm_key
validate_perm_key-uncut [] h = cc
validate_perm_key-uncut (c ∷ key) h = key_byte_uncut (c ∷ key) (ground arith)

-- ===== src/Workflows/Json.antt =====
-- `serde_json::Value`, as the workflows use it. An object is a `BTreeMap`: its entries are in the
-- order of their keys.
use root_cx.Prelude.{
  ℕ, ◌^◌, Bool, true, false, not, ◌&&◌, ◌||◌, Option, none, some, List, [], ◌∷◌, Text, text_eq, ltb,
  ◌==◌, if◌then◌else◌,
}

-- An unsigned integer, a negative one by the number it negates, or a float by its bits.
pub data Number : Type 0 where
  unsigned : ℕ → Number
  negative : ℕ → Number
  float : ℕ → Number

mutual
  pub data Value : Type 0 where
    null : Value
    bool : Bool → Value
    number : Number → Value
    string : Text → Value
    array : Values → Value
    object : Entries → Value

  pub data Values : Type 0 where
    nil : Values
    cons : Value → Values → Values

  pub data Entries : Type 0 where
    end : Entries
    entry : Text → Value → Entries → Entries

-- The elements of an array.
abbrev pub elements : Values → List Value
elements nil = []
elements (cons v vs) = v ∷ elements vs

abbrev pub values_of : List Value → Values
values_of [] = nil
values_of (v ∷ vs) = cons v (values_of vs)

-- The order of the bytes of two keys.
abbrev pub before : Text → Text → Bool
before [] [] = false
before [] (_ ∷ _) = true
before (_ ∷ _) [] = false
before (x ∷ xs) (y ∷ ys) = ltb x y || (x == y && before xs ys)

-- `map.get(key)`
abbrev pub lookup : Text → Entries → Option Value
lookup key end = none
lookup key (entry k v rest) = let found = lookup key rest in if text_eq k key then some v else found

-- `map.insert(key, value)`
abbrev pub insert_entry : Text → Value → Entries → Entries
insert_entry key value end = entry key value end
insert_entry key value (entry k v rest) =
    let later = entry k v (insert_entry key value rest) in
    if text_eq k key
    then entry key value rest
    else if before key k
    then entry key value (entry k v rest)
    else later

-- `value.get(key)`: of an object only.
abbrev pub get : Text → Value → Option Value
get key (object entries) = lookup key entries
get key _ = none

abbrev pub as_array : Value → Option (List Value)
as_array (array vs) = some (elements vs)
as_array _ = none

abbrev pub as_str : Value → Option Text
as_str (string s) = some s
as_str _ = none

abbrev pub is_null : Value → Bool
is_null null = true
is_null _ = false

-- `json!({})`, and an object of one entry.
abbrev pub empty_object : Value
empty_object = object end

abbrev pub one_entry : Text → Value → Value
one_entry key value = object (entry key value end)

-- A float is zero if its bits are those of 0.0 or -0.0.
abbrev pub zero_bits : ℕ → Bool
zero_bits b = b == 0 || b == 2 ^ 63

abbrev pub number_eq : Number → Number → Bool
number_eq (unsigned a) (unsigned b) = a == b
number_eq (negative a) (negative b) = a == b
number_eq (float a) (float b) = a == b || (zero_bits a && zero_bits b)
number_eq _ _ = false

abbrev pub bool_eq : Bool → Bool → Bool
bool_eq true b = b
bool_eq false b = not b

-- `==` on values.
unfoldable mutual
  pub value_eq : Value → Value → Bool
  value_eq null null = true
  value_eq (bool a) (bool b) = bool_eq a b
  value_eq (number a) (number b) = number_eq a b
  value_eq (string a) (string b) = text_eq a b
  value_eq (array a) (array b) = values_eq a b
  value_eq (object a) (object b) = entries_eq a b
  value_eq _ _ = false

  pub values_eq : Values → Values → Bool
  values_eq nil nil = true
  values_eq (cons a as_) (cons b bs) = value_eq a b && values_eq as_ bs
  values_eq _ _ = false

  pub entries_eq : Entries → Entries → Bool
  entries_eq end end = true
  entries_eq (entry j a es) (entry k b fs) = text_eq j k && (value_eq a b && entries_eq es fs)
  entries_eq _ _ = false

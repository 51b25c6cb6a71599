-- ===== src/Enforcement/Access.antt =====
-- core/src/extensions/rbac/bootstrap.rs, `check_access`: the function that every row policy calls, in
-- PL/pgSQL. What it asks of the approved actions is an argument; a user's id is its text.
use root_cx.Prelude.{
  ℕ, zero, suc, ◌-◌, Bool, true, false, not, ◌&&◌, ◌||◌, Option, none, some, List, [], ◌∷◌, ◌++◌,
  Text, bytes, text_eq, length, ◌==◌, if◌then◌else◌,
}
use root_cx.Authority.Policy.{Rbac}
use root_cx.Authority.Database
use root_cx.Authority.Database.{left, match_permission}
use root_cx.Enforcement.Context.{Settings}
pub mod Uncut
pub mod Posed

pub record Db : Type 0 where
  pub rbac : Rbac
  pub active : Text → Bool
  pub approved_action : Text → Bool

-- `nullif(current_setting(name, true), '')`
abbrev pub not_empty : Option Text → Option Text
not_empty none = none
not_empty (some []) = none
not_empty (some (c ∷ s)) = some (c ∷ s)

abbrev pub setting : Settings → Text → Option Text
setting settings name = not_empty (settings name)

abbrev pub is_present : Option Text → Bool
is_present none = false
is_present (some _) = true

-- An equation with a value that may be NULL.
abbrev pub is_value : Option Text → Text → Bool
is_value none value = false
is_value (some found) value = text_eq found value

-- `split_part(s, ':', n)`, counted from 0 here; empty where there is no such part.
unfoldable pub split_part : ℕ → Text → Text
split_part n [] = []
split_part zero (c ∷ s) = let rest = c ∷ split_part zero s in if c == b':' then [] else rest
split_part (suc n) (c ∷ s) =
    let next = split_part n s in let same = split_part (suc n) s in if c == b':' then next else same

abbrev pub app_of : Text → Text
app_of key = split_part 1 key

abbrev pub is_app_key : Text → Bool
is_app_key key = text_eq (left key 4) (bytes "app:")

-- `string_to_array(s, ',')` of a text that is not empty.
abbrev pub onto_first : ℕ → List Text → List Text
onto_first c [] = (c ∷ []) ∷ []
onto_first c (w ∷ words) = (c ∷ w) ∷ words

unfoldable pub string_to_array : Text → List Text
string_to_array [] = [] ∷ []
string_to_array (c ∷ s) =
    let rest = string_to_array s in if c == b',' then [] ∷ rest else onto_first c rest

abbrev pub is_mutation : Option Text → Bool
is_mutation action =
    is_value action (bytes "create")
    || (is_value action (bytes "update") || is_value action (bytes "delete"))

abbrev pub text_or : Option Text → Text → Text
text_or none other = other
text_or (some t) other = t

abbrev pub own : Text
own = bytes ".own"

-- The key of a pinned mutation, for the read that it needs; a read key ends in `.read`.
abbrev pub in_place_of : Text → Option Text → Text → Text
in_place_of required none action = required
in_place_of required (some read) action =
    if text_eq required read
    then left read (length read - 5) ++ (b'.' ∷ action)
    else if text_eq required (read ++ own)
    then left read (length read - 5) ++ (b'.' ∷ (action ++ own))
    else required

abbrev pub operation_key : Settings → Text → Text
operation_key settings required =
    let action = settings (bytes "rootcx.agent_collection_mutation") in
    if is_mutation action
    then in_place_of required (settings (bytes "rootcx.agent_collection_read_key"))
        (text_or action [])
    else required

abbrev pub by_ceiling : Option Text → Text → Bool
by_ceiling none key = false
by_ceiling (some perms) key = match_permission (string_to_array perms) key

abbrev pub for_user : Db → Settings → Text → Option Text → Bool
for_user db settings required none = false
for_user db settings required (some user) =
    if is_value (settings (bytes "rootcx.is_delegated")) (bytes "1")
    then by_ceiling (setting settings (bytes "rootcx.effective_perms"))
        (operation_key settings required)
    else Database.has_permission db.rbac (some user) required

-- Core-bound: a worker does not leave its app.
abbrev pub leaves_app : Settings → Text → Bool
leaves_app settings required =
    is_app_key required
    && (not (is_value (settings (bytes "rootcx.human_data_request")) (bytes "1"))
        && not (is_value (setting settings (bytes "rootcx.app_id")) (app_of required)))

unfoldable pub check_access : Db → Settings → Text → Bool
check_access db settings required =
    if is_present (setting settings (bytes "rootcx.approved_action_id"))
    then db.approved_action required
    else if is_present (setting settings (bytes "rootcx.publication_id"))
    then false
    else if leaves_app settings required
    then false
    else if is_app_key required && not (db.active (app_of required))
    then false
    else for_user db settings required (setting settings (bytes "rootcx.user_id"))

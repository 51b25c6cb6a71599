-- ===== src/Enforcement/Access/Posed.antt =====
-- core/src/extensions/rbac/bootstrap.rs, `check_access`, under the settings that Core poses.
use root_cx.Prelude.{
  or_false, ◌≡◌, refl, sym, ap, ◌∙◌, inl, inr, Bool, true, false, not, ◌&&◌, Bool-cases, Option,
  none, some, List, [], ◌∷◌, ◌++◌, All, Text, text_eq_sound, any, ◌==◌, if◌then◌else◌, arith,
}
use root_cx.Authority.Permission.{has_permission}
use root_cx.Authority.Permission.Narrowing.Sound.{covers}
use root_cx.Authority.Policy.{perms_or_none, resolve_permissions, Rbac}
use root_cx.Authority.Policy.Chains.{Called, authority, IsSimple, HeldBy, authority_sound}
use root_cx.Authority.Database.{match_permission}
use root_cx.Authority.Database.Tables.{IsKeyed}
use root_cx.Authority.Database.Keys.{match_permission_eq}
use root_cx.Authority.Database.Agrees.{database_agrees}
use root_cx.Enforcement.Access.Uncut.{has_comma, IsValidated, ReadValidated, authority_uncut}
use root_cx.Enforcement.Context.{ContextState, Settings, user_text, join, set_rls_context}
use root_cx.Enforcement.Access.{
  Db, not_empty, is_value, app_of, is_app_key, string_to_array, by_ceiling, for_user, leaves_app,
  check_access,
}

abbrev IsUncut : Text → Type 0
IsUncut key = has_comma key ≡ false

split_last : (key : Text) → IsUncut key → string_to_array key ≡ key ∷ []
unfolding string_to_array
split_last [] uncut = refl
split_last (c ∷ key) uncut =
    let (same, later) = or_false (c == b',') _ uncut in rw (same, split_last key later) refl

split_behind :
    (key rest : Text)
    → IsUncut key
    → string_to_array (key ++ b',' ∷ rest) ≡ key ∷ string_to_array rest
unfolding string_to_array
split_behind [] rest uncut = refl
split_behind (c ∷ key) rest uncut =
    let (same, later) = or_false (c == b',') _ uncut in rw (same, split_behind key rest later) refl

string_to_array-join :
    (key : Text) (keys : List Text)
    → All IsUncut (key ∷ keys)
    → string_to_array (join (key ∷ keys)) ≡ key ∷ keys
string_to_array-join key [] (uncut, rest) = split_last key uncut
string_to_array-join key (other ∷ keys) (uncut, rest) =
    split_behind key (join (other ∷ keys)) uncut
    ∙ ap (λ (ks : List Text). key ∷ ks) (string_to_array-join other keys rest)

ceiling_sound :
    (perms : List Text) (required : Text)
    → All IsUncut perms
    → by_ceiling (not_empty (some (join perms))) required ≡ true
    → has_permission perms required ≡ true
ceiling_sound [] required uncut h = cc
ceiling_sound (key ∷ keys) required uncut h =
    sym (match_permission_eq (key ∷ keys) required)
    ∙ ap (λ ks. match_permission ks required) (sym (string_to_array-join key keys uncut))
    ∙ by_text (join (key ∷ keys)) h
  where
    by_text :
        (s : Text)
        → by_ceiling (not_empty (some s)) required ≡ true
        → match_permission (string_to_array s) required ≡ true
    by_text [] h = cc
    by_text (c ∷ s) h = h

All-IsUncut : (keys : List Text) → any has_comma keys ≡ false → All IsUncut keys
All-IsUncut [] h = tt
All-IsUncut (key ∷ keys) h =
    let (here, rest) = or_false (has_comma key) _ h in (here, All-IsUncut keys rest)

-- What a check that passes rests on: a known user; the app itself, which is active, for the key of an
-- app; and the key, in the ceiling of a delegated call, else among the user's permissions.
pub record Admitted (db : Db) (app : Text) (state : ContextState) (required : Text) : Type 0 where
  pub user : Text
  pub known : state.user_id ≡ some user
  pub local :
      is_app_key required ≡ true → (app ≡ app_of required) × (db.active (app_of required) ≡ true)
  pub holds :
      has_permission
        (if state.is_delegated then state.effective_perms else (resolve_permissions db.rbac user).1)
        required
      ≡ true

module _ (db : Db) (app : Text) (state : ContextState) (base : Settings) (required : Text) where
  abbrev posed : Settings
  posed = set_rls_context app state base

  guards :
      check_access db posed required ≡ true
      → (leaves_app posed required ≡ false)
        × ((is_app_key required && not (db.active (app_of required))) ≡ false)
        × (for_user db posed required (not_empty (some (user_text state.user_id))) ≡ true)
  unfolding check_access set_rls_context
  guards h = elim (Bool-cases (leaves_app posed required)) [
    | inl t ↦ cc (rw t at h)
    | inr stays ↦ elim (Bool-cases (is_app_key required && not (db.active (app_of required)))) [
      | inl t ↦ cc (rw (stays, t) at h)
      | inr runs ↦ (stays, runs, rw (stays, runs) at h)
    ]
  ]

  local_app :
      leaves_app posed required ≡ false
      → (is_app_key required && not (db.active (app_of required))) ≡ false
      → is_app_key required ≡ true
      → (app ≡ app_of required) × (db.active (app_of required) ≡ true)
  unfolding set_rls_context
  local_app stays runs app_key =
      (named app (bound _ (rw app_key at stays)), bound _ (rw app_key at runs))
    where
      bound : (b : Bool) → not b ≡ false → b ≡ true
      bound b h = ground arith

      named :
          (a : Text) → is_value (not_empty (some a)) (app_of required) ≡ true → a ≡ app_of required
      named [] h = cc
      named (c ∷ s) h = text_eq_sound (c ∷ s) (app_of required) h

  held :
      (user : Text)
      → All IsUncut state.effective_perms
      → IsKeyed db.rbac.roles
      → for_user db posed required (some user) ≡ true
      → has_permission
          (if state.is_delegated
            then state.effective_perms
            else (resolve_permissions db.rbac user).1)
          required
        ≡ true
  unfolding set_rls_context
  held user uncut keyed h = elim (Bool-cases state.is_delegated) [
    | inl t ↦ rw t (ceiling_sound state.effective_perms required uncut (rw t at h))
    | inr f ↦ rw f (sym (database_agrees db.rbac user required keyed) ∙ (rw f at h))
  ]

  known_user :
      (o : Option Text)
      → for_user db posed required (not_empty (some (user_text o))) ≡ true
      → (user : Text) × (o ≡ some user) × (for_user db posed required (some user) ≡ true)
  known_user none h = cc
  known_user (some []) h = cc
  known_user (some (c ∷ s)) h = (c ∷ s, refl, h)

-- A row policy whose key passes, in a transaction that Core posed for an app and a caller, rests on
-- what the gate asks: the caller is known, the key is of that app, which is active, and it is held,
-- for a delegated call in the permissions that Core computed for it. These come through the
-- comma-separated setting as they are, where no key holds a comma.
pub check_access_sound :
    (db : Db) (app : Text) (state : ContextState) (base : Settings) (required : Text)
    → any has_comma state.effective_perms ≡ false
    → IsKeyed db.rbac.roles
    → check_access db (set_rls_context app state base) required ≡ true
    → Admitted db app state required
check_access_sound db app state base required uncut keyed h =
    let (stays, runs, passes) = guards db app state base required h in
    let (user, known, for_them) = known_user db app state base required state.user_id passes in
    record {
      user = user;
      known = known;
      local = local_app db app state base required stays runs;
      holds = held db app state base required user (All-IsUncut _ uncut) keyed for_them;
    }

-- An agent at the end of a chain of agents, whose transaction is posed with what the server computes
-- for it, passes a row policy only on a key that the user who began the chain and every agent of it
-- hold. The keys of the roles have been validated, the role names are distinct, and the required key
-- has no scope on a scope.
pub agent_access_sound :
    (db : Db) (app user : Text) (base : Settings) (required : Text) (seen : Option Rbac)
    (last : Called) (callers : List Called)
    → IsValidated seen
    → All ReadValidated (last ∷ callers)
    → IsKeyed db.rbac.roles
    → IsSimple required
    → check_access db
        (set_rls_context app
          (record {
            user_id = some user;
            is_delegated = true;
            effective_perms = authority seen user last callers;
          })
          base)
        required
      ≡ true
    → (covers (perms_or_none seen user) required ≡ true) × All (HeldBy required) (last ∷ callers)
agent_access_sound db app user base required seen last callers valid each keyed simple h =
    authority_sound seen user last callers required simple
      (check_access_sound db app _ base required (authority_uncut seen user last callers valid each)
        keyed h).holds

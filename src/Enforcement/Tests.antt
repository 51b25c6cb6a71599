-- ===== src/Enforcement/Tests.antt =====
-- Runs of the theorems on statements and on access at concrete inputs.
use root_cx.Prelude.{◌≡◌, ◌≢◌, refl, Bool, true, false, some, List, [], ◌∷◌, All, Text, bytes}
use root_cx.Prelude.Maps.{empty}
use mathlib.Core.List.{filter_map}
use root_cx.Authority.PermissionKeys.{validate_perm_key}
use root_cx.Authority.Permission.{
  has_permission, satisfies, meet, base_of, is_scoped, intersect_permissions, insert_sorted, sort,
  dedup_from, dedup, text_leb,
}
use root_cx.Authority.Permission.Narrowing.Sound.{covers}
use root_cx.Authority.Roles.{push_parents, expand, expansion, expand_roles}
use root_cx.Authority.Policy.{
  Role, Rbac, assigned_names, granted, resolve_permissions, effective_for_pair,
  effective_under_parent, delegated_effective, perms_or_none,
}
use root_cx.Authority.Policy.Chains.{Called, authority, IsSimple, HeldBy}
use root_cx.Authority.Database.{match_key, match_permission}
use root_cx.Enforcement.Context.{ContextState, Settings, set_rls_context}
use root_cx.Enforcement.Access.{Db, split_part, string_to_array, check_access}
use root_cx.Enforcement.Access.Uncut.{IsValidated}
use root_cx.Enforcement.Access.Posed.{Admitted, check_access_sound, agent_access_sound}
use root_cx.Enforcement.Statements.{
  after_line, skip_from, skip_block_comment, strip_loop, strip_leading_noise, allowed, out_of_fuel,
  validate_sql,
}
use root_cx.Enforcement.Statements.Scanner.{Skips}
use root_cx.Enforcement.Statements.Sound.{Opens, validate_sql_sound}
use root_cx.Prelude.Spaces.{space_width, wide_space, trim_start, words_from, split_whitespace}

abbrev narrow : Text → Bool
narrow s = false

abbrev commented : Text
commented = bytes "/* a /* b */ c */ select 1"

validate_sql_sound_example :
    (validate_sql narrow commented ≢ out_of_fuel)
    × (validate_sql narrow commented ≡ allowed → (h : Text) × Skips commented h × Opens narrow h)
validate_sql_sound_example = validate_sql_sound narrow commented

commented_allowed : validate_sql narrow commented ≡ allowed
unfolding validate_sql strip_leading_noise strip_loop skip_block_comment skip_from after_line
    trim_start space_width wide_space
commented_allowed = refl

hidden_refused : validate_sql narrow (bytes "/*x*/RESET ROLE") ≢ allowed
unfolding validate_sql strip_leading_noise strip_loop skip_block_comment skip_from after_line
    trim_start space_width wide_space split_whitespace words_from
hidden_refused e = cc e

abbrev note_read : Text
note_read = bytes "app:notes:note.read"

abbrev member : Role
member = record { name = bytes "member"; inherits = []; permissions = note_read ∷ [] }

abbrev tables : Rbac
tables = record {
  assignments = (bytes "ann", bytes "member") ∷ (bytes "bot", bytes "member") ∷ [];
  roles = member ∷ [];
}

abbrev db : Db
db = record { rbac = tables; active = λ app. true; approved_action = λ key. false }

abbrev bot : Called
bot = (some tables, bytes "bot")

abbrev delegated_state : List Text → ContextState
delegated_state perms = record {
  user_id = some (bytes "ann");
  is_delegated = true;
  effective_perms = perms;
}

abbrev no_settings : Settings
no_settings = empty

note_admitted :
    check_access db
      (set_rls_context (bytes "notes") (delegated_state (note_read ∷ [])) no_settings)
      note_read
    ≡ true
unfolding check_access set_rls_context split_part string_to_array match_permission match_key
note_admitted = refl

check_access_sound_example :
    Admitted db (bytes "notes") (delegated_state (note_read ∷ [])) note_read
check_access_sound_example =
    check_access_sound db (bytes "notes") (delegated_state (note_read ∷ [])) no_settings note_read
      refl (refl, tt) note_admitted

bot_admitted :
    check_access db
      (set_rls_context
        (bytes "notes")
        (delegated_state (authority (some tables) (bytes "ann") bot []))
        no_settings)
      note_read
    ≡ true
unfolding check_access set_rls_context split_part string_to_array match_permission match_key
    has_permission resolve_permissions satisfies meet base_of is_scoped intersect_permissions
    insert_sorted sort dedup_from dedup text_leb filter_map push_parents expand expansion
    expand_roles assigned_names granted effective_for_pair effective_under_parent
    delegated_effective
bot_admitted = refl

member-IsValidated : IsValidated (some tables)
unfolding validate_perm_key
member-IsValidated = ((refl, tt), tt)

note_read-IsSimple : IsSimple note_read
unfolding base_of is_scoped
note_read-IsSimple = refl

agent_access_sound_example :
    (covers (perms_or_none (some tables) (bytes "ann")) note_read ≡ true)
    × All (HeldBy note_read) (bot ∷ [])
agent_access_sound_example =
    agent_access_sound db (bytes "notes") (bytes "ann") no_settings note_read (some tables) bot []
      member-IsValidated (member-IsValidated, tt) (refl, tt) note_read-IsSimple bot_admitted

-- ===== src/Authority/Runs.antt =====
-- Runs of the theorems on role cycles, on the tables of roles and on the functions of the database.
use root_cx.Prelude.{◌≡◌, ◌↔◌, ◌⊎◌, refl, true, some, [], ◌∷◌, Text, bytes, All}
use root_cx.Authority.Permission
use root_cx.Authority.Permission.{
  satisfies, meet, base_of, is_scoped, intersect_permissions, insert_sorted, sort, dedup_from,
  dedup, text_leb,
}
use root_cx.Authority.Permission.Narrowing.Sound.{covers}
use mathlib.Core.List.{filter_map}
use root_cx.Authority.Roles.{push_parents, expand, expansion, expand_roles}
use root_cx.Authority.Roles.Cycles.{Roles, Marks, cycle, clear, detect_cycle}
use root_cx.Authority.Roles.Cycles.Search.{Above, detect_cycle_decides}
use root_cx.Authority.Policy
use root_cx.Authority.Policy.{
  Role, Rbac, assigned_names, hierarchy, granted, effective_for_pair, effective_under_parent,
  delegated_effective, perms_or_none,
}
use root_cx.Authority.Policy.Resolved.{Granted, resolve_permissions_iff}
use root_cx.Authority.Policy.Chains.{Called, authority, IsSimple, HeldBy, authority_sound}
use root_cx.Authority.Database
use root_cx.Authority.Database.Agrees.{database_agrees}

-- Three roles in a ring.
abbrev ring : Roles
ring =
    (bytes "author", bytes "editor" ∷ [])
    ∷ (bytes "editor", bytes "reviewer" ∷ [])
    ∷ (bytes "reviewer", bytes "author" ∷ [])
    ∷ []

detect_cycle_decides_example :
    ((c : Text) × (detect_cycle ring ≡ cycle c) × Above ring c c)
    ⊎ ((s : Marks) × (detect_cycle ring ≡ clear s) × ((x : Text) → ¬ Above ring x x))
detect_cycle_decides_example = detect_cycle_decides ring

abbrev viewer : Role
viewer = record {
  name = bytes "viewer";
  inherits = [];
  permissions = bytes "app:notes:note.read" ∷ [];
}

abbrev editor : Role
editor = record {
  name = bytes "editor";
  inherits = bytes "viewer" ∷ [];
  permissions = bytes "app:notes:note.create" ∷ [];
}

abbrev tables : Rbac
tables = record {
  assignments = (bytes "ann", bytes "editor") ∷ (bytes "bot", bytes "viewer") ∷ [];
  roles = viewer ∷ editor ∷ [];
}

abbrev note_read : Text
note_read = bytes "app:notes:note.read"

ann_expanded :
    (expansion (assigned_names (bytes "ann") tables.assignments) (hierarchy tables)).1 ≡ []
unfolding expansion expand push_parents assigned_names
ann_expanded = refl

resolve_permissions_iff_example :
    (Permission.has_permission (Policy.resolve_permissions tables (bytes "ann")).1 note_read ≡ true)
    ↔ Granted tables (bytes "ann") note_read
resolve_permissions_iff_example =
    resolve_permissions_iff tables (bytes "ann") note_read ann_expanded

database_agrees_example :
    Database.has_permission tables (some (bytes "ann")) note_read
    ≡ Permission.has_permission (Policy.resolve_permissions tables (bytes "ann")).1 note_read
database_agrees_example = database_agrees tables (bytes "ann") note_read (refl, (refl, tt))

-- The user calls an agent that calls another.
abbrev bot : Called
bot = (some tables, bytes "bot")

bot_reads :
    Permission.has_permission (authority (some tables) (bytes "ann") bot (bot ∷ [])) note_read
    ≡ true
unfolding Permission.has_permission Policy.resolve_permissions satisfies meet base_of is_scoped
    intersect_permissions insert_sorted sort dedup_from dedup text_leb filter_map push_parents
    expand expansion expand_roles assigned_names granted effective_for_pair effective_under_parent
    delegated_effective
bot_reads = refl

note_read-IsSimple : IsSimple note_read
unfolding base_of is_scoped
note_read-IsSimple = refl

authority_sound_example :
    (covers (perms_or_none (some tables) (bytes "ann")) note_read ≡ true)
    × All (HeldBy note_read) (bot ∷ bot ∷ [])
authority_sound_example =
    authority_sound (some tables) (bytes "ann") bot (bot ∷ []) note_read note_read-IsSimple
      bot_reads

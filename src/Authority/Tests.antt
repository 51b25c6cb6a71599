-- ===== src/Authority/Tests.antt =====
-- Runs of the theorems on permissions and roles at concrete keys.
use root_cx.Prelude.{◌≡◌, ◌≤◌, length, refl, true, List, [], ◌∷◌, Text, bytes, Memᴰ}
use root_cx.Prelude.Maps.{Map, empty, insert}
use root_cx.Authority.Permission.{
  satisfies, has_permission, meet, base_of, is_scoped, intersect_permissions, insert_sorted, sort,
  dedup_from, dedup, text_leb,
}
use mathlib.Core.List.{filter_map}
use root_cx.Authority.Permission.Grants.{has_permission_subset}
use root_cx.Authority.Permission.Narrowing.Sound.{covers, intersect_permissions_sound}
use root_cx.Authority.Permission.Narrowing.Complete.{intersect_permissions_complete}
use root_cx.Authority.Roles.{max_role_depth, push_parents, expand, expansion, expand_roles}
use root_cx.Authority.Roles.Closure.{
  Reaches, expand_roles_sound, expand_roles_complete, expand_roles_bound,
}

abbrev note_read : Text
note_read = bytes "app:example:note.read"

abbrev note_read_own : Text
note_read_own = bytes "app:example:note.read.own"

-- The whole table on the one side, the own records on the other.
abbrev whole : List Text
whole = note_read ∷ []

abbrev family_own : List Text
family_own = note_read_own ∷ bytes "tool:query_data" ∷ []

narrowed_own : has_permission (intersect_permissions whole family_own) note_read_own ≡ true
unfolding has_permission satisfies intersect_permissions meet base_of is_scoped insert_sorted sort
    dedup_from dedup filter_map text_leb
narrowed_own = refl

intersect_permissions_sound_example :
    (covers whole note_read_own ≡ true) × (covers family_own note_read_own ≡ true)
intersect_permissions_sound_example =
    intersect_permissions_sound whole family_own note_read_own narrowed_own

whole-covers : covers whole note_read_own ≡ true
unfolding has_permission satisfies base_of is_scoped
whole-covers = refl

family_covers : covers family_own note_read_own ≡ true
unfolding has_permission satisfies base_of is_scoped
family_covers = refl

intersect_permissions_complete_example :
    covers (intersect_permissions whole family_own) note_read_own ≡ true
intersect_permissions_complete_example =
    intersect_permissions_complete whole family_own note_read_own whole-covers family_covers

abbrev app_family : List Text
app_family = bytes "app:example:*" ∷ []

family_holds : has_permission app_family note_read ≡ true
unfolding has_permission satisfies
family_holds = refl

whole_holds : has_permission whole note_read ≡ true
unfolding has_permission satisfies
whole_holds = refl

has_permission_subset_example : has_permission app_family note_read ≡ true
has_permission_subset_example =
    has_permission_subset app_family whole note_read (family_holds, tt) whole_holds

-- An editor is a viewer.
abbrev roles : Map (List Text)
roles = insert (bytes "editor") (bytes "viewer" ∷ []) empty

abbrev editor : List Text
editor = bytes "editor" ∷ []

viewer_expanded : expand_roles editor roles ≡ bytes "viewer" ∷ bytes "editor" ∷ []
unfolding expand_roles expansion expand push_parents
viewer_expanded = refl

expansion_done : (expansion editor roles).1 ≡ []
unfolding expansion expand push_parents
expansion_done = refl

viewer_listed : Memᴰ (bytes "viewer") (expand_roles editor roles)
viewer_listed = rw viewer_expanded (Memᴰ.head refl)

expand_roles_sound_example : Reaches editor roles (bytes "viewer")
expand_roles_sound_example = expand_roles_sound editor roles (bytes "viewer") viewer_listed

expand_roles_complete_example : Memᴰ (bytes "viewer") (expand_roles editor roles)
expand_roles_complete_example =
    expand_roles_complete editor roles (bytes "viewer") expansion_done
      (Reaches.inherited (Reaches.given (Memᴰ.head refl)) (Memᴰ.head refl))

expand_roles_bound_example : length (expand_roles editor roles) ≤ max_role_depth
expand_roles_bound_example = expand_roles_bound editor roles

-- ===== src/Sharing/Tests.antt =====
-- A run of the theorem on the public surface, with texts for JSON values.
use root_cx.Prelude.{◌≡◌, ◌↔◌, Option, some, none, [], ◌∷◌, Text, bytes, text_eq, if◌then◌else◌}
use root_cx.Sharing.Guard.{
  PublicRpc, CallerAuth, authorize_public_rpc, Allowed, authorize_public_rpc_iff, ok,
}

-- An object with the one key `id`.
abbrev get_id : Text → Text → Option Text
get_id json key = if text_eq key (bytes "id") then some json else none

abbrev by_id : PublicRpc
by_id = record { name = bytes "get_invoice"; publications = []; scope = bytes "id" ∷ [] }

abbrev holder_of_42 : CallerAuth Text get_id text_eq
holder_of_42 =
    CallerAuth.share_token
      (record { share_id = 1; app_id = bytes "crm"; created_by = 2; context = bytes "42" })

authorize_public_rpc_iff_example :
    (authorize_public_rpc Text get_id text_eq by_id holder_of_42 (bytes "crm") (bytes "42") ≡ ok)
    ↔ Allowed Text get_id text_eq (bytes "crm") (bytes "42") by_id.scope holder_of_42
authorize_public_rpc_iff_example =
    authorize_public_rpc_iff Text get_id text_eq by_id holder_of_42 (bytes "crm") (bytes "42")

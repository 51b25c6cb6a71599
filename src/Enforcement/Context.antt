-- ===== src/Enforcement/Context.antt =====
-- core/src/governance/enforcement/sql_proxy.rs: the settings that Core poses in a transaction before
-- it drops to the role of an app. The connection, the audit's names, and the publications and
-- approved actions, which pose more, are left out.
use root_cx.Prelude.{
  Bool, true, false, Option, none, some, List, [], ◌∷◌, ◌++◌, Text, bytes, if◌then◌else◌,
}
use root_cx.Prelude.Maps.{Map, insert}

pub record ContextState : Type 0 where
  pub user_id : Option Text
  pub is_delegated : Bool
  pub effective_perms : List Text

pub record RpcCaller : Type 0 where
  pub user_id : Text
  pub effective_perms : Option (List Text)

abbrev pub is_given {ℓ} : {A : Type ℓ} → Option A → Bool
is_given none = false
is_given (some _) = true

abbrev pub or_no_perms : Option (List Text) → List Text
or_no_perms none = []
or_no_perms (some perms) = perms

-- `parse` is the parser of uuids.
unfoldable pub from_caller : (Text → Option Text) → Option RpcCaller → ContextState
from_caller parse none = record { user_id = none; is_delegated = false; effective_perms = [] }
from_caller parse (some c) = record {
  user_id = parse c.user_id;
  is_delegated = is_given c.effective_perms;
  effective_perms = or_no_perms c.effective_perms;
}

pub data InvocationContext : Type 0 where
  nothing : InvocationContext
  action : Text → InvocationContext
  job : Text → InvocationContext

unfoldable pub guc_values : InvocationContext → Text × (Text × Text)
guc_values nothing = ([], ([], []))
guc_values (action action_id) = (bytes "action", (action_id, action_id))
guc_values (job job_name) = (bytes "job", (job_name, []))

-- The settings of a transaction, by their names.
abbrev pub Settings : Type 0
Settings = Map Text

abbrev pub user_text : Option Text → Text
user_text none = []
user_text (some user) = user

-- `effective_perms.join(",")`
abbrev pub join : List Text → Text
join [] = []
join (key ∷ []) = key
join (key ∷ other ∷ keys) = key ++ b',' ∷ join (other ∷ keys)

unfoldable pub set_rls_context : Text → ContextState → Settings → Settings
set_rls_context app_schema state settings =
    insert (bytes "rootcx.user_id") (user_text state.user_id) (
      insert (bytes "rootcx.is_delegated") (if state.is_delegated then bytes "1" else bytes "0") (
        insert (bytes "rootcx.effective_perms") (join state.effective_perms) (
          insert (bytes "rootcx.app_id") app_schema (
            insert (bytes "rootcx.cross_app_grant_id") [] (
              insert (bytes "rootcx.cross_app_source_app") [] (
                insert (bytes "rootcx.cross_app_action") [] (
                  insert (bytes "rootcx.agent_collection_read_key") [] (
                    insert (bytes "rootcx.agent_collection_mutation") [] (
                      insert (bytes "rootcx.human_data_request") [] (
                        insert (bytes "rootcx.approved_action_id") [] (
                          insert (bytes "rootcx.publication_id") [] (
                            insert (bytes "rootcx.publication_read_key") [] (
                              insert (bytes "rootcx.publication_release_ownership") []
                                settings)))))))))))))

unfoldable pub set_invocation_context : InvocationContext → Settings → Settings
unfolding guc_values
set_invocation_context invocation settings =
    let (kind, (name, action_id)) = guc_values invocation in
    insert (bytes "rootcx.invocation_kind") kind (
      insert (bytes "rootcx.invocation_name") name
        (insert (bytes "rootcx.action_id") action_id settings))

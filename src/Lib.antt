-- ===== src/Lib.antt =====
-- A model of the core logic of RootCX: the closed language in which apps declare database rules, the
-- permission keys and roles that authorise every call, in the server and in the database, the
-- delegations by which one principal acts for another, the statements and the context of an app's
-- transactions, the supervision of agents, the runs of workflows, the public surface of apps, and the
-- single-use keys of file uploads.
--
-- How the parts interact. A rule goes through core/src/rules/parser.rs (`parse`), typing.rs
-- (`Checker`), and emit.rs (`sql`); no other text of a manifest reaches the database. Roles are
-- expanded to permission keys, which `has_permission` tests and `intersect_permissions` narrows where
-- an agent acts for a user. What is left is posed as settings of the transaction (`set_rls_context`),
-- and every row policy asks `check_access`, which reads them. A human owns work as another principal
-- only through `assert_can_act_as`, a trigger fires only through `assert_can_fire`, and the runner of
-- workflows executes the nodes of a graph in the order of `topo_sort`, from the rows of earlier nodes.
--
-- Files, and the code that they model:
--   Prelude            numbers, Boolean tests, lists, byte texts, sets, and maps (`HashMap`)
--   Rules/Ast          core/src/rules/ast.rs
--   Rules/Outcome      the results and the refusals of parser.rs
--   Rules/Lexer        core/src/rules/parser.rs, `Lexer`; Lexer/Progress: it ends
--   Rules/Parser       core/src/rules/parser.rs, `Parser` and `parse`. State has the record and the
--                      methods that move it, Interval the text of an interval (its
--                      proofs in Interval/Words), Grammar the levels;
--                      Keeps, Loops, Atoms, Totality and Limits are the proofs
--   Rules/Pattern      core/src/rules/pattern.rs; Pattern/Height: what is admitted
--   Rules/Typing       core/src/rules/typing.rs. Types and Check are the definitions; Gives, Steps and
--                      Resolved are the proofs
--   Rules/Shorthand    core/src/rules/shorthand.rs; Shorthand/Reads: what a shorthand reads
--   Rules/Compile      core/src/rules/mod.rs, one declared check from its text to its SQL;
--                      Compile/Total: no text makes it panic
--   Rules/Emit         core/src/rules/emit.rs, and the quoting of core/src/manifest.rs; Emit/Decimal and
--                      Emit/Intervals: intervals as they are printed
--   Authority          core/src/governance/authority: Permission (perms.rs) for the keys, Roles for
--                      `expand_roles`, Roles/Cycles for `detect_cycle`, Policy (policy.rs) for the
--                      tables and the narrowing of agents; PermissionKeys: the key checks of
--                      core/src/manifest.rs; Database: the PL/pgSQL functions that
--                      core/src/extensions/rbac/bootstrap.rs installs, Database/Agrees: their answers
--                      beside the server's
--   Delegation         Grants (core/src/governance/delegation/grants.rs), ActAs (act_as.rs), and Fire
--                      (core/src/governance/triggers/fire_gate.rs)
--   Enforcement        Statements: `validate_sql` of core/src/governance/enforcement/sql_proxy.rs;
--                      Context: the settings that it poses; Access: `check_access` of bootstrap.rs,
--                      with Access/Posed on what it means under the posed settings
--   Workflows          core/src/extensions/workflows. Graph has the types of crates/shared-types, Json
--                      the values of serde_json; Topo, Routing, Nodes and Execute are executor.rs,
--                      Items items.rs, Expr expr.rs, and Validate validate.rs; NodeRuns
--                      are the rows of runner.rs, Runner is its loop, Run the execution around it
--   Agents/Supervision core/src/extensions/agents/supervision.rs; Limits and Approval are about its
--                      rate limits and its modes, Coverage and Kept serve them
--   Sharing/Guard      core/src/extensions/sharing/guard.rs, `authorize_public_rpc`
--   Storage/Nonce      core/src/extensions/storage/nonce.rs
--   */Tests, */Runs    runs at concrete inputs
--
-- Conventions. A `String` is the list of its UTF-8 bytes, and an index into it counts bytes. A method
-- with `&mut self` takes the state and returns it. A refusal is a constructor that names what the
-- message names. An index out of range and `unreachable!` are the outcome `panic`, or `none` where the
-- comment says so; in the parser the position stays in range. Instants are numbers of nanoseconds, and
-- each reading of the clock is an argument, as is each fresh uuid. A table is the list of its rows; a
-- read that may fail is an `Option` of what it sees. The iteration of a `HashMap` is the order of a
-- list, or a walk that is an argument. Where the source casts to `u8` or `u32` or multiplies in `u64`,
-- the model writes the remainder out.
--
-- Fuel. The lexer has one round for each byte and one more; the loops of the parser have one round for
-- each token and one more, and its recursion has one level more than `MAX_DEPTH`: each round consumes a
-- byte or a token. `expand_roles` stops by itself after `MAX_ROLE_DEPTH` pops, which are its fuel. The
-- search for a cycle of roles has one level more than there are roles, each of which it enters once;
-- the loop of `topo_sort` one round more than there are nodes and targets, each of which it queues
-- once; the scanner of `validate_sql` one more than there are bytes. The interpolation of an expression
-- and the search for references in it have as many rounds as the text has bytes. A node is attempted
-- at most as often as its policy says; the pauses between the attempts are summed and not waited for.
--
-- Not modelled: what talks to PostgreSQL, to other processes and to the network (routes, workers,
-- jobs, schema changes, channels, integrations, installation); publications, cross-app grants and
-- approved actions; cryptography; the TypeScript of the SDK. The regular expression parser, chrono,
-- uuid, serde_json's printing, the JavaScript engine boa and the tools that a workflow calls are
-- arguments of the definitions that use them; an expression's value is taken to depend on its inputs
-- alone. Of a workflow run, the heartbeat of the lease and the channel of the events are left out. A
-- tool or a script may hang: any execution of a node may be one that is not reached, behind a pause
-- without end, or does not return, and the run is then left where it stands. A statement of the run may
-- fail, and then changes nothing.
pub mod Agents
pub mod Authority
pub mod Delegation
pub mod Enforcement
pub mod Prelude
pub mod Rules
pub mod Sharing
pub mod Storage
pub mod Workflows

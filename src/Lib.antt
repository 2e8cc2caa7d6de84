-- ===== src/Lib.antt =====
-- A model of the core of the OpenStudio MCP server, with the theorems that make it correct.
--
-- The server gives remote users tools on building energy models. What decides whether it is safe and
-- right to share it is the part modelled here: who may call it, which tools it exposes, which model a
-- session holds, which simulation runs next, what is deleted, and what confines the code that users
-- bring. The calls into the OpenStudio SDK, the files and the network are arguments of the model.
--
-- Session (mcp_server/model_manager.py): `SessionState` and `Manager` are the session record and the
--   module's variables (the table in the order of its dict, the next token, the workspaces handed
--   over for removal, the disk as far as saves publish to it). Session/Load has `load_model`,
--   `reload_model` and `set_model`, Session/Save the save in its three steps, `rebind_path` and
--   `unsaved_edits_for`, Session/Access the readers and `clear_model`. Session/Steps makes every call
--   a step, and a save two steps, since other calls come between its start and its end.
--   Session/Moves is the abstract table that the steps refine. `evict_loop` runs on fuel, the number
--   of sessions: each round drops one. A model is of any type; its digest and the resolution of paths
--   are functions.
-- Runs (mcp_server/skills/simulation/operations.py): `RunRecord` and `Sim` are the records and the
--   queue. Runs/Dispatch is `_dispatch_once`, its walk over the queue structural; Runs/Timeouts
--   `_enforce_timeouts` in its two parts; Runs/Disk the reload of a record; Runs/Control the end of
--   `run_osw`, `get_run_status`, `cancel_run` and the poll hint. `Env` is what the operating system
--   and the run directories answer. Staging, logs and artifacts are not modelled.
-- Retention (mcp_server/skills/simulation/retention.py): the tests of a directory, Retention/Sweep
--   the sweep of one user and of all, Retention/Calls the tools. It shares the run records with Runs.
--   Days are whole, and nothing is rounded; the daemon thread and the audit lines are not modelled.
-- Sandbox (mcp_server/sandbox.py, with the mode of mcp_server/config.py): the tier, the environment
--   and the command line. Sandbox/Shim is mcp_server/_sandbox_exec.py, from the command line to the
--   exec, and Sandbox/Seccomp the filter of mcp_server/_seccomp.py: the program of 13 instructions
--   jumps forward only, so 13 steps of fuel are enough, which its theorem includes. The 64-bit first
--   argument of a call is read by its low 32 bits. Python's `str` and `int` are an argument with
--   their round trip as a law, for which Sandbox/Sample has an instance.
-- Auth (mcp_server/auth_verify.py): the check of a token by the local verifier, the cache and the
--   portal. The digest of a token is its key; the clock counts ticks. The HTTP client is a reply.
-- Policy (mcp_server/tool_policy.py): which tools are exposed; Policy/Registry is the facade of
--   mcp_server/tool_registry.py. The environment is read already. The refusal to serve remote users
--   unconfined uses the tier of Sandbox.
-- HvacOnly (mcp_server/skills/comstock/hvac_only_policy.py): the snapshots of a model before and
--   after an HVAC-only change, and their difference.
-- Paths (mcp_server/config.py): the directory of a tenant and which paths a caller may read or
--   write. A path is resolved and stands as the list of its components.
-- Identity (mcp_server/identity.py): the key of a session and of a user, with `_sanitize` on the
--   characters of a name; Identity/Guard is mcp_server/identity_guard.py. SHA-256 is a function.
-- Transfer (mcp_server/skills/file_transfer): the tokens of signing.py; Transfer/Archive the extraction
--   of archive.py; Transfer/Uploads the entries of a tenant, as operations.py asks for, completes and
--   removes them, with the parts of a completion between which other requests come
--   (Transfer/Uploads/Once); Transfer/Routes the upload route of routes.py and Transfer/Routes/Download
--   the offer and the check of a download. It uses the keys and the path policy. Base64, JSON and HMAC
--   are functions, with their round trip at a payload as a law; the file system is what it answers.
-- Wizard (mcp_server/skills/space_type_assignment): the state of wizard_state.py and the tools of
--   operations.py that assign space types over several turns, with Wizard/Batches for the batch and
--   Wizard/Steps for any sequence of calls. What the model and the standards answer is a record.
-- Facets (mcp_server/skills/geometry/planar_facets.py): the search that cuts an outline into planar
--   pieces, with its depth of 4 and its budget. Outline (edge_topology.py beside it, with degree_map of
--   edge_graph.py): the walk over unpaired edges that finds an outline, on as much fuel as there are
--   edges; Outline/Branch the pairings at a branch point, Outline/Resolve the search over them.
-- Base has what they share: Boolean tests, lists measured by native numbers, and Python's dict as an
--   association list that keeps the place of a key.
--
-- Locks are not modelled: a call that holds its lock throughout is one step. Of the calls that do not,
-- the timeout sweep, a cancel, a save and the completion of an upload are split into the parts between
-- which others can come; `verify_token`, which awaits the portal between the look-up in its cache and the
-- entry, stands as one step, so that nothing comes between. Each component's tests run its definitions
-- on concrete values and apply its theorems there.
--
-- Not modelled: the other skills that call the OpenStudio SDK, the measures, the results, and the
-- wiring of the server.
pub mod Auth
pub mod Base
pub mod Facets
pub mod HvacOnly
pub mod Identity
pub mod Outline
pub mod Paths
pub mod Policy
pub mod Retention
pub mod Runs
pub mod Sandbox
pub mod Session
pub mod Transfer
pub mod Wizard

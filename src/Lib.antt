-- ===== src/Lib.antt =====
-- varTrack's orchestrator (orchestrator-service/app) takes configuration files from Git, turns each into
-- flat keys, and writes them to a store, its sink. A ledger in Redis remembers what was written, and
-- prune deletes the keys that no file holds any more. This library models the tasks that do this, from the
-- webhook's body to the sink, and the parts that they call.
--
-- The parts, and the files that model them:
--   Prelude (Tests, Lists, Dict, Texts, Order): shared names; the Boolean tests; lists over the native
--     numbers; association lists for dicts; texts by characters, and Python's order of them.
--   Value: what the parsers and `json.loads` give, and a rule, which is a dict of such values.
--   Glob: the part of Python's `fnmatch` that protection patterns use.
--   Ledger, Ledger/Names: orchestrator-service/app/ui/ledger.py, the reads: get_target, list_envs, list_targets, entries_of,
--     key_state, repo_name, inventory_key.
--   Payload: extract_prune_config of orchestrator-service/app/tasks/payload.py.
--   Sink: orchestrator-service/app/pipeline/sinks/base.py as the sync stage calls it.
--   Prune/Stale, Prune/Environment: _stale_keys and _prune_environment of orchestrator-service/app/pipeline/stage_sync.py,
--     with all that they call. A function of the source that loops is a function for the loop, one for
--     a round, and one around them: _keys_held_elsewhere is keys_held_elsewhere, visit_tenants,
--     visit_all and visit. Prune/Held, Prune/Rules, Prune/Safety, Prune/Sharing, Prune/Deletion,
--     Prune/Outcome and Prune/Account hold the proofs.
--   Sync/Files, Sync/Run: run_stage_sync of the same file: the write of one file (write_file), the loop
--     (run_files), the rollback (roll_back), the prune of each environment (prune_all) and the results.
--     Sync/Recovery and Sync/Results hold the proofs.
--   Breaker: orchestrator-service/app/utils/circuit_breaker.py, one function per method; Breaker/Runs has runs of calls, and
--     Breaker/Opening, Breaker/Counts and Breaker/Probes the proofs. The clock counts in ticks.
--   Ledger/Record: record_target, as target_after (the new document) and record_target (the calls of
--     Redis); Ledger/Merging, Ledger/Recording and Prune/Totality hold the proofs.
--   Sync/Locks, Sync/Candidates: target_locks and prune_candidates; Sync/Locking holds the proofs on locks.
--   Env (Cache, Resolver): orchestrator-service/app/pipeline/pr_branch_cache.py and orchestrator-service/app/pipeline/env_resolver.py; Env/Resolving
--     holds the proofs.
--   Env/Slice: orchestrator-service/app/pipeline/env_slice.py, with its proofs in Env/Slicing.
--   Rule: the rule a sync runs with. Rule/Renamed: orchestrator-service/app/pipeline/renamed_options.py, its proofs in
--     Rule/Renaming. Rule/Getters, Rule/Secrets, Rule/Settings: orchestrator-service/app/pipeline/datasource_settings.py.
--     Rule/Layers, Rule/Tenants: orchestrator-service/app/pipeline/rule_layers.py, with Rule/Merging, Rule/Protection,
--     Rule/Forcing, Rule/Identity, Rule/Finding and Rule/Tenancy. Rule/PresetNames, Rule/Presets: orchestrator-service/app/pipeline/presets.py, with Rule/Chains and Rule/Ending.
--     Rule/Overrides: orchestrator-service/app/pipeline/repo_overrides.py, with Rule/Overriding and Rule/Errors.
--   Transform: orchestrator-service/app/pipeline/transformer.py: transform and the flattening; Transform/Shape: unflatten and file_shape; Transform/Reference says what
--     flat keys are, and Transform/Flattening and Transform/Placing have the proofs.
--   Secrets: orchestrator-service/app/pipeline/secret_resolver.py; Secrets/Resolving has what it leaves of a file's keys.
--   Etl: run_stage_etl (etl_files is the loop, etl_file a round) and run_stage_etl_content of
--     orchestrator-service/app/pipeline/stage_etl.py, with validate of orchestrator-service/app/pipeline/validator.py. prepare is what
--     both do alike. Etl/Totality, Etl/Strictness, Etl/Masking and Etl/Accounting hold the proofs.
--   Task: the tasks of orchestrator-service/app/tasks/etl.py. Task/Fields: orchestrator-service/app/tasks/payload.py and run_stage_payload of
--     orchestrator-service/app/pipeline/stage_payload.py. Task/Collect: orchestrator-service/app/tasks/file_collector.py. Task/Stages: the stages as
--     the tasks call them. Task/Webhook: process_webhook_task, as a function from the sink's state to the state and the answer;
--     Task/Writing, Task/Shadow and Task/Preview hold its proofs. Task/Cli: process_cli_sync_task, with Task/Choosing and Task/CliWriting. Task/Heal:
--     sync_all_task, with Task/Heal/Healing.
--   Access: orchestrator-service/app/ui/access.py, what a signed-in user may see and do; Access/Seeing holds the proofs.
--   Tests: runs at concrete data, and the theorems at it.
--
-- How the code is written here. A call that may raise gives an Option, or, where the message is kept, a
-- Reply; a sink's method gives its new state beside the Reply, so a call that raises may have written. A
-- round of the ETL stage is a Step, which goes on, skips the file or fails, and a task's answer is a TaskResult. A
-- set is a list read with `contains`; `sorted(set(xs))` is sorted_set. Every loop runs over a list, but
-- two that have fuel: the stack of _py_flatten, as much as the data has values, and the resolution of
-- presets, which calls itself for each preset of a preset; there one more than the names of presets is
-- enough, since no name comes twice in a chain.
--
-- Parameters. Redis, a sink and its class, the registry of tenants and rules, the digest of a secret, git,
-- the parsers, the schemas' texts, the cue tool, the files and managers of secrets, sums of floats, the Rust core, and what the generated protos say of a rule's options stand
-- outside the library: records and functions that the definitions take. The theorem on the locks that are
-- left assumes of Redis what IsServer says: a lock is a sync's from the call that gets it to its release. The
-- theorem on when a body is run assumes what IsApart says: taking a lock changes the answer for no other. The theorem on other targets assumes that
-- list_targets gives what get_target gives. The theorems on presets assume what Closed and GitFaults say:
-- the presets that git holds name presets of a list, and a call of git raises only its own errors.
--
-- Assumptions. The reads of one prune see one state of Redis. Log lines, metrics and the closing of a sink
-- are left out: they change nothing that is modelled. A protection pattern that is no text is an error
-- where the rule is parsed. The lists and dicts of config.cue (rules, tenants,
-- platforms, datasources, protection) have the types that the gateway checks, and the protection patterns of a
-- tenant's bundle.json are taken to be texts too: merge_child does not raise between these two layers. A preset
-- or a vartrack.json may hold any JSON: there merge_or_raise has its TypeError; two numbers are equal when their texts are.
--
-- The theorem on errors of the ETL stage assumes that the files can be parsed, that json can write them, and that
-- the secret managers can be read. A task's sink is the
-- one that its datasource and rule give; what stops the third stage before its first file (a busy lock, a sink
-- that cannot be opened) is a parameter, and so is the order in which Python lists a set.
--
-- Not modelled: git, the parsers, the cue tool, the calls of secret managers, the sinks themselves, the servers,
-- the Go programs and the web UI, which do I/O or wire frameworks; and the records of tasks for the user
-- interface, metrics, retries and time limits.
pub mod Prelude
pub mod Value
pub mod Glob
pub mod Ledger
pub mod Prune
pub mod Payload
pub mod Secrets
pub mod Etl
pub mod Sink
pub mod Sync
pub mod Env
pub mod Breaker
pub mod Rule
pub mod Access
pub mod Task
pub mod Transform
pub mod Tests

-- ===== src/Lib.antt =====
-- alpha-swarm: distributed orchestration of language-model agents over code repositories. A
-- planner splits a goal into sub-tasks; the workflow engine keeps them as a persisted dependency
-- graph, dispatches ready steps to the swarm runner in rounds, folds the results back, replans
-- after a failure, and checkpoints the document after every change.
--
-- Prelude holds texts (strings as their UTF-8 bytes, equal when their bytes are), lists with
-- Boolean predicates, UTF-8 validity, decimal printing and line splitting as Rust does them.
--
-- Orchestrator follows crates/orchestrator and the types it shares: Task is SubTask of
-- planner_types.rs; Planner is the rest of planner_types.rs (parse_plan in Parse and Paths,
-- detect_cycle in Cycle, constrain_to_named_files in Scope), with JSON, the tables of Unicode and
-- the order of a hash set as the record PlannerEnv; Runner is SwarmResult, RunControl and the
-- waves of execute_tasks in runner.rs; Graph is GraphExecutor of graph.rs for one file, with the
-- files, the shell, the search for package.json and the model as fields of its record.
--
-- Workflow follows crates/workflow: State is WorkflowState, StepState and StepKind; Model is the
-- document of model.rs (WorkflowRun, readiness, absorb_captured, splice_replan); Engine is
-- engine.rs, one pass of the loop of execute as a function on the run, the aggregate and a world.
--
-- VirtGit follows crates/virt-git: Store is the in-memory store of store.rs, with the stores of
-- store.rs and wasi_store.rs that cache a remote one in Remote, Tree is TreeSnapshot of tree.rs,
-- Diff is diff.rs, and Workspace is VirtWorkspace of workspace.rs with fork and merge. A BTreeMap
-- is the list of its entries in the order of the keys. SHA-256, the JSON of a tree and the hunks
-- of a text diff are fields of Primitives, an argument of what uses them.
--
-- Events follows crates/events/src/scheduler.rs: Keys holds the keys of leases, locks and slots
-- with sanitize_key; Bucket is the interface to a NATS key-value bucket, the laws that the
-- service documents, and a map that has them; Scheduler is NatsScheduler.
--
-- EditParser follows crates/edit-parser/src/lib.rs: the blocks of a model answer as file edits
-- (parse_edits) and as actions (parse_actions, in Actions); Print writes the format that the doc
-- comment describes. The loops keep what is left of the answer, response[pos..], and have one
-- more unit of fuel than the answer has bytes, which is proved to be enough. A slice whose end is
-- before its start panics, and so does the parse.
--
-- Inference follows crates/inference-client: the root and Select hold types.rs and the selection
-- helpers of router.rs; Router is InferenceRouter, with chat in Router/Chat. Its backends are the
-- record Backends: a call is given the router and returns it, with what other requests did to the
-- counters while it waited. The float that parse_param_size_b reads is a field of Numbers; the
-- counters wrap at 64 bits.
--
-- CodeUtils follows crates/agent-core/src/code_utils.rs: the tests of lines and paths, and
-- fuzzy_replace, which the runner and the graph executor use to apply an edit.
--
-- What the engine calls outside itself (the database, event bus, file system, commands, the
-- planner model, the runner, the pause flag) is the record Env, an argument of every definition:
-- each call takes the world and returns it changed. A failed checkpoint returns at once, as the
-- operator ? does.
--
-- The u32 counters wrap as in a release build; usize lengths are plain numbers. The loop of
-- execute and the waves of execute_tasks run on fuel and say so when the fuel ends. The search of
-- detect_cycle has one more unit of fuel than there are ids, which is proved to be enough. The
-- fixpoint loop of splice_replan has one more unit of fuel than there are steps; that it then
-- ends by its own test is proved. Sets of texts are lists asked only for membership.
--
-- Not modelled: log output, event timestamps, the text that derived Debug prints (a field of
-- Env), the registry of control handles, the prompts of the planner, the tool loop of an agent,
-- the HTTP clients of the inference backends, the refactor template of the graph executor, and
-- everything behind Env, PlannerEnv, Backends and GraphExecutor.
pub mod CodeUtils
pub mod EditParser
pub mod Events
pub mod Inference
pub mod Orchestrator
pub mod Prelude
pub mod VirtGit
pub mod Workflow

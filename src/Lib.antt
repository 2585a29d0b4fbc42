-- ===== src/Lib.antt =====
-- h2ai-control-plane: the state of tasks, its journal and its stores, the schedules of subtasks and
-- agents, the joining and merging of proposals, constraints on outputs, and the election of leaders.
--
-- A task's life is a sequence of events (crates/h2ai-types/src/events.rs). The orchestrator keeps the
-- state of each task in a concurrent map, publishes the events to a backend, and rebuilds a state from
-- them after a restart, with a snapshot as a shortcut. A task may be split into subtasks that wait for
-- each other; explorers, each in a loop of turns, make proposals for it, which are gathered in a set,
-- ranked, checked against constraints and merged into one output; after a wave that fails a retry is
-- decided and a leader asks a question; agents that run the work are chosen by a policy.
--
-- - Identity, Task.Event: crates/h2ai-types/src/identity.rs and events.rs. A UUID is a number, and what
--   the `uuid` crate prints of it is a parameter that determines it (UuidFormat). An event has all its
--   variants, with the payload fields that the modelled code reads.
-- - Task.Phase, Task.State, Task.Store: crates/h2ai-orchestrator/src/task_store.rs. The map is a list of
--   entries under printed ids; each method locks one entry, so it is one step, and Task.Store.Calls runs
--   any sequence of them. Task.Store.Invariants says what no such sequence breaks, and
--   Task.Store.Tally what it comes to. Counters are u32 and wrap around.
-- - Task.Journal: crates/h2ai-orchestrator/src/session_journal.rs. A replay reads a snapshot and a stream
--   of arrivals (an event, a failure, or a wait that timed out) from a backend that is any record of the
--   trait's two methods. The text of a state is a parameter that reads back what it wrote (StateJson).
--   `note_event` returns the snapshot whose write it spawns; that write and the log lines are not
--   modelled.
-- - State.InMemory: crates/h2ai-state/src/in_memory.rs, a record with a field per locked field, and a
--   function per method. State.InMemory.Publishing takes publishing apart into its two
--   steps, the number and the push, in any interleaving. State.Recovery runs the journal over it. The
--   other stores' values keep the fields that make their keys (State.Values).
-- - Subtasks: crates/h2ai-types/src/plan.rs and `topo_waves` of crates/h2ai-orchestrator/src/scheduler.rs.
--   The loop runs on fuel, the number of subtasks and two more: a round visits at least one subtask that
--   was not visited before, so this is enough, which topo_waves-total shows. In-degrees are usize and wrap
--   below 0. The proof counts edges: Waves.Adjacency for the table, Waves.Release for the inner loops,
--   Waves.Rounds for the outer one; Waves.Schedule and Waves.Refusal conclude. Subtasks.Execute is
--   `SchedulingEngine::execute` with `build_subtask_manifest`, over any executor of a subtask, a function
--   of the id and the manifest: its waves are run in order, each subtask with the results of the waves
--   before. `none` is the panic of `expect`. Execute.Lookup is about finding a subtask,
--   Execute.Wave about one wave, Execute.Inputs about the loop, Execute.Whole about the function.
-- - Proposals: crates/h2ai-state/src/semilattice.rs, over any type of scores with a test for `>`. Where a
--   law needs an order, it is a strict weak one, which `>` is on floating-point numbers but NaN.
-- - Provisioner: crates/h2ai-provisioner/src/scheduling.rs. A cost tier is ordered by its rank, a string
--   by the codes of its characters; the round robin's counter is a usize that wraps around.
-- - Retry: crates/h2ai-autonomic/src/retry.rs. The similarity of two reasons and the lower case of a text
--   are parameters; what is only logged is left out. Constraints are gathered in a map in the order in
--   which they come up, where the program's order is arbitrary.
-- - JudgePanel: crates/h2ai-orchestrator/src/judge_panel.rs. An adapter is a reference with its kind; the
--   quorum, a rounded floating-point product, is a function of the number of votes.
-- - Constraints: crates/h2ai-constraints. Constraints.Types and Constraints.Doc are types.rs;
--   Constraints.Eval is eval.rs, over any numbers with the operations and laws of Floats, where numbers
--   that are equal by `==` are one, and over the libraries for regular expressions and JSON;
--   Constraints.Conflict is conflict.rs, and Constraints.Clusters clustering.rs. The search of a cluster
--   runs on fuel, the number of documents: each round takes an id from the queue that no other round
--   takes, so this is enough, which build_clusters-IsClustering shows.
-- - Merge: Merge.Krum, Merge.Median, Merge.Weiszfeld and Merge.Similarity are the selections of
--   crates/h2ai-state/src (krum.rs, bft.rs, weiszfeld.rs) with the similarities that they use
--   (crates/h2ai-context/src/embedding.rs); Merge.Engine is `MergeEngine::resolve` and Merge.Accumulator
--   its accumulator of violations (crates/h2ai-autonomic/src/merger.rs, retry_accumulator.rs), over the
--   proposals as Proposals compiles them; Merge.Types has the strategies and events. A model of embeddings
--   is a function to lists of numbers, or none. Numbers, square roots and characters are those of a Host.
--   The loop of multi-Krum runs on the number of proposals still to select, and Weiszfeld's on the
--   iterations left, as in the code. Subtraction on usize wraps around.
-- - Tao: crates/h2ai-orchestrator/src/tao_loop.rs, with output_schema.rs and repetition.rs. Tao.Turn is one
--   turn, Tao.Loop the loop of `TaoLoop::run`, which runs on the turns left, as in the code. The adapter is
--   a function of the number of the call and the request, which answers, refuses or takes too long, and
--   the model keeps a list of the calls; regular
--   expressions, JSON and schemas are those of a Host. Tao.Estimator is TaoMultiplierEstimator.
-- - Leader: crates/h2ai-orchestrator/src/leader.rs, with prepare_leader_election and apply_leader_result of
--   mape_k.rs and the step of engine.rs that calls them (Leader.Election.elect). An adapter is a function
--   of what its request is made of and of the number of the call, to an answer or a failure. Leader.Types
--   has the states, of the controller only the fields that concern the leader; Leader.Question the question
--   that is asked; Leader.Terms runs waves and elections in any order. Texts are hashed byte by byte.
-- - HashMap, HashSet, Floats, Members, Sorting, Counting, Result and Prelude are what these share of Rust's
--   standard library: maps by their laws, the stable sort, results, lists, numbers, and how often a number
--   stands in a list.
--
-- Not modelled: the NATS client, the HTTP API, the adapters for language models and the phases that
-- drive them, floating-point estimates, and the writing of logs.
pub mod Merge
pub mod Leader
pub mod Tao
pub mod Constraints
pub mod Prelude
pub mod Members
pub mod HashSet
pub mod Floats
pub mod HashMap
pub mod Result
pub mod Sorting
pub mod Counting
pub mod Identity
pub mod Task
pub mod State
pub mod Subtasks
pub mod Proposals
pub mod Provisioner
pub mod Retry
pub mod JudgePanel
mod Tests

-- ===== src/Lib.antt =====
-- Models of the core of Manglekit, a Go library that governs AI agents by Datalog policies, and
-- proofs about them.
--
-- The program's parts. A client runs a named action in a loop (sdk/loop.go): each step hands an
-- envelope to the action, takes the decision that comes back with it (proceed, halt, retry,
-- route), keeps the history and the feedback, and saves the session's state through the state
-- manager (internal/statemanager/manager.go, core/session_state.go). An action may stand behind
-- a gate that asks the policy engine before and after it (internal/supervisor/action.go,
-- sdk_adapter.go), and behind a circuit breaker (adapters/resilience/circuit_breaker.go). Agents
-- work together in workflows: graphs of nodes, each done by an agent, with edges that a
-- condition or an error selects (multiagent/workflow_executor.go over a policy engine;
-- multiagent/hydrated_executor.go over a definition from core/workflow.go, with or without a
-- session that outlives a run). Sessions stand in an in-memory store
-- (sdk/ports/session_store.go), and facts of a session with a time to live in another
-- (adapters/storage/session/store.go). Text enters a Datalog program escaped
-- (internal/engine/reflection.go). Behind the policy engine stands a runtime that keeps the
-- program and the facts, and caches evaluated stores (internal/engine/runtime.go); a decision is
-- explained by going back over the rules (internal/engine/explain.go).
--
-- The files:
-- - Common: names of the libraries passed on, Boolean tests, lists measured by native numbers,
--   Go's maps as association lists, the order of texts.
-- - Workflow: the data of the executors, and `Env`, all that they ask of other code: the agents'
--   work, the policy engine, the clock, the context's deadline. Workflow/Graph is how a workflow
--   is walked (`findStartNode`, `findNextNode`, `findErrorEdge`), Workflow/Attempts is
--   `executeNode` with its retries, Workflow/Loop the loop that `ExecuteWorkflow` and the
--   hydrated `Execute` have word for word, over a record `Ops` of what differs, Workflow/Execute
--   is `ExecuteWorkflow`, Workflow/Hydrated the hydrated `Execute`, Workflow/Session is
--   `ExecuteWithSession`, Workflow/Parallel is `ParallelWorkflowExecutor`, with the semaphore
--   of a group in Workflow/Parallel/Run, Workflow/Def and Workflow/Instance are the types of
--   core/workflow.go with their methods.
-- - Supervisor: the gate; Supervisor/Gate is `VerifyAtoms`, Supervisor/Action is
--   `ExecuteInternal` and the supervised `Execute`, Supervisor/Tiers says when a halt blocks.
-- - Breaker: the circuit breaker as turns that threads interleave; Breaker/Serial is its view
--   from one thread.
-- - SessionStore: `InMemorySessionStore`. FactStore: the store of facts with a time to live.
-- - SessionState: the state of a session; SessionState/Manager is `DurableStateManager`
--   with the JSON methods of the state.
-- - Client: `ExecuteByName` (Client/Run) and `ExecuteSingleStep` (Client/Step) with their
--   helpers; Client/Similar is the test for feedback that repeats itself.
-- - Escape: `escapeString`. GraphKey: the keys of the graph's indices
--   (internal/adapters/storage/graph/encoding.go). Dict: the numbers of its texts
--   (internal/adapters/storage/dict/sharded.go).
-- - Runtime: `MangleRuntime` of internal/engine/runtime.go around the mangle library.
--   Runtime/Load is what changes its program and facts under one lock, Runtime/Reload
--   `ReloadFromSource` in six turns, one for each stretch between its locks, Runtime/Evaluated
--   the cache of evaluated stores, in the two turns of `evaluatedWorkingStore` that matter to it,
--   Runtime/Calls the turns of all calls as one sequence.
-- - Explain: internal/engine/explain.go. Explain/Unify is matching and substitution,
--   Explain/Prover `prove` and `solvePremises`, Explain/Query `Explain` over the facts that a
--   query matches.
-- - Policy: `PolicyEngine` of internal/engine/solver.go. Policy/Facts is what a request becomes,
--   Policy/Gate the gate with its three queries, Policy/Steering `EvaluateSteering`, Policy/Plan
--   `AssessPlan` and the other questions to the engine.
-- - Genes: rules that were learned (x/genes). Genes/Pool is the pool and its manifest,
--   Genes/Head finds the tier in the head of a rule, Genes/Compile is the compiler. Genes/Tiers
--   says which calls it reads as they are meant, without the code's own functions.
-- - Ooda: the epochs of x/ooda/frame.go. Ooda/Phases is observe, orient, decide and verify,
--   Ooda/Act is the action with its retries, Ooda/Run is `Run`; Ooda/Registry is
--   x/ooda/registry.go.
--
-- State is passed explicitly: a function that changes a record takes it and gives it back. What
-- belongs to other code is a field of `Env`, `Store`, `Provider`, `Unicode`, `Library`,
-- `Engine`, `Terms`, `Hash`, `Letters`, `Host` or `Parts`, a function over an opaque `World`
-- that it may change; nothing is assumed of it but what a theorem names. Errors are values.
-- `interface{}` is `Value`: `nil`, a text, or some other value.
--
-- Bounds and fuel. The walk of a workflow takes fuel, and the number of nodes times the retries
-- allowed, and one, is enough: each round but the last spends one of the visits that a node is
-- allowed. The agent loop recurses on the steps that are left, the retries of a node on the
-- attempts that are left. The prover recurses on the depth that is left of its 32 levels, so it
-- needs no fuel; its count of steps only cuts branches short. The search for parallel groups
-- takes a key out in each round, and the goroutines of a group have two turns for each node. The breaker's counters and the runtime's versions wrap at 2 ^
-- 64.
--
-- Not modelled: time stamps that only logs read, logging and tracing; the sharing of mutable
-- objects between a store and its caller; the Datalog evaluation (a library); what happens inside
-- the run of a node while others of its group run; the reflection over Go values and the source text of
-- policies, the rest of the OODA package, the EAST package, scoring, configuration, the
-- providers of services and the command line.
mod Common
pub mod Policy
pub mod Ooda
pub mod Runtime
pub mod SessionState
pub mod Client
pub mod FactStore
pub mod Supervisor
pub mod Breaker
pub mod Escape
pub mod Explain
pub mod Dict
pub mod Genes
pub mod GraphKey
pub mod Workflow
pub mod SessionStore

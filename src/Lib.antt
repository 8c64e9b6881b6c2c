-- ===== src/Lib.antt =====
-- OpenAgent: the task store, the agent runtime, the job queues, the team orchestrator, the memories,
-- the scheduler and the WebSocket hub of the Go backend (backend/internal), as functions on explicit
-- state.
--
-- The parts and how they interact. A user or an agent creates tasks in the task store; the job pool
-- hands each task to the runtime, which asks a language model for a decision, repairs and checks it,
-- executes its actions on the store, and writes the status of the run and of the task. Teams put a
-- coordinator and delegation on top of both, and dependencies between tasks. Tools run behind checks
-- and approvals. The scheduler makes tasks of triggers that are due and gives them to the pool. The
-- memory service keeps what agents remember, each text once, and the hub passes events on to clients.
--
-- Files and code.
--   Common: the tests and lists of the model, Go's value-or-error pairs, strings as bytes.
--   Task: the rows and GetTask (repository/task.go, domain/models.go). Task.Status: the transition
--     tables of repository/task.go and runtime/context.go. Task.Update: UpdateTaskStatus, AssignTask,
--     CreateTask, each as one transaction of which the database may refuse a statement. Task.Page:
--     ListTasks. Task.Dependency: AddTaskDependency, ListTaskDependencies, IsTaskBlocked
--     (repository/team.go).
--   Knowledge: NormalizeContent, stripHTML and ChunkText (knowledge/ingest.go).
--   Runtime.Json, Runtime.Decision, Runtime.Memory, Runtime.Repair: the decision of the model,
--     ValidateDecision and normalizeDecision (runtime/decision.go, security/prompt.go). Runtime.Gate:
--     Runtime.validateDecision (runtime/execution.go). Runtime.Run: the status of a run
--     (repository/run.go). Runtime.Perform: executeDecisionActions (runtime/execution.go).
--     Runtime.Execute: ExecuteTask and retryDecision (runtime/runtime.go, runtime/retry.go).
--     Runtime.Aggregate: CheckParentAggregation (runtime/aggregation.go).
--   Worker: Pool.Enqueue and the attempts of a job (worker/worker.go). Worker.Durable: the queue in
--     the database (worker/durable.go).
--   Team: StartTeamTask, Delegate, Evaluate, RequestHumanInput (team/orchestrator.go).
--   Approval: Create, Decide and ExpirePending (approval/service.go).
--   Tools: the registry (tool/registry.go), and in Tools.Permit and Tools.Execute the checks and the
--     steps of Executor.Execute, in Tools.Approved those of ExecuteApproved (tool/executor.go).
--   Memory: the memories (memory/service.go). Memory.Text, Memory.Sequence, Memory.Similar and
--     Memory.Screen: the texts, their similarity and what is not stored at all. Memory.Store,
--     Memory.Handle and Memory.Consolidate: the tables, the handlers of a candidate, Consolidate.
--     Memory.Create and Memory.Lifecycle: Create, Archive, Restore, MarkStale, CleanupExpired, Get.
--     Memory.Retrieve: the query of Retrieve with its numbered parameters, and List.
--     Memory.Background: BackgroundConsolidation.
--   Hub: the rooms and the delivery of events (ws/hub.go) as steps of the goroutines.
--   Scheduler: the triggers and ProcessDueTriggers (scheduler/service.go).
--   Guardrail: the limits and the status of an agent (guardrail/service.go).
--   Limiter: the rate limiter (http/middleware/ratelimit.go); Allow of golang.org/x/time/rate is a
--     parameter.
--   Tests: runs at fixed inputs and applications of the theorems.
--
-- Conventions. Identifiers are numbers, and a reference that may be nil is an Option. Texts that are
-- only compared are String; texts that are taken apart are lists of bytes, with the white space and
-- letters of ASCII. Errors are told apart by the text up to the values in it. What another process
-- decides is an argument: the statements that the database refuses, the replies of the model, the end
-- of a tool call, the assignee that is chosen for a new task, the time. uuid.Parse and uuid.String are
-- parameters.
--
-- The scores of memories are exact fractions for Go's float64, and the CHECK that they are at most 1
-- is not modelled. The hash, the order by the distance of embeddings and the reply of the model are
-- parameters; sort.Slice sorts stably, as it does for the at most 10 candidates. Where a query has no
-- order, the rows come in the order of the table.
--
-- Bounds and fuel. The search of AddTaskDependency has one round more than there are edges; the loop
-- of NormalizeContent has as many rounds as the text has bytes; the loop of ChunkText has as many as
-- the text has bytes where the sizes are sane, and no number is enough where they are not. ExecuteTask
-- has its own bound of 10 iterations, and a repair at most 2. Numbers of the source stay far below 63
-- bits, but for the shift of the pause between attempts, whose 64 bits are written out.
--
-- Not modelled: HTTP handlers, model providers, messages, what is broadcast where, prompts, metrics,
-- token counts and the audit rows; regular expressions, but for those of the memories, which are
-- written out; the decoding of JSON; the choice of an assignee; the retrieval of documents, the
-- autonomy, the evaluation and the browser; the change to summer time, and FOR UPDATE SKIP LOCKED,
-- which is read as a plain query.
pub mod Common
pub mod Task
pub mod Knowledge
pub mod Runtime
pub mod Worker
pub mod Team
pub mod Approval
pub mod Tools
pub mod Memory
pub mod Hub
pub mod Limiter
pub mod Scheduler
pub mod Guardrail
pub mod Tests

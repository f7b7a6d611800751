-- ===== src/Lib.antt =====
-- foxharness, a coding agent in Go: an engine drives a model and its tools turn by turn, a policy judges
-- what a tool call may do, and front ends, among them a Feishu bot, submit tasks. This library models
-- the parts below and proves what they keep.
--
-- Schema: internal/schema, the messages, tool calls and usage counters that the parts exchange, and
--   NormalizeMessage. Slices are values here, so the Clone functions are identities.
-- Engine: internal/engine/target.go. AgentEngine.Run works through five collaborators (ModelInvoker,
--   ToolExecutor, Conversation, TurnPolicy, Observer), here records of functions on a world of the
--   caller's choice, which holds whatever the Go objects keep, contexts included. Engine/Types has the
--   records and the interfaces; Engine/Run the state of a run, the closure emit, the method fail and
--   the small functions on facts and changes, as a state monad whose `stop` is a return from Run;
--   Engine/Phases the thinking and action phases and the policy's decision; Engine/ToolRound
--   executeTools; Engine/Turn one whole turn, the loop over turns, validate and Run. The Keeps modules
--   have the rules by which a property goes through these actions. The loop runs on fuel, one unit a
--   turn: with a turn limit, fuel equal to the limit is enough. A run without a limit ends only when
--   its collaborators end it.
-- Feishu: internal/feishu/scheduler.go, the queues of tasks by chat session. The session map is an
--   association list (Dict) and a queue is written back where Go writes through its pointer. `handled`
--   records what the source does outside the state: go s.run, and deliverCancellation. The loops
--   follow the ready list and the queues. Scheduler/History has the sequences of calls that the
--   runner's loop makes; the completion of a task is a call of its own, whenever it comes.
-- Toolpolicy: internal/toolpolicy. Assessment has the types, Path the module PathScope with the
--   operating system as a parameter, Shell the classifiers AssessShell (Shell/ReadOnly) and
--   AssessSynchronousShell (Shell/Synchronous) over the nodes that a parsed command has, in the order
--   of syntax.Walk. The parser of mvdan.cc/sh is a parameter. Texts are lists of code points. The
--   climb of resolvePath runs on fuel, the length of the path and one, and tells the end of its fuel
--   from a path without an existing ancestor.
-- Permission: internal/permission. Request has the requests and grants of request.go, Modes the State
--   of state.go, Policy Classify of policy.go, Coordinator and Registry those of coordinator.go, over
--   the functions of the reviewer, the user's form, the sinks and the tools, which are parameters. The
--   State is shared with other coordinators and the terminal: these functions may change it, and
--   `meanwhile` does what others do to it between two accesses of an authorization. The assessment of
--   a call is the tool's. GrantKeyFor, which reads the file system, is an arbitrary function of the
--   request and the world, and the evidence for the reviewer one of the request.
-- Go: functions of Go's packages that several parts use, as a record of parameters: bytes, SHA-1,
--   TrimSpace, two verbs of fmt, and the order in which `range` visits a map.
-- Recovery: internal/recovery/error_tracker.go, the tracker of failed tool calls, and its prompt.
-- Reminder: internal/reminder/reminder.go, the manager of reminders: Reminder itself has the operations,
--   Loops what a detected loop is, Cooldown how far reminders are apart, Actions what is kept of many
--   actions.
-- Turnpolicy: internal/turnpolicy/policy.go, the policy of one run over Recovery and Reminder, as a
--   TurnPolicy of the engine. The queries of the runtime may be absent, and work on a world.
-- Compaction: internal/compaction. Window has thresholds.go and registry.go, Estimator the estimators that
--   the compactor uses, Prompt and Summary the prompt and what is read from its answer, Compactor the
--   state behind the mutex with MaybeCompact and ForceCompact. The provider works on a world. The loop of
--   stripTag runs on fuel, the length of the text, which is enough since each round shortens it. Token
--   counts lie far below 2^63, save for the recorded usage, which is summed on 64 bits.
--
-- Toolexec: internal/toolexec/executor.go, the executor of tool batches. Each call of a tool is one step on
--   a world; the steps of a parallel group come in an order that a parameter gives, and write the slots of
--   their calls (Orders, Schedules, Answers). The loop over the calls runs on fuel, their number.
-- Provider: internal/provider/retry.go, the attempts, the delays and the classification of errors. The
--   client, the context and the clock are parameters; durations wrap around on 64 bits.
-- Planruntime: internal/planruntime/lifecycle.go, the phases of a formal plan. Execute is two steps, around
--   the call of the registry; Stages has the abstract machine, Approved what precedes an implementation.
-- Slash: internal/slash/arguments.go, the arguments of a command and their substitution. A regular
--   expression is a test at a position; texts are lists of code points.
-- Approval: internal/approval/approval.go, the store of pending approvals. Each section under its mutex is
--   a step, and a pending record is known by an identity; Outcome has what a waiter is told.
-- Effort, Todopolicy, Toolresult: internal/effort/effort.go, internal/todopolicy/completion.go and
--   internal/toolresult/truncate.go.
--
-- Prelude and Dict hold shared names, Boolean tests, lists, texts and maps. The Tests modules apply the
-- theorems to concrete inputs.
--
-- Not modelled: the terminal interface, the providers and MCP clients (network), storage of sessions,
-- memory and settings, the reviewer's prompt and answer, the tools themselves, and the wiring in
-- internal/app and cmd; nor some parts with logic of their own: checkpoints, autodev, the runtime that
-- feeds the engine, the discovery of commands, and settings.
pub mod Prelude
pub mod Compaction
pub mod Dict
pub mod Go
pub mod Schema
pub mod Engine
pub mod Feishu
pub mod Toolpolicy
pub mod Turnpolicy
pub mod Toolexec
pub mod Provider
pub mod Planruntime
pub mod Slash
pub mod Effort
pub mod Approval
pub mod Toolresult
pub mod Todopolicy
pub mod Permission
pub mod Recovery
pub mod Reminder

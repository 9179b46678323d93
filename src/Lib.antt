-- ===== src/Lib.antt =====
-- The AI manager of the mogenius operator (Go, src/ai), and the parts of the operator that it and
-- the others stand on: the configuration, the client of the key-value store, the search of the
-- index of resources, and the listing of the audit log.
--
-- The operator runs in a Kubernetes cluster. Its AI manager keeps a queue of tasks in a key-value
-- store: an agent (a custom resource with a scope of namespaces, triggers and limits) has its runs
-- queued by a schedule, by a change of a resource or by a user; the queue starts them; a run talks
-- to a language model, executes the tool calls that the model asks for, and waits for a user's
-- approval before a mutating one. Chat users reach the same tools within the resources of a
-- workspace and the role of their grant. Budgets bound each run and each model's day. The settings
-- come from declared configuration keys, which the environment and the code set. The key-value store
-- also holds numbered entries, an index of the cluster's resources that users search, and the audit
-- log, which is listed for a workspace and whose payloads are redacted.
--
-- Which file models which part:
--   Access, Access/Build       the context of a tool call and its checks, src/ai/tools.go:
--                              ToolContext, IsNamespaceAllowed, IsHelmReleaseAllowed,
--                              IsResourceAllowed, newToolContextFromUserGrant, newToolContextFromAgent
--   Task, Task/Store           AiTask, its states and its life in the store, src/ai/aimanager.go:
--                              getTaskByKey, createOrUpdateAiTask and the keys
--   Task/Api                   the calls of users, src/ai/aimanager_api.go, aimanager_cancel.go,
--                              aimanager_execute.go, aimanager_delete.go; Task/Machine has the
--                              diagram of a task's states
--   Model, Model/Resolve       AiModel resources and a run's configuration, src/ai/aimodels.go
--   Usage                      the ledger of tokens and the daily budget, src/ai/aimanager.go:
--                              aggregateTokenUsage, isModelBudgetExceeded, resetTodayTokenUsage
--   Agent, Agent/Prompt,       validation, scope, prompts, queueing, triggers, the tool context of a
--   Agent/Runs,                task, and the cap on the history of runs, src/ai/agents.go:
--   Agent/Triggers,            resolveAgentScope, enqueueAgentRun, triggerChangeAgents,
--   Agent/Context,             processAgentCronTriggers, buildAgentTaskContext,
--   Agent/RunKey,              groupAgentRunKeys, pruneAgentRunsToLimit, getEnabledAgents,
--   Agent/History, Agent/Cache invalidateAgentCache
--   Queue/Startup, Queue/Pass, the background work, src/ai/aimanager.go:
--   Queue/Run                  resetInProgressTasksOnStartup, cleanupOrphanedTasks,
--                              processAiTaskQueue, runOneTask
--   Approval                   the wait for a decision, src/ai/agents.go: CreateApprovalRequest, and
--                              ResolveWorkspaceContext of src/ai/aimanager_api.go
--   Exec, Exec/Loop            the execution of a tool call, src/ai/tools_exec.go, and the loop of a
--                              run, src/ai/agent_loop.go: dispatchToolCall, runAgentLoop
--   Config, Config/Values,     the configuration module, src/config/config.go and interface.go:
--   Config/Changes,            Declare, TryGet, TrySet, OnChanged, LoadEnvs, Validate, GetAll;
--   Config/Envs, Config/Spec   Config/Spec is its abstract view
--   Kv, Kv/Append, Kv/Scan,    the client of the key-value store, src/valkeyclient/valkeyclient.go:
--   Kv/Pages                   createKey, SetObjectWithAutoincrementLimit, scanKeys, deleteKeys,
--                              GetObjectsByPrefixWithSizeAndNs
--   Search, Search/Plan,       the search of the index of resources and its pages, src/store/store.go:
--   Search/Merge               ParseSearchQuery, shardSearchPlan, filterMembersByGroups,
--                              readShardTopMembers, sortRankedMembers,
--                              GetResourcesByWhitelistPaginated on resolved shards
--   Audit, Audit/Listing,      the audit log, src/store/store.go: ListAuditLog with its fallback,
--   Audit/Redact               and redactSensitiveKeys of src/secrets/secrets.go
--   Prelude                    lists, maps, sorting and texts as the code uses them
-- The other modules hold lemmas and properties; the modules called Examples hold runs of the code.
--
-- How the code is modelled. A method of the manager is a function of the state to its result and the
-- state that it leaves, on errors too. The clients are parameters: which calls of the key-value
-- store fail (Task.Store.Faults), the keys that a scan finds, the cron library, the existence of a
-- resource, the model's API, the handlers of tools and the MCP servers. In Kv the commands of the
-- server are a record of functions (Server), and its laws (IsServer) the documented behaviour of a
-- server that works; in Audit strings.ToLower is a parameter. Other replicas and users
-- enter by what they do between two steps: the argument `meanwhile` of a pass over the queue, the
-- list of happenings of a wait. Stored JSON is a tagged value. Times are natural numbers, in
-- seconds, or in nanoseconds where a file says so; counts of tokens are natural numbers, since
-- limits are not negative and the sums stay far below 2 ^ 63. The order that sort.Slice gives to
-- equal elements is not specified by Go; here they keep their order.
--
-- Loops are recursion on the list that they go over. The loop of a run has no such list and is on
-- fuel: the maximum of tool calls is enough, since each turn that goes on counts at least one call.
-- Prelude.Decimal prints a number on its own value as fuel. The stripping of a key's separators is on
-- the length of the key, which is enough (Kv/Batches), and the deletion in batches on the number of
-- keys, which is enough too (Kv/Deleted). The 4096 numbers that an append tries are the code's bound.
--
-- Not modelled: the pure I/O of the operator (watchers, monitors, Helm, Argo CD, Flux, terminals,
-- websockets), the generated clients, the adapters to the providers' APIs, the writing of the
-- audit log and the upkeep of the indexes, the resolution of the shards and the pruning of their
-- stale members, the streams and sorted lists of the key-value client, AsEnvs of the
-- configuration, the timeline of a run's steps and metrics, and, in src/ai, the chat loop, the
-- tool categories and the MCP clients. The triggers of agents read the agents as a refresh of the
-- cache does.
mod Prelude
pub mod Access
pub mod Task
pub mod Model
pub mod Usage
pub mod Agent
pub mod Queue
pub mod Approval
pub mod Exec
pub mod Config
pub mod Kv
pub mod Search
pub mod Audit

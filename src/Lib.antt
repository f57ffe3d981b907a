-- ===== src/Lib.antt =====
-- Verification of the core services of active_agent_platform: event delivery, admission of work,
-- supervision of services, the risk gate, goals, the coordinator of cognition cycles, the brain state,
-- the workflows, with their validation, their registry and their runs, plans and their grants, and the choice
-- of skills.
--
-- How the parts interact: publishers put messages on an event bus, which offers them to the bounded
-- queue of each subscription; a consumer takes them and runs its handler through the transactional
-- inbox; accepted stimuli are merged by the coordinator with the goals that the goal policy selects into
-- cycles; the admission policy decides which work may use the global budget; the supervisor
-- keeps the services running, and the brain state says in which mode. A workflow definition is validated,
-- registered and activated; a plan of tasks for active workflows is validated, decided upon and granted
-- attempts; the runs of a workflow and of its nodes move through their statuses, each move
-- with a row in a log; and a node's requirement is bound to the best skill that provides its capability.
--
-- Files and code (paths below active_agent_platform/):
--   Events/Retry: RetryPolicy of events/inbox.py and OutboxRetryPolicy of events/outbox.py.
--   Events/Inbox: TransactionalInboxConsumer of events/inbox.py; `consume`, `run_attempt`,
--     `record_retry` and `record_dead_letter` are the methods of these names, `attempt_loop` the `for`
--     loop. State: the consumer's rows, the dead letters, the domain's own data, the clock.
--   Events/Outbox: OutboxWriter and OutboxRelay of events/outbox.py; `append`, `confirm`, `defer` and
--     `publish_due` are the methods of these names. Append, Selection, Rounds and Relay hold the proofs.
--   Events/Message: events/models.py.
--   Events/Subscription: events/subscription.py; `offer` and `get` up to a wait, `resume` and `time_out`
--     after it. Order, Invariant, Steps, Fifo, Drain, Ledger and Balance
--     hold the proofs.
--   Scheduling/Models, Scheduling/Policy: scheduling/models.py and scheduling/policy.py.
--   Scheduling/Scheduler: scheduler.py; `handle` is one round of `tick`, `fire` and `checkpoint` are
--     `_fire` and `_checkpoint`.
--   Runtime/Supervisor: runtime/supervisor.py; `advance` is one wait of `_supervise` or
--     `_restart_after_failure`.
--   Cognition/Goals: goals.py. Cognition/State: state.py. Cognition/Coordinator: coordinator.py.
--   Planning/Risk: risk.py. Planning/Acyclic and Planning/Validation: plan_validation.py with
--     `CandidatePlan.create` of planning.py; `check_task` is a round of the loop in `validate`.
--   Planning/Grants: PlanningRepository and GrantIssuer of planning.py; `end_grant` is `_end` and
--     `add_transition` is `_transition`.
--   Workflow/Graph: `_topological_order` of workflow.py. Counts, Loop, Release and Order hold the steps
--     of the proof, Correct the result.
--   Workflow/Validator: WorkflowValidator of workflow.py; `validate_shape` is `validate` up to the
--     graph, `add_nodes` its loop over the nodes, `validate_node` is `_validate_node`.
--   Workflow/Registry: WorkflowRegistry of workflow.py; `active_of` and `all_of` are `active` and `all`.
--   Workflow/Runs: workflow_runs.py; Workflows and Nodes are its two halves, over the tables
--     `workflow_run` and `node_run` with their logs.
--   Skills/Contract, Skills/Registry, Skills/Resolver: CapabilityRegistry, SkillRegistry and SkillResolver of
--     skills.py; `suits` and `eligible` are the tests of the loop in `resolve`, `before` compares its sort
--     keys.
--   Prelude: tests, lists, dictionaries, results, integers, sorting, the texts of instants and patterns on texts that the
--     others share.
--
-- Choices: instants and durations are whole microseconds, scores, priorities and costs whole
-- millionths, both as natural numbers; a signed value is an integer where its sign is tested. A backoff
-- multiplier is a fraction and a delay is rounded down; where the float power of the multiplier overflows,
-- the delay raises as in Python. Instants stay within the years of `datetime`. Dictionaries are association lists in
-- insertion order, and sets of texts are lists. The clock, identifiers, the serializer, the classifier
-- of errors, handlers and the calendar are inputs. `len` counts the bytes of a text in UTF-8 and `count` its
-- characters. Where the source compares or orders the texts of instants in SQL in the outbox and the
-- scheduler, so does `text_before` of Prelude/Instants. What runs between two waits of
-- a coroutine is one function; interleavings are sequences of steps, and a restart's backoff and the
-- call of `start` after it are one step. An attempt of the inbox is one transaction, in which the
-- clock stands still. A call of `consume` runs alone on its consumer's rows, also between its attempts, and a batch of the
-- relay alone on the outbox: another delivery of the same message, or an event that a subscriber appends,
-- comes before or after it. The runs of workflows use the transaction of their caller, which rolls back
-- when an operation raises. A workflow definition is read from its JSON into a record; the digest and the
-- parser of expressions are fields of the validator.
--
-- Bounds: the attempt loop of the inbox recurses on the rounds left, which `consume` sets to the
-- policy's limit less the failures recorded, as the source's range does. The `while` loop of
-- `_topological_order` recurses on one round for each node, since it takes a node in each round. `visit` of
-- `_assert_acyclic` takes a depth, one more than there are tasks, since no task is twice on the path. No
-- other loop needs fuel.
--
-- Not modelled: task cancellation, the shutdown timeout, log lines and reason texts, the storage
-- engine, schema validation, the evaluation of condition expressions, and the parts that are not named
-- above.
pub mod Prelude
pub mod Events
pub mod Scheduling
pub mod Runtime
pub mod Cognition
pub mod Planning
pub mod Workflow
pub mod Skills

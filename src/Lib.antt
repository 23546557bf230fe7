-- ===== src/Lib.antt =====
-- CloudShift: coriolis, which moves machines between clouds as executions of tasks that depend on
-- one another: its conductor, scheduler, schedules and the messages that carry the disks.
--
-- A tasks execution is a graph of tasks with statuses. The conductor
-- (coriolis/conductor/rpc/server.py) starts the tasks whose parents have finished on worker
-- services, takes the workers' reports, cancels executions, runs cleanup tasks after errors, and
-- derives the status of the execution. It also makes the executions: the tasks of a transfer or a
-- deployment, checked before the first one is started. For each task that it starts it asks the
-- scheduler (coriolis/scheduler) for a worker service; scheduled transfers are requested by the
-- jobs of coriolis/transfer_cron. The rows are kept in a database (coriolis/db/api.py, coriolis/db/sqlalchemy/models.py), the names of the
-- statuses and their groups in coriolis/constants.py.
--
-- The files, and the code that each models:
--   Prelude, Prelude/...: Boolean tests, lists and dictionaries over the native numbers.
--   Constants: coriolis/constants.py.
--   Conductor/Store: the rows of one execution, the calls of other services, what these answer.
--   Conductor/Effects: statements that write rows and may raise; the functions of db/api.py.
--   Conductor/Status: _get_execution_status, _set_tasks_execution_status,
--     _check_clean_execution_deadlock and the licensing reservation.
--   Conductor/Cancel: _cancel_tasks_execution.
--   Conductor/Advance: _advance_execution_state.
--   Conductor/Engine: the two functions above, which call each other.
--   Conductor/Results: _handle_post_task_actions and the merge of a result into the task info.
--   Conductor/Reports: set_task_host, set_task_process, task_completed, confirm_task_cancellation
--     and set_task_error.
--   Conductor/Launch: _begin_tasks.
--   Conductor/Minions: _update_task_info_for_minion_allocations, confirm_transfer_minions_allocation,
--     report_transfer_minions_allocation_error and their kin for deployments.
--   Conductor/Requests: cancel_transfer_tasks_execution, and series of requests.
--   Conductor/Diagram: the diagram of the statuses of a task, a step relation. Rows, Evolves, Runs,
--     Tracking, Quiet, Touches: what a statement may do to the rows. CancelRuns, StartRuns, LoopRuns,
--     AdvanceRuns, ResultRuns, ReportRuns, HandlerRuns, ErrorRuns, LaunchRuns, MinionRuns,
--     RequestRuns: that each function does no more.
--   Conductor/Life: series of requests. Conductor/Agreement, Stranding: the status after an
--     advancement. Verdict: _get_execution_status. Decisions: which tasks are started. Acceptance:
--     how a worker takes a task. Forcing, Deadlocks, Leaving: forced cancellations and the cleanup of deadlocks. MinionLaws, CancelLaws, InfoLaws,
--     Order: the machines of the minion manager, skipped cancellations, the task info, the order of
--     the tasks.
--   Construction/Fields: what the runners in coriolis/tasks require and return. Construction/Build:
--     _create_task. Transfer, Deployment, Updates: the tasks of execute_transfer_tasks,
--     _execute_deployment, delete_transfer_disks and update_transfer. Sanity:
--     _check_execution_tasks_sanity. Ordered, Graphs, Executions, Scheduled: the tasks that
--     are made. Outcomes, Rounds, SanityLaws, Readiness, OrderedLaws, Keys: the check.
--     TransferPasses, DeploymentPasses: the check on these tasks.
--   Scheduler/Filters: coriolis/scheduler/filters. Scheduler/Selection: coriolis/scheduler/rpc/server.py.
--     Scheduler/Client: get_worker_service_for_task of coriolis/scheduler/rpc/client.py.
--     Ranking, Ratings, Suitable, Retries: the scores, the services found, the attempts.
--   Cron/Jobs, Cron/Registry: coriolis/cron/cron.py and coriolis/transfer_cron/rpc/server.py.
--     Cron/Laws: when jobs run.
--   MinionManager/Pools, MinionManager/Allocation: the rows of pools, and
--     _make_minion_machine_allocation_subflow_for_action of coriolis/minion_manager/rpc/server.py, up
--     to its writes. Capacity, Selections: the machines chosen. MinionManager/Writes: the writes of
--     the choice and their undoing. Rows, Rollback: the rows that are left.
--   MinionManager/Refresh: refresh_minion_pool. Minimum: the machines that a refresh keeps.
--   MinionManager/Checks: validate_minion_pool_selections_for_action. Groups, Selected, Idle: the pools
--     of a validated action, and the machines that it gets. MinionManager/Assign:
--     _run_machine_allocation_subflow_for_action. Served, Mappings, Complete, Owned, Chosen,
--     Recorded, Steps, Permissions, Provided: the machines of the instances.
--     MinionManager/Release: deallocate_minion_machines_for_action. Released, Deallocated,
--     Returned: the rows after it. MinionManager/Recovery:
--     allocate_minion_machines_for_transfer and its kin, with
--     _cleanup_machines_with_statuses_for_action. Recovered: the rows after an error.
--   Deployer/Deployments, Deployer/Manager: coriolis/deployer_manager/rpc/server.py, with
--     _validate_deployment_inputs, confirm_deployer_completed and report_deployer_failure of the
--     conductor. Launches, Failures: when a deployment is launched, and what happens otherwise.
--   Transport/Bytes, Transport/Messages: coriolis/data_transfer.py. Transport/Receiver: how the
--     messages are to be read, an independent description. RoundTrip, Bounds: the messages.
--   Examples, Cases: tests.
--
-- A function of the source that writes rows or calls a service is a function from a store to a
-- result and a store. Each call of the database layer is a transaction of its own, so that an
-- exception keeps the writes made before it, and an object that is passed around is a copy of the
-- rows as they were read. The handlers hold the lock of their execution, so the model runs them one
-- after the other, in any order.
--
-- Calls of other services (the scheduler, workers, the minion manager, the licensing server,
-- keystone) are parameters: whether a call succeeds is a function of the number of calls made
-- before and of the call (World.succeeds), and the theorems hold for each such function. The calls
-- are recorded in the log of the store.
--
-- _advance_execution_state and _cancel_tasks_execution call each other when a task cannot be
-- started. The model bounds the depth by fuel, one more than the number of tasks; it is enough
-- because a task that was started is not scheduled again.
--
-- The code that makes tasks is a series of calls of _create_task, run on the list of the tasks made
-- so far; uuid.uuid4 is a parameter. The loop of the check has the number of tasks as fuel, enough
-- because each round that does not fail processes a task.
--
-- The rows that the scheduler reads, the answers of its remote calls, the clock, and the compression
-- of messages are parameters. The loop of attempts has the number of attempts as its fuel, as in
-- the source.
--
-- The database of the minion manager carries out an operation, or fails and leaves the rows as they
-- are: a function of the number of operations before decides. The deployer manager sees what the
-- conductor's calls leave; the statuses that its polls see are a parameter, and the number of polls
-- is that of the source. How a launch ends is a parameter too: before the execution is added, after
-- it, with the row as it is then, or without an error.
--
-- Identifiers, instances, hosts, names, moments, keys and values of the task info are numbers; 0 is
-- a value that Python reads as false. Left out: log lines, exception_details, the contents of remote
-- calls, the endpoints read for them, the columns and tables that the code modelled does not read,
-- threads and queues. Not modelled: the guards of the requests that make transfer executions, the rest
-- of the minion manager (creation, allocation and deallocation of pools, and the flows), the workers
-- and the runners of tasks, the providers and OS
-- morphing, the REST API, authentication and policies, the licensing client, commands and
-- configuration.
pub mod Conductor
pub mod Constants
pub mod Construction
pub mod Cron
pub mod Deployer
pub mod MinionManager
pub mod Prelude
pub mod Scheduler
pub mod Transport

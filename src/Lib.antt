-- ===== src/Lib.antt =====
-- netdeploy: verification of the core services of the network deployment automation.
--
-- The program deploys BGP and OSPF configurations to routers. A configuration (a JSON document)
-- is validated by core/validator.py, turned into commands of the device's vendor by
-- core/command_builder.py, and applied over SSH (core/ssh_handler.py) by core/orchestrator.py,
-- which saves snapshots before and after (core/snapshot_manager.py), verifies the state of the
-- device (core/state_verifier.py) and writes how it went into the database (api/models.py).
--
-- Where the code is modelled:
--   Base, Text, Value, Py   numbers and lists, texts as lists of code points, JSON values as
--                           Python holds them, and plain Python evaluation with exceptions
--   Ip                      what `ipaddress` parses
--   Commands                core/command_builder.py: CommandBuilder.build and build_rollback,
--                           with one child for each vendor (Xr, Ios, Junos, Arista)
--   Validator               core/validator.py: the rules (Rules), the sections (Sections) and
--                           ConfigValidator.validate
--   Db                      api/models.py: the rows that the services read and write
--   Proc, Gather            coroutines with the session and the device calls as effects,
--                           `await` and `asyncio.gather`
--   Ssh                     core/ssh_handler.py: SSHDevice
--   Verifier                core/state_verifier.py: StateVerifier and the parsers of output
--   Snapshots               core/snapshot_manager.py: SnapshotManager
--   Orchestrator            core/orchestrator.py: Records (database helpers), Device
--                           (_deploy_to_device, _health_check, _rollback_device) and the
--                           strategies (_deploy_canary, _deploy_rolling, _deploy_atomic, deploy)
--   Batches                 api/deployment_helpers.py: the rows of a new batch
--   Tasks                   tasks/deployment.py: validate_and_deploy_task with
--                           _finalize_batch_status; Validation is tasks/validation.py
--   Routes                  api/routes: Deployments and Views (deployments.py), Devices
--                           (devices.py) and Configs (configs.py), with the requests of
--                           api/schemas.py
--   ConfigSchemas           api/config_schemas.py: Fields (bounds and shared validators), Bgp and
--                           Ospf; Sound compares them with the rules of Validator
--   Git                     core/git_handler.py: GitConfigRepository
--   Routes.Table, Main      api/main.py and the decorators of api/routes: which handler a request
--                           is for, and the liveness check
--   Client                  dashboard/utils/api_client.py: NetDeployClient; Asks names its
--                           requests and the handlers that they are meant for
--   RateLimiter             api/middleware/rate_limiter.py: dispatch and the sliding window
--   Auth                    api/dependencies.py and api/routes/auth.py: tokens and logins
--
-- A request for a deployment (Routes.Deployments) creates a row for each device (Batches) and
-- enqueues a job for Celery; the task (Tasks) runs the strategy (Orchestrator), which works on the
-- rows, and then marks the rows that were not reached. Routes.Started joins these parts.
--
-- Proofs stand beside what they are about: Proc.Logic is a logic of coroutines that run beside
-- others, Proc.Offline and Gather.Offline are about coroutines without calls, Gather.Logic and
-- Gather.Ends about parallel tasks; Orchestrator.Rows, Outcome and Calm say what a deployment
-- does to the rows, for its own device and for the others; Proc.Stays and Proc.Total are about
-- coroutines that keep a property of the rows and about those that raise nothing, and
-- Orchestrator.Settled, Leaves, Total and Success apply them to the strategies. Tests has runs on
-- concrete inputs.
--
-- How it is modelled. A coroutine is a tree of reads, writes and awaited calls. Netmiko is a
-- parameter: a function from all that was sent before and the call to any text or exception.
-- Tasks under `asyncio.gather` run until their first call, and a schedule names the task whose
-- reply comes next; a schedule that leaves a task unfinished gives `none`. No fuel is used:
-- every loop of the source runs over a list. The clock, fresh ids, the settings and the hash of
-- a document are the record `Env`. An exception is a value of `Exn`.
--
-- A handler of the API ends with a reply or an `HTTPException`. Celery's `delay`, the pipeline of
-- Redis, the JWT library and passlib are parameters; what a theorem relies on of them are its
-- hypotheses (`Takes`, `SortedSets`, `JwtLaws`, `PasswordLaws`). GitPython, with the hypotheses
-- `Laws`, and `requests` are parameters too, and so is the order in which a list of rows comes from
-- the database (`Ordering`, `OrderingLaws`), which is free for rows of the same time.
--
-- What is left out: floating-point numbers in documents; the branches for a missing database
-- session and for malformed UUID texts; elapsed times and process logs; diff_snapshots, which
-- rests on json.dumps and difflib; failing database statements and foreign keys; the ids and
-- times of audit entries. Not modelled: metrics, the search of the audit log, the middleware of
-- FastAPI, the pages of the dashboard, the migrations and the scripts.
pub mod Base
pub mod Text
pub mod Value
pub mod Py
pub mod Ip
pub mod Git
pub mod Client
pub mod Commands
pub mod ConfigSchemas
pub mod Db
pub mod Proc
pub mod Ssh
pub mod Verifier
pub mod Gather
pub mod Snapshots
pub mod Orchestrator
pub mod Batches
pub mod Tasks
pub mod Routes
pub mod RateLimiter
pub mod Auth
pub mod Validator
mod Tests

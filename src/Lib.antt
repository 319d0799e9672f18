-- ===== src/Lib.antt =====
-- SchedulX expands, shrinks and deploys the clusters of a service. A template holds a group of
-- instructions; a task runs them in the background, one after the other: BridgX adds or removes
-- machines, the environment operations run commands on them over SSH, and the mount service puts them
-- behind a load balancer. The development models the services and repositories that do this, as
-- functions over an explicit state, and how their parts interact.
--
-- The parts and their files:
-- - service/schedulesvc.go: Schedule. Schedule/Start has expandAction, shrinkAction and deployAction
--   up to their goroutine; Schedule/Run has the goroutines with their deferred functions (`background`,
--   `background_deploy`), the loop over the instructions (`run_group`) and doInstr (`do_instr`, whose
--   switch is `carry`).
-- - service/instrsvc.go: Instr. Instr/Exec has ExecAct (`exec_act`, whose switch is `dispatch`) and the
--   records of instructions; Instr/Expand, Instr/Shrink, Instr/Node and Instr/Deploy have the actions;
--   Instr/Request has the request and the deferred functions that write the steps of a task.
-- - service/bridgxsvc.go: Bridgx, and service/noteactsvc.go: NodeAct. Their polling goroutine with the
--   `select`, and their loop over pages, are shared in Poll.
-- - service/envsvc.go, service/nodesvc.go, service/common.go and template: EnvOps and Shell.
--   EnvOps/Verdict is how the goroutine of one instance ends, EnvOps/Jobs the goroutines that nobody
--   waits for, EnvOps/Deploy those of a deployment, EnvOps/Scripts the texts of the commands.
-- - service/templatesvc.go, repository/instructionrepo.go and the `Create…Instr` functions of
--   service/instrsvc.go: Template. Template/Instructions has the rows of instructions, Template/Steps and
--   Template/Create the creation of templates, Template/Update and Template/Info the other actions, and
--   Template/Tables the transactions they run in.
-- - service/mountsvc.go: Mount. service/tasksvc.go: Tasks, with Tasks/Running and Tasks/Info.
-- - repository/taskrepo.go and repository/instancerepo.go: Repo/Tasks and Repo/Instances, over the
--   helpers of repository/model/db/base.go in Db. repository/scheduletemplaterepo.go: Repo/Templates
--   and Repo/Expands.
--   repository/servicerepo.go and `CreateService` of service/service.go: Repo/Services.
-- - pkg/tool/string.go: Tool/Bytes, where a text is its bytes, and Tool/Text, where it is its characters,
--   as in the other files. pkg/tool/int.go: Tool/Numbers. pkg/tool/aes.go: Tool/Aes.
-- - api/types, repository/model/db, pkg/nodeact and register/constant: Types.
--
-- A Go function is an `Exec` (Effect): it takes the state to an outcome and a state, where the outcome
-- is a value, an error, a panic or the end of the process. Deferred functions are `on_exit`, a
-- goroutine without recover is `goroutine`, and an error that is dropped is `ignore`. `World` is the
-- state: tables, the pending goroutines, and what lies outside. A nil pointer is `none`, and its
-- dereference is `panic`. Ids and counts are natural numbers; the strings of a family of constants are
-- a data type.
--
-- The database, the clients of BridgX and of the load balancer, SSH, the clock, JSON and the scheduler
-- of goroutines are not code of the repository: they are fields of `Env`. The laws of a table are
-- those of Db/Interface: a statement does what it says or fails and changes nothing; Db/Memory is a
-- table that meets them. Goroutines that nobody waits for run, whole, while another goroutine sleeps;
-- those of a deployment run one after the other in any order.
--
-- A transaction is `transaction`: after an error its tables are those from before, and after a return or a
-- panic what was written stays. A commit is taken to succeed.
--
-- Fuel: the polling loop has 110 rounds; a round pauses for 3 seconds at least and the loop ends after
-- 302 seconds or 3 errors. The loop over pages has `max_pages` rounds, since nothing in the code bounds
-- it: a service that keeps promising more instances than it sends is asked forever.
--
-- Not modelled: the HTTP handlers, the router and the clients, which are input and output; pkg/goph, a
-- copy of another project's library; logging and configuration; the integrations with Zadig; most lists
-- and counts that only the web pages show.
pub mod Prelude
pub mod Effect
pub mod Types
pub mod Db
pub mod Env
pub mod World
pub mod Tool
pub mod Repo
pub mod Shell
pub mod EnvOps
pub mod Poll
pub mod Bridgx
pub mod Tasks
pub mod Mount
pub mod NodeAct
pub mod Instr
pub mod Schedule
pub mod Template
pub mod Frame
pub mod Tests

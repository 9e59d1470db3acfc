-- ===== src/Lib.antt =====
-- ceph-mesos: a Mesos framework that runs a Ceph cluster.
--
-- The program. A scheduler (src/scheduler) takes resource offers from Mesos and launches MON, OSD and
-- RADOSGW nodes, phase by phase: one MON, then three OSDs, then a RADOSGW, then OSDs on request. A REST
-- server (src/httpserver) accepts requests for more OSDs and passes them through a message queue to the
-- scheduler's event loop. On each host a disk executor (src/executor) partitions the raw disks, and a
-- Ceph executor runs the nodes. What the scheduler knows is kept in a state machine (src/state); the
-- parts exchange messages of fields cut at dots and colons (src/common).
--
-- The files, and what they are about (paths are the repository's):
--   Prelude, Prelude/*       shared names, lists, texts as lists of bytes, whole numbers, tables
--   Common/World             what the program calls and does not implement: a parameter, `World`
--   Common/TaskType          src/common/TaskType.hpp, src/common/FrameworkMessage.hpp
--   Common/Config            src/common/Config.cpp; Config/Laws its theorems
--   Common/StringUtil        `explode` of src/common/StringUtil.hpp; StringUtil/Explode its theorems;
--                            StringUtil/Cidr `matchIPToCIDR`; StringUtil/Words the arguments between
--                            blanks
--   Common/JsonUtil          src/common/JsonUtil.hpp, over what jsoncpp does
--   Common/NetUtil, CurlHttp src/common/NetUtil.hpp and CurlHttp.cpp
--   State/TaskState          src/state/TaskState.hpp, Status.hpp, Phase.hpp
--   State/HostConfig         src/state/HostConfig.hpp; HostConfig/Partitions its theorems;
--                            HostConfig/Printing what is logged of a host
--   State/StateMachine       src/state/StateMachine.cpp, one function per method. Phases: all sequences
--                            of operations, `addConfig` included; Counting: the counters against the task map; Places: the
--                            three places of the OSD phase; Orders: other orders of the task map;
--                            Progress: when `nextMove` accepts
--   Scheduler/Driver         the Mesos messages, and the calls on the driver, which are logged
--   Scheduler/EventLoop      `processData`, `jsonCheck` and `fetchPendingRESTfulRequest`; Requests: the
--                            balance of requests; Queue: the message queue and `recvData`;
--                            Json: both handlers from the text on; Json/Requested, Json/Accepted what
--                            is proved of them
--   Scheduler/Agent          src/scheduler/CephSchedulerAgent.hpp: the state `Agent`; Launch: what is
--                            sent to Mesos; Offers: `resourceOffers`; Updates: `statusUpdate` and
--                            `frameworkMessage`; Runs: any sequence of callbacks; Survival: runs that
--                            end well; the other children prove what holds of them
--   Scheduler/Framework      src/scheduler/CephScheduler.cpp and main.cpp; Forwarding: the class against
--                            its agent; Startup: what the program starts with; Shutdown: how its
--                            threads end
--   HttpServer/FileServer    `file_request` of src/httpserver/FileServer.cpp; Serving, Shared: what it
--                            serves
--   HttpServer/RestServer    `rest_request` of src/httpserver/RestServer.cpp; Chunks: a request in parts
--   Executor/Shell, Disk     src/executor/DiskExecutor.cpp; Disk/Launch, Disk/Report its steps;
--                            Disk/Callbacks the callbacks of Mesos; Disk/Ranges, RoundTrip, Labels,
--                            Prepared, Failed, Lifecycle what is proved of them
--   Executor/Driver          the callbacks that Mesos makes on both executors, and their `main`
--   Executor/Waiting         `block_until_started` of src/executor/CephExecutor.cpp; Waiting/Endless and
--                            Waiting/Commands what is proved of it
--   Executor/Ceph            the state of src/executor/CephExecutor.hpp, shell commands and `fork`;
--                            Commands: the configuration directory and docker's commands; Start:
--                            `registered`, `launchTask`, `shutdown`; Message: `frameworkMessage`;
--                            Callbacks: any sequence of callbacks. The other children prove what
--                            holds of them, and of the scheduler together with them
--   Executor/System          the scheduler and the executors together
--   Examples                 a small concrete world, and each theorem on a concrete input
--
-- How the code is modelled. A method is a function from the object's state to its new state; a call on
-- the driver or a shell command is added to a log. A write through a pointer that `getConfig` returned
-- is `put_config`. A handler returns, lets an exception out, or reads a vector out of range (`Outcome`).
-- An `int` is a whole number: counters and indices move by one for each message or offer and do not
-- reach 2 ^ 31; parsed numbers are what `lexical_cast<int>` lets through. The unordered maps are
-- association lists in insertion order, one of the orders that C++ allows; State/StateMachine/Orders
-- is about the others. The event loop's thread acts between two callbacks of the scheduler, never inside
-- one; the source takes no lock. The number that no constructor sets, the journal count of the default
-- host, is a parameter. `explode` loops on fuel, the length of the text: each round takes at least one
-- byte off. `block_until_started` has a unit of fuel for each poll; its loop has no bound of its own. A
-- child process that the Ceph executor makes by `fork` is logged with its arguments and not followed.
--
-- Not modelled: the HTTP daemon, Mesos' driver, jsoncpp, curl and the resolver themselves, which are
-- parameters where the code asks them; the sleeping of the threads; destructors; and log lines.
pub mod Prelude
pub mod Common
pub mod State
pub mod Scheduler
pub mod Executor
pub mod HttpServer
pub mod Examples

-- ===== src/Lib.antt =====
-- The judge of TIOJ: verdicts, the sandbox's options, the graph of tasks and the loop that runs it.
--
-- The program takes submissions (`PushSubmission`), cuts each into tasks (compile, execute, score, sum
-- up) that depend on each other, and runs the tasks in sandbox processes, kMaxParallel at a time
-- (`WorkLoop`). Both work on one graph of tasks under one lock.
--
-- Base: operators and lemmas on lists, options, Booleans, integers and texts that the others share.
-- Word: `long` and `int` as integers, their bit patterns, the little-endian bytes of a pattern.
-- Verdict: `Verdict`, `Compiler` and their tables (include/tioj/submission.h, src/tioj/utils.cpp).
-- Sandbox: `SandboxOptions` (src/tioj/sandbox.h) as a record. Sandbox/Serial has `Serialize` and the
-- constructor from bytes (src/tioj/sandbox.cpp); a read past the end of the bytes, or a negative size,
-- is `none`. Sandbox/Pipe has `ReadFull` and `WriteFull` (src/tioj/sandbox_io.h) and the two ends of the
-- pipe (src/tioj/sandbox_exec.cpp, src/tioj/sandbox_main.cpp); a schedule says what each system call
-- does, and a schedule that is too short is `none`. The bytes of `long` are little-endian, 8 of them.
-- Graph: `TaskEntry`, `task_list`, `task_queue`, `InsertTaskList` and `Remove`
-- (src/tioj/submission.cpp). A map is a list of entries that is searched by id. `task_list[id]` on a
-- missing id, and a degree below 0, are `none`; Graph/Inv has the invariant under which neither occurs.
-- Loop: `FinalizeTask`, `DispatchTask`, `WaitTask` and the inner loop of `WorkLoop`, with the handles that
-- `RunTask` and `WaitAnyResult` (src/tioj/tasks.cpp) give, -1 among them, and the size of their pool of
-- users. The functions `Setup…` and `Finalize…` and the kernel are parameters; a missing entry of
-- `handle_map` and a user from an empty pool are `none`. The loop runs on fuel; more than two rounds for
-- each task are enough, since a task is taken from the queue once and ends once. Loop/Order is about
-- the choice of the priority queue, which is the first of the largest ids: the standard leaves open
-- which of several equal ones it is.
-- Submission: the records of include/tioj/submission.h. Order: the order of the testdata. Push: the
-- graph part of `PushSubmission`, as the list of the constructors, `Link`s and insertions that it
-- performs (Push/Plan) and their effect (Push); Push/Runs to Push/Finish follow the list with the
-- invariant.
-- Judge: the judge as a step relation: pushes, pops and waits in any order, with any answers to `RunTask`.
--
-- Handler: what the handlers of the tasks decide (src/tioj/submission.cpp), with the cancellation of
-- groups (`IsCancelled`) and `NormalizeScore`. Handler/Compile has `GetLang`, the check of `SetupCompile`
-- and the verdict of `FinalizeCompile`, Handler/Execute `SetupExecute` and `FinalizeExecute`,
-- Handler/Specjudge and Handler/Judges the readers of judges' answers, Handler/Scoring `SetupScoring` and
-- `FinalizeScoring`, Handler/Summary the verdict of `SetupSummary` and the scores of `FinalizeSummary`.
-- Files that are read with `>>`, JSON documents and `long double` are parameters: `Istream`, `JudgeDoc`,
-- `LongDouble`, with the laws that the proofs use in `IstreamLaws` and `LongDoubleLaws`. The loop of the
-- overrides runs on fuel; one more than the characters of the file is enough, since each round takes a
-- word. Sums of times and scores are exact: a `long` that overflows, which C++ leaves undefined, is left
-- out. Constants of signals and exit reasons are those of Linux.
--
-- Handler/Registry: the lists of submissions, `submission_list`, `submission_id_map` and the
-- cancellations: what `PushSubmission` checks and adds, and `FinalizeSummary` as a whole, with the document
-- of a custom summary as a parameter. Handler/Registry/Live makes pushes and ends steps.
-- Handler/Meta: the metadata that judges and custom summaries read; a JSON object is a record of its
-- fields, and the real time of an execution a parameter.
--
-- Scorer: the default judge (tools/default-scoring.cpp), `LineCompare` and `StrictCompare`, and in
-- Scorer/Words `WordCompare`, main's arguments and its choice of the comparison. A file is its bytes, and
-- `getline` gives one more line than there are line feeds. `StrictCompare` runs on fuel; one more than the
-- bytes of the answer is enough, since each round reads at least one. So does a line in `WordCompare`,
-- with one more than the bytes of the answer's line, since each round takes a word. `long double` and
-- `std::stold` are parameters.
--
-- Pool: the users and processors that src/tioj/tasks.cpp gives to tasks: `InitPools`, `RunTask`, `Wait` and
-- `WaitAnyResult`. A pool is a stack with its last element at the head; a user taken from an empty pool is
-- `none`. What `pipe`, `fork` and `select` answer are arguments.
--
-- Paths: the names of src/tioj/paths.cpp. A path is the list of its names from the root on, a name the list
-- of its characters; Paths/Files has the files in the boxes and those of src/paths.cpp. The decimal digits
-- of `std::to_string` run on the number as fuel, since each digit divides it by ten.
-- Command: the commands and limits of src/tioj/tasks.cpp, as `SandboxOptions`: Command/Words has the command
-- lines, Command/Execute `RunExecute`, and Command/Run the other three. The configuration, the environment,
-- the products with a `double`, the arguments that `wordexp` makes and the descriptors of files and pipes
-- are parameters.
--
-- Server: what src/server_io.cpp tells the server and reads from it. Server/Requests has the queues,
-- `PushRequest`, `CheckUniqueRequests`, `ResendBackupRequests` and the sending in `RequestLoop`; Server/Run
-- makes the threads steps, each one hold of a lock, in any order. Times of the steady clock are exact
-- nanoseconds. Server/Report has the requests and the objects they carry, Server/Base64 `OutputBase64`,
-- Server/Deal the reading of a submission in `DealOneSubmission` (with the frames of Server/Frames: a field
-- is what nlohmann's `get` answers) and Server/Testdata its update of the testdata, with the rows of
-- src/database.h; fetches, renames and links succeed there. The names of the files are those of the
-- testdata and positions.
--
-- Not modelled: the messages of compilers; the messages of the default judge; the connection to the server
-- and the statements of the database (src/); all input and output, and the libraries (cjail, JSON, HTTP,
-- SQLite).
pub mod Base
pub mod Command
pub mod Graph
pub mod Handler
pub mod Judge
pub mod Loop
pub mod Order
pub mod Paths
pub mod Pool
pub mod Push
pub mod Sandbox
pub mod Scorer
pub mod Server
pub mod Submission
pub mod Verdict
pub mod Word

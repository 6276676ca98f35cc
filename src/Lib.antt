-- ===== src/Lib.antt =====
-- KVFlow decides, for a request whose KV cache prefix sits on another worker, whether to wait for that
-- worker, to transfer the prefix, or to recompute it. The program's parts, and their models:
--
--   * Scheduler: internal/scheduler/scheduler.go. `Action` has the three constants and every other
--     string; `choose_lowest_ttft` is `ChooseLowestTTFT`, an error or the candidate it picks.
--   * CostModel: internal/costmodel/costmodel.go. `estimate` is `Estimate`, with its check
--     `is_refused` and the durations it adds up.
--   * Learner: the interface `Learner` of internal/simulator/simulator.go as a record, and the three
--     learners of internal/learner: Learner/Ewma (ewma.go), Learner/LastSample (lastsample.go) and
--     Learner/Line (line.go). A method that writes its receiver returns the new state.
--   * Simulator: internal/simulator/simulator.go. Simulator has the scenarios, `Decide`, `ActualTTFT`,
--     `Regret` and `record`; Simulator/Policy has `RunStatic`, `RunAdaptive` and `NoisyObserve`. A
--     run threads the learner, the noise of the reports and the probe counter. Simulator/Adaptation is
--     `AdaptationTimes` of internal/simulator/adaptation.go; Simulator/Workload has the workloads of
--     internal/simulator/workload.go, for which the random generator is a parameter.
--   * Controller: internal/controller/controller.go. `run` is `Run`: `turn` is one round of its loop
--     and `run_loop` the rounds in order. The wait, the clock, the context and the gRPC client are the
--     parameter `Env`: how each wait and each call ended, and whether the context had ended then.
--     Controller/Report is `WriteCSV` of internal/controller/csv.go, whose printing of numbers is a
--     parameter.
--   * Xfer: internal/xfer/xfer.go. A connection is the bytes that arrive on it, how they end, and which
--     writes on it fail, after how many of their bytes; `send` is `Send`, `serve` is `Serve`. `to_bytes`,
--     `take_exactly` and `discard` are the standard library's big-endian numbers, io.ReadFull and
--     io.CopyN. Xfer/Server is `ServeAll`: a list of events says which connections `Accept` returns and
--     which goroutine runs next, a round of `Serve` at a time.
--   * Worker: internal/worker/worker.go. `transfer` and `close` are steps on the map of connections; the
--     lock makes a call one step. A `Call` says what the context, the dialer and the send did.
--   * XferCsv: internal/xfercsv/xfercsv.go. `parse` is `Parse` on the records that encoding/csv splits
--     the text into; reading a field as a number is a parameter.
--   * NetTrace: internal/nettrace/nettrace.go. `from_rows` is `FromRows`; the methods of a `Trace` are
--     functions of it. `search` is the loop of sort.Search.
--   * LoadSim: internal/loadsim/loadsim.go. `load_fixed`, `load_oracle`, `load_chunked` and `load_cake`
--     are the `Load` methods; `load_chunked` returns the new state of its receiver too. The methods `Name`
--     are `name` of KvLoadSim/Policies.
--   * KvXfer: cmd/kvxfer/main.go. `KvXfer.run` is `run`, with the dials, the sends and the clock as the
--     parameter `Link`; `output` is what it prints, as records of fields. KvXfer/Modes is `main`.
--   * KvReplay: cmd/kvreplay/main.go. `new_learners` is the set up of `main`; `replay` is `replay`.
--     KvReplay/Table is `write`, on lines of fields, and `main`.
--   * KvFit: cmd/kvfit/main.go. `errors_by_size`, `filter` and `fit` are the functions of those names;
--     KvFit/Sections is `main`.
--   * KvLoadSim: cmd/kvloadsim/main.go. `load`, `starts` and `times` are the loops of `main`; KvLoadSim/Policies
--     is `newPolicies`; KvLoadSim/Table is `write`, `quantile`, `sumOf` and `main`.
--   * KvBench: cmd/kvbench/main.go. `mean_regret_ms`, `mean_adaptation` and `mean_transfer_error_ms` are
--     the functions of those names, with a run of a policy as a parameter. KvBench/Setup has the constants,
--     the scenarios, the workloads and the policies, for which math/rand/v2 is the parameter `Rand`;
--     KvBench/Tables has the three tables of `main`.
--   * KvControl: cmd/kvcontrol/main.go. `main` runs from the parsed flags to the rows for the csv writer,
--     in a `World` that has the gRPC client, standard output, errors.Is and the controller's `Env`.
--   * KvWorker: cmd/kvworker/main.go. `main` goes from the parsed flags to the worker that gRPC serves;
--     `split` is strings.Split by a comma.
--
-- The cost model feeds the scheduler. The simulator and the controller both ask the learner for a
-- belief, the cost model for estimates of it, and the scheduler for a choice; then they tell the
-- learner how long the executed transfer took. The controller's calls reach a worker, which sends by
-- `Send` to a peer that runs `Serve`; Worker/Control puts the controller and the worker together.
-- kvxfer's transfers go to such a peer; its output, read by XferCsv, is replayed to the learners by
-- KvReplay and becomes, by NetTrace, the network on which LoadSim's loaders send and learn.
--
-- Prelude has the shared names, tests and list lemmas, and Go's `(value, error)` results. Int has
-- the integers; `add64` and `sub64` wrap around as Go's `int64` and `time.Duration` do. A
-- `float64` is the parameter F, with the operations the code calls as the interface `Float64` and
-- the facts of IEEE 754 arithmetic that the proofs use as the record `IsIeee`; each operation
-- rounds by itself, so fused multiply-add, which Go allows on some machines, is not modelled.
-- Whole has the integers as an instance that meets the facts, and those of the record `IsExact` on
-- whole numbers, for the modules Examples and those named after runs, which run the code; some of
-- these divide with the fraction rounded up, so that small beliefs stay positive. Loops are
-- structural recursion over the scenarios or on a count; `Serve` and the chunks of `Send` have
-- fuel, a round for each byte, and it is proved to be enough. `Flapping` has a round for each
-- request and one more, also proved to be enough where its sums do not wrap around. The search of
-- a trace has a round for each segment, of which it needs at most so many. `Cake`, the starts of
-- kvloadsim and the rounds of kvxfer, which end only where their tests do, are cut after a number
-- of rounds that the theorems on them relate to those tests. Counters that go up by one from 0 are
-- natural numbers. The bound 2 ^ 53 nanoseconds, 104 days, is where floats hold every integer; six
-- durations of that length add up within an `int64`.
--
-- The commands' `main` functions take what the flag package, the csv reader, sockets, clocks and
-- random generators give them as arguments, and end in a value: the lines or numbers printed, the
-- error of `log.Fatal`, or a panic. math.Ceil in kvloadsim is a parameter with what
-- `HasRanks` says.
--
-- Not modelled: the parsing of flags, the quoting of csv fields, how fmt prints a number, the titles
-- over tables and the alignment of their columns, and the log lines of the commands apart from
-- errors. None of these changes a value that the program computes. internal/workerpb is generated.
pub mod Prelude
pub mod Int
pub mod Float64
pub mod Scheduler
pub mod CostModel
pub mod Learner
pub mod Simulator
pub mod Controller
pub mod Xfer
pub mod XferCsv
pub mod NetTrace
pub mod LoadSim
pub mod Worker
pub mod KvWorker
pub mod KvXfer
pub mod KvReplay
pub mod KvControl
pub mod KvFit
pub mod KvLoadSim
pub mod KvBench
pub mod ChangeRuns
pub mod Examples
pub mod KvBenchRuns
pub mod KvControlRuns
pub mod KvReplayRuns
pub mod KvLoadSimRuns
pub mod KvFitRuns
pub mod KvXferRuns
pub mod LiveRuns
pub mod Runs
pub mod TraceRuns
pub mod Whole
pub mod WorkerRuns
pub mod WorkloadRuns
pub mod XferRuns

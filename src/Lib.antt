-- ===== src/Lib.antt =====
-- Phoenix (Peacock): training of topic models by Gibbs sampling. The development models the
-- repository's core and the services that distribute a training job.
--
-- The histograms (core/hist) count topics. They stand behind one interface: Dense is an array of
-- int64, Sparse a map from int32 to int32, OrderedSparse two parallel arrays kept in the descending
-- order of the counts. A document (core/gibbs/document.go) has words, the topic of each word and the
-- histogram of these topics; the model has one histogram per word, sparse or dense, and a global one.
-- The sampler takes a word out of the histograms, draws a new topic from three buckets, and puts it
-- back. The optimizer collects statistics of the documents. The sharder splits a slice of histograms
-- into buckets for the aggregators. In srv the master gives tasks, groups of corpus files, to squads:
-- a coordinator registers its loaders and samplers, asks the master for a task and reports it done.
-- A loader initializes the documents of a file and sends their counts to the aggregators. The trainers
-- of cmd do all of this on one machine: they load a corpus, sample it for a number of iterations, with
-- one sampler or one per shard, and evaluate the model. The interpreter finds the topics of a text.
--
-- Files, and the code each is about:
--   Hist/Dense, Hist/Sparse, Hist/Ordered: core/hist/dense_histogram.go, sparse_histogram.go and
--     ordered_sparse_histogram.go, one function per method (At is `at`, Inc is `inc`, and so on), with
--     the loops of a method as functions beside it. Hist/Interface: core/hist/histogram.go, the
--     interface as a sum. Hist/Convert: Assign and AddDiff. Hist/Visit: the loop of ForEach.
--   Gibbs/Document, Gibbs/Sharder, Gibbs/Vocab, Gibbs/Model, Gibbs/Sampler, Gibbs/Sampler/Step,
--     Gibbs/Optimizer, Gibbs/Evaluator and Gibbs/Interpreter: the file of core/gibbs with that name.
--     Gibbs/Accessor: core/gibbs/model_accessor.go. The cache distCache stands in Gibbs/Evaluator.
--     Gibbs/Accessor/Heap and Select: its minHeap, and the words that it takes from container/heap.
--   Srv/Config: srv/config.go. Srv/Task and Srv/Connect: srv/common.go, the tasks and the
--     connections. Srv/Process: srv/proc_mgnt.go. Srv/Master/Iterations and Srv/Master/Queue:
--     srv/master_service.go, first the tasks of an iteration, then the calls. Srv/Coordinator,
--     Srv/Aggregator, Srv/Loader and Srv/Sampler: the service of srv with that name.
--   Utils/Corpus and Utils/Translation: core/utils/io.go. Utils/Describe: core/utils/desc_topics.go
--     and the answer of cmd/interpreter/interpreter.go. Utils/Progress: core/utils/utils.go and the
--     points of cmd/plot/plot.go.
--   Train/Single, Train/Multi: the loops of cmd/singlethread and cmd/multithread. Train/Multi/Races,
--     Stride and Shard: the goroutines of the latter, and the memory that each uses.
--   A file Laws, and the other children of a module, hold its theorems (Srv/Config/Search and
--     Srv/Config/Squads the lemmas behind them): Hist/Refine the abstract histogram,
--     Gibbs/Document/Apply and Gibbs/Model/Counts the counts of a model, Gibbs/Sampler/Counts,
--     Range and Consistency the sampler's, Gibbs/Sharder/Layout and Contents the buckets',
--     Train/Documents and Train/Shards the trainers'.
--   Prelude, Map: shared lemmas, integers, machine integers, Go's maps as association lists.
--   Runtime, Float64, Srv/World: what the code relies on and this repository does not contain, as
--     parameters. Examples: the theorems at concrete inputs.
--
-- Conventions. A call returns, panics or ends the process (`Run`). An `int` is an integer; int32,
-- int64 and an `int` that sums up the lengths of documents keep their wrap-around, and the
-- conversions are written out where the code has them. A method
-- that changes its receiver returns it. Errors are values without their texts. The order in which
-- `range` visits a map is a parameter that gives each entry once. float64 is a type with operations of
-- which nothing is assumed. Loops are structural recursion on a list or on the number of rounds left.
-- The loop that empties a heap has as many rounds as the heap has elements. The endless loop of a
-- coordinator is given for a number of rounds, and a trainer is told before which iterations a signal
-- came. The calls that parallel.For makes act on a state that they share. Train/Multi/Races has what is
-- assumed of it: calls without a data race take effect in some order, as Go's memory model has it, and
-- calls with one may do anything; that the calls which sample have none is proved. A call of the
-- master runs under its mutex and is one step (RegisterAggregator holds another mutex than the other
-- two and is a step too); the outside state is arbitrary at each step.
--
-- Not modelled: JSON and gob coding, files and decompression, printing, plotting, flags, the HTTP and
-- RPC servers, the wait of a service for its end, the segmenter, and the commands that only read flags
-- and call the packages (master, coordinator, loader, sampler, aggregator, inspect, print_model).
pub mod Prelude
pub mod Map
pub mod Runtime
pub mod Float64
pub mod Hist
pub mod Gibbs
pub mod Srv
pub mod Utils
pub mod Train
pub mod Examples

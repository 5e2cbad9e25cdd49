-- ===== src/Lib.antt =====
-- Cascade: a search engine in three stages (a C++ inverted index, Python serving, indexing and ranking).
-- This library models the Python packages under py/. Everything below it is a parameter: the C++ index and its
-- binaries are the interface of Nrt/Engine.antt, with the contract `IsExact` where a theorem needs one.
--
-- The parts and their files:
--
-- - Prelude: lists, tests, keys and permutations that the parts share. Sort: Python's stable `sorted`.
-- - Nrt: py/nrt, near-real-time indexing. Segment is segment.py (`build_segment`, `SegmentSet.search`), MergePolicy
--   is merge_policy.py, Index is index.py (`NrtIndex`: `add`, `flush`, `delete`, `close`, `search`), and Merge is
--   `_run_merge`. Files is the disk that the write side keeps its source texts on, Tsv the text it writes, Newlines what
--   `read_text` makes of its line ends.
--   `NrtIndex` is the object's state with the disk, the queue of the merge pool and the place of its one thread
--   beside it. A method that holds the lock is one step; `_run_merge` is three pieces, since other threads can
--   come before it takes the lock and after it lets it go. `Event` and `run` are the interleavings, all of
--   them. Whether a build succeeds and what the clock shows are the environment's choice in each event.
--   Lag is lag_experiment.py: the slice of the corpus, the probe of a document and the drain of what is not yet
--   searchable. Lag.Threshold is `run_threshold`, the stream of documents through the index: its environment is a
--   Turn for each document and a Tail, which hold the clock, what the merge thread does between two steps of the stream,
--   and the passes that a drain has before its deadline. Within a pass the merge thread stands still.
-- - Server: py/server. Broker is broker.py (`Broker.dispatch`, and `HedgedBroker.dispatch` with its race as the
--   environment's choice), Shards is the loop of `build_shards` in build_shards.py, Partition is
--   partition_corpus.py on the corpus as a list of lines, Cluster is `ServerProcess` of process.py and
--   `ShardCluster` of shard_cluster.py on a list of running processes.
-- - Rank: py/rank. Batcher is batcher.py, Batched is `_run_batched_open_loop` of crossencoder_harness.py: the
--   dispatching threads and the flusher thread as steps on one state.
-- - Rank.Candidates is encode_candidates.py: the candidates' ids and their texts from one pass over the corpus.
-- - Harness: py/harness. Runs is runfile.py with the truncation of py/rank/encode_candidates.py, a file being the list
--   of its rows after `split()` (a row's fields have no white space, and a printed score is read back as it was).
--   Metrics is metrics.py, the rank of MRR and the numbers of recall's division kept as such; Evaluate, its NDCG and
--   `evaluate`, on given operations of floats. Latency is histogram.py; `Doubles` is what it and
--   loadgen.py compute in doubles, and `IsExact` says up to how many samples the rank is the exact one.
-- - Dense: py/dense. Fusion is fusion.py (`fuse_run` and its two methods), the arithmetic of scores being given with
--   the laws of `IsRounded`. Subset is subset.py, with numpy's calls and their promises `IsNumpy`. Sweep is the two
--   sweeps of ann_sweep.py and `exact_search` of ground_truth.py, what the indexes answer being given.
-- - Harness.Loadgen is loadgen.py: the arrivals on the draws of the generator, with a bound on the rounds of the loop
--   (the theorem says when it is enough), the sampler, and the accounts of the records that the workers leave.
-- - Rank.CrossEncoder is `CrossEncoderSession.score`, the session's answer to a chunk being given. Rank.Discipline is
--   `run_queue_discipline` on top of Batched and Loadgen. Rank.Prerank is prerank_features.py, prerank_mlp.py but for
--   the training of the network, and prerank_consistency.py. Rank.Cascade is kaggle/phase4_driver.py: the cascade
--   of the pre-ranker and the cross-encoder over the query sets, with its evaluation. The looks into dictionaries
--   may fail there, and a failed assertion, like an exception, is `none`.
-- - Server.Measure is `measure` of cache_sensitivity.py and of throughput_knee.py: a load on a server with a cache. The
--   workers go on in pieces, in any order, with the read and the write of a counter apart: no lock keeps them together.
--
-- Numbers: counts and clock readings are natural numbers. Scores are any type with a total preorder, which floats
-- without NaN have. Where the source's loop has no bound of its own, that is the arrivals of a load and the chunks of
-- a scoring, the function takes a number of rounds, and its theorem says how many are enough. All other functions are
-- total by structural recursion.
--
-- Not modelled: the C++ index, searcher and server, which the interface of Nrt/Engine.antt stands for; the drivers of
-- the external engines and the reports (py/baselines, the report files), which parse arguments, draw and print; the
-- training of the network, the encoder and the ONNX sessions, which are third-party; and what the threads of a pool
-- and the clock do, which is given to a function as a list of what happens.
pub mod Prelude
pub mod Sort
pub mod Nrt
pub mod Server
pub mod Rank
pub mod Dense
pub mod Harness

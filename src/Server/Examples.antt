-- ===== src/Server/Examples.antt =====
-- The server side on small inputs: two shards, five lines, two servers of which one is late.
pub mod Measured
use Prim.Native.String.{String}
use cascade_search_engine.Prelude.{
  ℕ, ◌+◌, ◌/◌, ◌≤◌, true, false, none, some, List, [], ◌∷◌, map, ◌≡◌, ◌⊎◌, refl, arith, suc, take,
  length, concat, count_if, any, All,
}
use cascade_search_engine.Prelude.Keys.{nat_order, nat_eq}
use cascade_search_engine.Sort.{sort, descending}
use cascade_search_engine.Nrt.Tsv.{join}
use cascade_search_engine.Server.Broker.{
  ShardResult, Client, dispatch, HedgedCall, Counters, hedged_dispatch,
}
use cascade_search_engine.Server.Broker.Top.{
  ExactShard, labelled, rankings, dispatch-eq-top, is_exception, dispatch-raises,
}
use cascade_search_engine.Server.Broker.Hedging.{is_late, hedged_dispatch-eq}
use cascade_search_engine.Server.Partition.{ShardFiles, shard_lines, partition, all_exist}
use cascade_search_engine.Server.Partition.Sizes.{shard_lines-even}
use cascade_search_engine.Server.Partition.Written.{contents, partition-files}
use cascade_search_engine.Server.Shards.{
  Shard, IndexDir, absent, complete, succeeds, fails_before_terms, build_shards,
}
use cascade_search_engine.Server.Shards.Resume.{AreRight, after_run, build_shards-resume}
use cascade_search_engine.Server.Cluster.{
  ready, timed_out, ServerProcess, cluster_enter, cluster_exit,
}
use cascade_search_engine.Server.Cluster.Processes.{fails, cluster_enter-balanced}

abbrev result : ℕ → ℕ → ShardResult ℕ
result docid score = record { docid = docid; score = score }

abbrev first_results : List (ShardResult ℕ)
first_results = result 4 9 ∷ result 2 3 ∷ []

abbrev second_results : List (ShardResult ℕ)
second_results = result 7 5 ∷ result 1 5 ∷ []

abbrev shards : List (ExactShard ℕ)
shards =
    record {
      client = λ query k. some (take k first_results);
      ranking = λ query. first_results;
      answers = λ query k. refl;
      ranked = λ query. ((refl, tt), (tt, tt));
    }
    ∷ record {
      client = λ query k. some (take k second_results);
      ranking = λ query. second_results;
      answers = λ query k. refl;
      ranked = λ query. ((refl, tt), (tt, tt));
    }
    ∷ []

dispatch-eq-top_example :
    dispatch (map (λ s. s.client) shards) "q" 2
    ≡ some (take 2 (sort (descending (λ r. r.score)) (concat (labelled 0 (rankings shards "q")))))
dispatch-eq-top_example = dispatch-eq-top shards "q" 2

abbrev clients : List (Client ℕ)
clients = (λ query k. some (take k first_results)) ∷ (λ query k. none) ∷ []

dispatch-raises_example :
    is_exception (dispatch clients "q" 2) ≡ any (λ client. is_exception (client "q" 2)) clients
dispatch-raises_example = dispatch-raises clients "q" 2

abbrev calls : List (HedgedCall ℕ)
calls =
    record {
      client = λ query k. some (take k first_results);
      replica_client = λ query k. some (take k first_results);
      race = record { late = true; backup_first = true };
    }
    ∷ record {
      client = λ query k. some (take k second_results);
      replica_client = λ query k. some (take k second_results);
      race = record { late = false; backup_first = false };
    }
    ∷ []

abbrev counters : Counters
counters = record { backup_calls_sent = 3; total_shard_calls = 40 }

hedged_dispatch-eq_example :
    (hedged_dispatch calls "q" 2 counters ≡ (
      dispatch (map (λ call. call.client) calls) "q" 2,
      record {
        backup_calls_sent = 3 + count_if is_late calls;
        total_shard_calls = 40 + length calls;
      },
    ))
    × (count_if is_late calls ≤ length calls)
hedged_dispatch-eq_example = hedged_dispatch-eq calls "q" 2 counters (refl, (refl, tt))

abbrev corpus : List String
corpus = "0\ta\n" ∷ "1\tb\n" ∷ "2\tc\n" ∷ "3\td\n" ∷ "4\te\n" ∷ []

shard_lines-even_example :
    (length (shard_lines 3 corpus) ≡ 3)
    × (concat (shard_lines 3 corpus) ≡ corpus)
    × All
        (λ shard. (length corpus / 3 ≤ length shard) × (length shard ≤ suc (length corpus / 3)))
        (shard_lines 3 corpus)
shard_lines-even_example = shard_lines-even 3 corpus (omega arith)

abbrev no_files : ShardFiles
no_files i = none

partition-files_example :
    (texts : List String) × (contents 3 0 (partition 3 corpus no_files) ≡ map some texts)
    × (join texts ≡ join corpus)
    × (partition 3 [] (partition 3 corpus no_files) ≡ partition 3 corpus no_files)
unfolding all_exist
partition-files_example = partition-files 3 corpus [] no_files (omega arith) refl

abbrev servers : List ServerProcess
servers =
    record { process = 11; startup = ready } ∷ record { process = 12; startup = timed_out } ∷ []

cluster_enter-balanced_example :
    ((any (λ s. fails s.startup) servers ≡ true)
      × (cluster_enter servers (5 ∷ []) ≡ (none, 5 ∷ [])))
    ⊎ ((any (λ s. fails s.startup) servers ≡ false)
        × (now : List ℕ) × (cluster_enter servers (5 ∷ []) ≡ (some servers, now))
        × (cluster_exit servers now ≡ 5 ∷ []))
cluster_enter-balanced_example =
    cluster_enter-balanced servers (5 ∷ []) (omega arith) (refl, (refl, tt)) (refl, (refl, tt))
      ((λ e. cc), ((λ e. cc), tt))

abbrev three_shards : List Shard
three_shards =
    record { tsv = "a"; index_dir = complete "a"; outcome = succeeds }
    ∷ record { tsv = "b"; index_dir = absent; outcome = fails_before_terms }
    ∷ record { tsv = "c"; index_dir = absent; outcome = succeeds }
    ∷ []

build_shards-resume_example :
    (dirs : List IndexDir) × (build_shards (after_run three_shards (build_shards three_shards).1)
      ≡ (true, dirs))
    × AreRight three_shards dirs
build_shards-resume_example = build_shards-resume three_shards

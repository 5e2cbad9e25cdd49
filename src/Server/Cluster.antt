-- ===== src/Server/Cluster.antt =====
-- py/server/process.py and py/server/shard_cluster.py: the server processes of a cluster.
pub mod Processes
use cascade_search_engine.Prelude.{
  ℕ, suc, Bool, true, false, not, Option, none, some, List, [], ◌∷◌, ◌++◌, map, keep_if,
  if◌then◌else◌,
}
use cascade_search_engine.Prelude.Keys.{Eq, nat_eq, ◌==◌}

-- How starting a server goes: `Popen` raises; the process runs and becomes ready; it runs and is not ready
-- in time (`FutureTimeoutError`); or the wait for it ends with another exception.
pub data Startup : Type 0 where
  no_process ready timed_out wait_raised : Startup

-- A `ServerProcess`: the process it will start, and how that goes.
pub record ServerProcess : Type 0 where
  pub process : ℕ
  pub startup : Startup

-- `ServerProcess.__exit__` with a process: it is terminated, or killed, and waited for.
unfoldable pub server_exit : ServerProcess → List ℕ → List ℕ
server_exit server running = keep_if (λ p. not (server.process == p)) running

-- `ServerProcess.__enter__`, on the list of running processes. It tells whether it returned.
unfoldable pub server_enter : Startup → ServerProcess → List ℕ → Bool × List ℕ
unfolding server_exit
server_enter no_process server running = (false, running)
server_enter ready server running = (true, server.process ∷ running)
server_enter timed_out server running = (false, server_exit server (server.process ∷ running))
server_enter wait_raised server running = (false, server.process ∷ running)

-- The servers' starts, and what is in `started` after them; `failed` tells whether one raised.
pub record Started : Type 0 where
  pub started : List ServerProcess
  pub failed : Bool
  pub running : List ℕ

unfoldable pub start_one : ServerProcess → Started → Started
unfolding server_enter
start_one server s =
    let (returned, running) = server_enter server.startup server s.running in
    record {
      started = if returned then s.started ++ server ∷ [] else s.started;
      failed = if returned then s.failed else true;
      running = running;
    }

unfoldable pub start_all : List ServerProcess → Started → Started
unfolding start_one
start_all [] s = s
start_all (server ∷ servers) s = start_all servers (start_one server s)

unfoldable pub exit_all : List ServerProcess → List ℕ → List ℕ
unfolding server_exit
exit_all [] running = running
exit_all (server ∷ servers) running = exit_all servers (server_exit server running)

-- `ShardCluster.__enter__`, the server binary being there: the cluster's servers, or `none` where it raises,
-- and what runs then. A pool of no threads is refused.
unfoldable pub cluster_enter : List ServerProcess → List ℕ → Option (List ServerProcess) × List ℕ
unfolding start_all exit_all
cluster_enter [] running = (none, running)
cluster_enter (server ∷ servers) running =
    let s =
      start_all (server ∷ servers) (record { started = []; failed = false; running = running }) in
    if s.failed then (none, exit_all s.started s.running) else (some s.started, s.running)

-- `ShardCluster.__exit__`
unfoldable pub cluster_exit : List ServerProcess → List ℕ → List ℕ
unfolding exit_all
cluster_exit servers running = exit_all servers running

-- ===== src/Server/Cluster/Processes.antt =====
-- A cluster that does not start, or is left, leaves no process behind.
use cascade_search_engine.Prelude.{
  ℕ, Bool, true, false, not, ◌||◌, none, some, List, [], ◌∷◌, ◌++◌, map, append-nil, append_assoc,
  map-append, ◌≡◌, ◌≢◌, refl, sym, ap, ◌∙◌, ◌⊎◌, inl, inr, arith, ◌≤◌, length, keep_if, All,
  All-imp, Bool-cases, any,
}
use cascade_search_engine.Prelude.Keys.{nat_eq, ◌==◌, is_in, Distinct, beq_refl}
use cascade_search_engine.Prelude.Perms.{is_in-append, beq_comm}
use cascade_search_engine.Server.Cluster.{
  Startup, no_process, ready, timed_out, wait_raised, ServerProcess, server_exit, server_enter,
  Started, start_one, start_all, exit_all, cluster_enter, cluster_exit,
}

-- the start raises
abbrev pub fails : Startup → Bool
fails ready = false
fails _ = true

-- the start ends as `__enter__` expects
abbrev pub IsExpected : ServerProcess → Type 0
IsExpected server = server.startup ≢ wait_raised

abbrev pub processes : List ServerProcess → List ℕ
processes = map (λ s. s.process)

keep_out :
    (p : ℕ) (running : List ℕ)
    → is_in p running ≡ false
    → keep_if (λ q. not (p == q)) running ≡ running
keep_out p [] h = refl
keep_out p (q ∷ running) h = ground (arith, beq_comm p q, keep_out p running)

exit_started :
    (server : ServerProcess) (running : List ℕ)
    → is_in server.process running ≡ false
    → server_exit server (server.process ∷ running) ≡ running
unfolding server_exit
exit_started server running h = rw (beq_refl server.process) (keep_out server.process running h)

exit_all-append :
    (xs ys : List ServerProcess) (running : List ℕ)
    → exit_all (xs ++ ys) running ≡ exit_all ys (exit_all xs running)
unfolding exit_all
exit_all-append [] ys running = refl
exit_all-append (x ∷ xs) ys running = exit_all-append xs ys (server_exit x running)

exit_all_other :
    (p : ℕ) (servers : List ServerProcess) (running : List ℕ)
    → is_in p (processes servers) ≡ false
    → exit_all servers (p ∷ running) ≡ p ∷ exit_all servers running
unfolding exit_all server_exit
exit_all_other p [] running h = refl
exit_all_other p (s ∷ servers) running h = elim (Bool-cases (s.process == p)) [
  | inl e ↦ absurd (ground arith)
  | inr e ↦ rw e (exit_all_other p servers (server_exit s running) (ground arith))
]

-- A process started after the others and stopped after them leaves what they leave.
exit_last :
    (started : List ServerProcess) (server : ServerProcess) (running : List ℕ)
    → is_in server.process (processes started) ≡ false
    → is_in server.process (exit_all started running) ≡ false
    → exit_all (started ++ server ∷ []) (server.process ∷ running) ≡ exit_all started running
unfolding exit_all
exit_last started server running h k =
    exit_all-append started (server ∷ []) (server.process ∷ running)
    ∙ ap (server_exit server) (exit_all_other server.process started running h)
    ∙ exit_started server (exit_all started running) k

-- A process that no list of the state holds.
record IsFresh (base : List ℕ) (s : Started) (server : ServerProcess) : Type 0 where
  not_running : is_in server.process s.running ≡ false
  not_started : is_in server.process (processes s.started) ≡ false
  not_before : is_in server.process base ≡ false

abbrev pushed : ServerProcess → Started → Started
pushed server s = record {
  started = s.started ++ server ∷ [];
  failed = s.failed;
  running = server.process ∷ s.running;
}

IsFresh-pushed :
    (base : List ℕ) (server : ServerProcess) (s : Started) (others : List ServerProcess)
    → is_in server.process (processes others) ≡ false
    → All (IsFresh base s) others
    → All (IsFresh base (pushed server s)) others
IsFresh-pushed base server s [] h f = tt
IsFresh-pushed base server s (x ∷ others) h f = (
  record {
    not_running = ground (arith, f.0.not_running, beq_comm x.process server.process);
    not_started =
        ap (is_in x.process) (map-append (λ (t : ServerProcess). t.process) s.started (server ∷ []))
        ∙ is_in-append x.process (processes s.started) (server.process ∷ [])
        ∙ ground (arith, f.0.not_started, beq_comm x.process server.process);
    not_before = f.0.not_before;
  },
  IsFresh-pushed base server s others (ground arith) f.1,
)

abbrev failed_start : Started → Started
failed_start s = record s { failed = true }

start_one_at :
    (startup : Startup) (server : ServerProcess) (s : Started)
    → startup ≢ wait_raised
    → is_in server.process s.running ≡ false
    → ((fails startup ≡ false)
        × (server_enter startup server s.running ≡ (true, server.process ∷ s.running)))
      ⊎ ((fails startup ≡ true) × (server_enter startup server s.running ≡ (false, s.running)))
unfolding server_enter
start_one_at no_process server s h f = inr (refl, refl)
start_one_at ready server s h f = inl (refl, refl)
start_one_at timed_out server s h f =
    inr (refl, ap (λ r. (false, r)) (exit_started server s.running f))
start_one_at wait_raised server s h f = absurd (h refl)

start_one_cases :
    (server : ServerProcess) (s : Started)
    → IsExpected server
    → is_in server.process s.running ≡ false
    → ((fails server.startup ≡ false) × (start_one server s ≡ pushed server s))
      ⊎ ((fails server.startup ≡ true) × (start_one server s ≡ failed_start s))
unfolding start_one
start_one_cases server s h f = elim (start_one_at server.startup server s h f) [
  | inl (ok, e) ↦ inl (ok, rw e refl)
  | inr (bad, e) ↦ inr (bad, rw e refl)
]

IsFresh-failed :
    (base : List ℕ) (s : Started) (others : List ServerProcess)
    → All (IsFresh base s) others
    → All (IsFresh base (failed_start s)) others
IsFresh-failed base s others f =
    All-imp _ _
      (λ x h. record {
        not_running = h.not_running;
        not_started = h.not_started;
        not_before = h.not_before;
      })
      others f

-- Starting the servers keeps that stopping the started ones leaves the processes of before.
start_all_balanced :
    (base : List ℕ) (servers : List ServerProcess) (s : Started)
    → exit_all s.started s.running ≡ base
    → All (IsFresh base s) servers
    → Distinct (processes servers)
    → All IsExpected servers
    → exit_all (start_all servers s).started (start_all servers s).running ≡ base
unfolding start_all
start_all_balanced base [] s b f d e = b
start_all_balanced base (server ∷ servers) s b f d e =
    elim (start_one_cases server s e.0 f.0.not_running) [
      | inl (ok, started) ↦
          rw (started, start_all)
            (start_all_balanced base servers (pushed server s)
              (exit_last s.started server s.running f.0.not_started (rw b f.0.not_before) ∙ b)
              (IsFresh-pushed base server s servers d.0 f.1) d.1 e.1)
      | inr (bad, started) ↦
          rw (started, start_all)
            (start_all_balanced base servers (failed_start s) b (IsFresh-failed base s servers f.1)
              d.1 e.1)
    ]

-- What raises is noted, and if nothing does, every server is in `started`.
start_all_noted :
    (base : List ℕ) (servers : List ServerProcess) (s : Started)
    → All (IsFresh base s) servers
    → Distinct (processes servers)
    → All IsExpected servers
    → ((start_all servers s).failed ≡ (s.failed || any (λ x. fails x.startup) servers))
      × ((any (λ x. fails x.startup) servers ≡ true)
          ⊎ ((start_all servers s).started ≡ s.started ++ servers))
unfolding start_all
start_all_noted base [] s f d e = (ground arith, inr (sym (append-nil s.started)))
start_all_noted base (server ∷ servers) s f d e =
    elim (start_one_cases server s e.0 f.0.not_running) [
      | inl (ok, started) ↦
          let (failed, all) =
            start_all_noted base servers (pushed server s)
              (IsFresh-pushed base server s servers d.0 f.1) d.1 e.1 in
          rw (started, start_all, ok)
            (
              failed,
              elim all [
                | inl bad ↦ inl bad
                | inr whole ↦ inr (whole ∙ append_assoc s.started (server ∷ []) servers)
              ],
            )
      | inr (bad, started) ↦
          let (failed, all) =
            start_all_noted base servers (failed_start s) (IsFresh-failed base s servers f.1) d.1
              e.1 in
          rw (started, start_all, bad) (ground (arith, failed), inl refl)
    ]

IsFresh-started :
    (running : List ℕ) (servers : List ServerProcess)
    → All (λ s. is_in s.process running ≡ false) servers
    → All (IsFresh running (record { started = []; failed = false; running = running })) servers
IsFresh-started running servers h =
    All-imp _ _ (λ x new. record { not_running = new; not_started = refl; not_before = new })
      servers h

-- If there are servers, no process of theirs runs yet, no two are the same, and no wait ends with an
-- exception that __enter__ does not expect: either a start raises, the cluster's __enter__ raises and the
-- running processes are those of before; or all start, and leaving the cluster leaves the processes of
-- before.
pub cluster_enter-balanced :
    (servers : List ServerProcess) (running : List ℕ)
    → 1 ≤ length servers
    → All (λ s. is_in s.process running ≡ false) servers
    → Distinct (processes servers)
    → All IsExpected servers
    → ((any (λ s. fails s.startup) servers ≡ true)
        × (cluster_enter servers running ≡ (none, running)))
      ⊎ ((any (λ s. fails s.startup) servers ≡ false)
          × (now : List ℕ) × (cluster_enter servers running ≡ (some servers, now))
          × (cluster_exit servers now ≡ running))
unfolding cluster_enter cluster_exit
cluster_enter-balanced [] running some_servers new apart expected = absurd (omega arith)
cluster_enter-balanced (first ∷ others) running some_servers new apart expected =
    let servers = first ∷ others in
    let s0 : Started = record { started = []; failed = false; running = running } in
    let fresh = IsFresh-started running servers new in
    let s = start_all servers s0 in
    let balanced =
      start_all_balanced running servers s0 (unfold exit_all in refl) fresh apart expected in
    let (noted, all) = start_all_noted running servers s0 fresh apart expected in
    elim (Bool-cases (any (λ s. fails s.startup) servers)) [
      | inl bad ↦
          let failed : s.failed ≡ true = noted ∙ bad in
          inl (bad, rw failed (ap (λ r. (none, r)) balanced))
      | inr good ↦
          let failed : s.failed ≡ false = noted ∙ good in
          elim all [
            | inl bad ↦ absurd (ground arith)
            | inr whole ↦ inr (
              good,
              s.running,
              rw failed (ap (λ l. (some l, s.running)) whole),
              ap (λ l. exit_all l s.running) (sym whole) ∙ balanced,
            )
          ]
    ]

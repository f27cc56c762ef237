-- ===== src/Plugin/Acceptor.antt =====
-- src/plugin/server.rs, `accept_loop`: the cap on concurrent sessions. The waits and the workers are a list of what
-- happens; shutdown ends the list.
use wazabi_edr_agent.Prelude.{
  ℕ, zero, suc, ◌+◌, ◌-◌, ◌≤◌, ◌≡◌, refl, Bool, true, false, List, [], ◌∷◌, arith, leb,
  if◌then◌else◌,
}

abbrev pub max_concurrent_sessions : ℕ
max_concurrent_sessions = 64

-- `active_sessions` is the shared counter, and `sessions_rejected` that of the statistics, which a worker raises too
-- where `handle_session` refuses the handshake. `workers` counts the threads that run, `refused` those refusals, and
-- `unspawned` and `finished` connections without a thread and at their end.
pub record Acceptor : Type 0 where
  pub active_sessions : ℕ
  pub workers : ℕ
  pub sessions_accepted : ℕ
  pub sessions_rejected : ℕ
  pub unspawned : ℕ
  pub finished : ℕ
  pub refused : ℕ

-- A round of the loop, by what `create_pipe_instance`, `wait_for_client` and `spawn` answer, or what a worker does,
-- which may come between any two: its session refuses the handshake, or it ends.
pub data Happening : Type 0 where
  create_failed wait_ended wait_failed worker_refuses worker_ends : Happening
  client : Bool → Happening

-- A client: the counter is raised first, and lowered again where the client is turned away or has no thread.
unfoldable pub connect : Bool → Acceptor → Acceptor
connect spawned s =
    let count = Acceptor.active_sessions s in
    let raised = record s {
      sessions_accepted = Acceptor.sessions_accepted s + 1;
      active_sessions = count + 1;
    } in
    if leb max_concurrent_sessions count
    then record raised {
      active_sessions = Acceptor.active_sessions raised - 1;
      sessions_rejected = Acceptor.sessions_rejected raised + 1;
    }
    else if spawned
    then record raised { workers = Acceptor.workers raised + 1 }
    else record raised {
      active_sessions = Acceptor.active_sessions raised - 1;
      unspawned = Acceptor.unspawned raised + 1;
    }

end_worker : ℕ → Acceptor → Acceptor
end_worker zero s = s
end_worker (suc w) s = record s {
  workers = w;
  active_sessions = Acceptor.active_sessions s - 1;
  finished = Acceptor.finished s + 1;
}

refuse : ℕ → Acceptor → Acceptor
refuse zero s = s
refuse (suc w) s = record s {
  sessions_rejected = Acceptor.sessions_rejected s + 1;
  refused = Acceptor.refused s + 1;
}

unfoldable pub accept_loop : List Happening → Acceptor → Acceptor
unfolding connect end_worker refuse
accept_loop [] s = s
accept_loop (create_failed ∷ hs) s = accept_loop hs s
accept_loop (wait_ended ∷ hs) s = accept_loop hs s
accept_loop (wait_failed ∷ hs) s = accept_loop hs s
accept_loop (client spawned ∷ hs) s = accept_loop hs (connect spawned s)
accept_loop (worker_refuses ∷ hs) s = accept_loop hs (refuse (Acceptor.workers s) s)
accept_loop (worker_ends ∷ hs) s = accept_loop hs (end_worker (Acceptor.workers s) s)

-- The counter is the number of workers, at most 64 run, and every accepted client is accounted for; a refused handshake counts as rejected
-- besides its client.
abbrev pub Capped : Acceptor → Type 0
Capped s =
    (Acceptor.active_sessions s ≡ Acceptor.workers s)
    × (Acceptor.workers s ≤ max_concurrent_sessions)
    × (Acceptor.sessions_accepted s + Acceptor.refused s
        ≡ Acceptor.sessions_rejected s
          + Acceptor.unspawned s
          + Acceptor.workers s
          + Acceptor.finished s)

connect-Capped : (spawned : Bool) (s : Acceptor) → Capped s → Capped (connect spawned s)
unfolding connect
connect-Capped true s h = ground (arith, h)
connect-Capped false s h = ground (arith, h)

end_worker-Capped :
    (w : ℕ) (s : Acceptor) → Acceptor.workers s ≡ w → Capped s → Capped (end_worker w s)
unfolding end_worker
end_worker-Capped zero s e h = h
end_worker-Capped (suc w) s e h = ground (arith, e, h)

refuse-Capped : (w : ℕ) (s : Acceptor) → Capped s → Capped (refuse w s)
unfolding refuse
refuse-Capped zero s h = h
refuse-Capped (suc w) s h = ground (arith, h)

-- Whatever clients, refusals and ends of workers come, in any order, the shared counter stays the number of running
-- workers, no more than 64 workers run, and the accepted clients are those that were turned away, that had no thread,
-- that are served and that are finished, where those turned away are the rejected sessions without the refused
-- handshakes.
pub accept_loop-Capped : (hs : List Happening) (s : Acceptor) → Capped s → Capped (accept_loop hs s)
unfolding accept_loop
accept_loop-Capped [] s h = h
accept_loop-Capped (create_failed ∷ hs) s h = accept_loop-Capped hs s h
accept_loop-Capped (wait_ended ∷ hs) s h = accept_loop-Capped hs s h
accept_loop-Capped (wait_failed ∷ hs) s h = accept_loop-Capped hs s h
accept_loop-Capped (client spawned ∷ hs) s h =
    accept_loop-Capped hs (connect spawned s) (connect-Capped spawned s h)
accept_loop-Capped (worker_refuses ∷ hs) s h =
    accept_loop-Capped hs (refuse (Acceptor.workers s) s) (refuse-Capped (Acceptor.workers s) s h)
accept_loop-Capped (worker_ends ∷ hs) s h =
    accept_loop-Capped hs (end_worker (Acceptor.workers s) s)
      (end_worker-Capped (Acceptor.workers s) s refl h)

-- ===== src/Scheduler/Safety.antt =====
-- What holds of every state that the scheduler reaches, and what a kill of the running process breaks.
use abel_os.Base.{
  ℕ, ◌+◌, ◌<◌, ◌^◌, ◌≡◌, ◌≢◌, refl, sym, ap, ◌∙◌, [], ◌∷◌, ◌++◌, List, some, none, Option, arith,
  ◌==◌, inl, inr, false,
}
use abel_os.Fifo.Rotation.{next-null}
use mathlib.Core.Path.{subst, ap₂}
use abel_os.Fifo.{Pcb, Entry, Procs, load}
use abel_os.Fifo.Lookup.{NoProc-drop, NoId, NoProc, AreDistinct, load-middle, load-NoProc}
use abel_os.Fifo.Change.{dequeue-unknown, AreDistinct-drop}
use abel_os.Scheduler.{
  register_post_routine, switch, free_objects, fifo_ops, Sched, Effect, Outcome, add_process,
  kill_process, sched_tick, exit_current, start,
}
use abel_os.Scheduler.Pids.{
  AreBelow, AreBelow-drop, IsSched, add_process-IsSched, kill_process-IsSched,
}
use abel_os.Scheduler.Ticks.{running}
use abel_os.Scheduler.Exit.{exit_current-switches}
use abel_os.Scheduler.Listed.{
  Listed, AreOk, Listed-drop, Listed-head_proc, Listed-enqueue, AreOk-drop, AreOk-enqueue,
  pid-cases,
}
use abel_os.Scheduler.Runs.{
  IsRunning, Step, ticks, adds, exits, kills, Reach, here, later, Succeeds, nil-cases, shown,
  tick-Succeeds,
}

Succeeds-some :
    (r : Outcome) {t : Sched} {fx : List Effect} → r ≡ some (t, fx) → Succeeds r → IsRunning t
Succeeds-some r e h = rw e at h

running-exits :
    (s : Sched) (xs : Procs) (e : Entry) (ys : Procs) (other : ℕ)
    → IsRunning (running s xs e ys)
    → Listed other (xs ++ e ∷ ys)
    → other ≢ e.proc
    → Succeeds (exit_current fifo_ops (running s xs e ys))
running-exits s xs e ys other v listed differs = elim (nil-cases xs ys) [
  | inl (no_xs, no_ys) ↦
      absurd (alone (subst (λ l. Listed other l) (λ i. no_xs i ++ e ∷ no_ys i) listed))
  | inr others ↦ rw (exit_current-switches s xs e ys v.distinct others).0 (record {
    distinct = AreDistinct-drop xs e ys v.distinct;
    below = AreBelow-drop s.last_pid xs e ys v.below;
    ok = AreOk-drop xs e ys v.ok;
    current_listed = Listed-head_proc xs ys others;
  })
]
  where
    alone : Listed other (e ∷ []) → ⊥
    alone (inl h) = differs (sym h)
    alone (inr h) = h

kill_process-unknown :
    (pid : ℕ) (s : Sched)
    → NoId pid s.procs
    → kill_process fifo_ops pid s ≡ (s, free_objects [] ∷ [])
unfolding kill_process
kill_process-unknown pid s unknown = rw (dequeue-unknown pid s.procs unknown, kill_process) refl

kill-IsRunning :
    (s : Sched) (b : Pcb) (pid : ℕ)
    → IsRunning s
    → load s.current s.procs ≡ some b
    → b.id ≢ pid
    → IsRunning (kill_process fifo_ops pid s).0
kill-IsRunning s b pid v found differs = elim (pid-cases pid s.procs) [
  | inl unknown ↦ rw (kill_process-unknown pid s unknown) v
  | inr (xs, e, ys, same, at) ↦
      let d : AreDistinct (xs ++ e ∷ ys) = subst AreDistinct same v.distinct in
      let other : e.proc ≢ s.current = λ h. differs (block_id xs e ys same at d h) in
      subst (λ p. IsRunning (kill_process fifo_ops p s).0) at
        (rw (kill_process-IsSched s xs e ys same (v.distinct, v.below)).0 (record {
          distinct = AreDistinct-drop xs e ys d;
          below = AreBelow-drop s.last_pid xs e ys (subst (AreBelow s.last_pid) same v.below);
          ok = AreOk-drop xs e ys (subst AreOk same v.ok);
          current_listed =
              Listed-drop s.current xs e ys other (subst (Listed s.current) same v.current_listed);
        }))
]
  where
    block_id :
        (xs : Procs) (e : Entry) (ys : Procs)
        → s.procs ≡ xs ++ e ∷ ys
        → e.pcb.id ≡ pid
        → AreDistinct (xs ++ e ∷ ys)
        → e.proc ≡ s.current
        → b.id ≡ pid
    block_id xs e ys same at d h =
        let block : some b ≡ some e.pcb =
          sym found ∙ (ap₂ load (sym h) same ∙ load-middle xs e ys d) in
        ap (λ (o : Option Pcb). elim o [ none ↦ pid | some c ↦ c.id ]) block ∙ at

add-IsRunning :
    (copy node stack priority : ℕ) (s : Sched)
    → IsRunning s
    → s.last_pid + 1 < 2 ^ 32
    → NoProc copy s.procs
    → IsRunning (add_process fifo_ops copy node stack priority s)
unfolding add_process
add-IsRunning copy node stack priority s v small fresh =
    let kept = add_process-IsSched copy node stack priority s (v.distinct, v.below) small fresh in
    record {
      distinct = kept.0;
      below = kept.1;
      ok = AreOk-enqueue copy node _ s.procs refl v.ok;
      current_listed = Listed-enqueue s.current copy node _ s.procs v.current_listed;
    }

exit-Succeeds :
    (s : Sched) (other : ℕ)
    → IsRunning s
    → Listed other s.procs
    → other ≢ s.current
    → Succeeds (exit_current fifo_ops s)
exit-Succeeds s other v listed differs =
    let (xs, e, ys, same) = shown s v in
    subst (λ t. Succeeds (exit_current fifo_ops t)) (sym same)
      (running-exits s xs e ys other (subst IsRunning same v)
        (subst (λ t. Listed other t.procs) same listed)
        (subst (λ t. other ≢ t.current) same differs))

-- Every step keeps the invariant.
pub Step-IsRunning : {s t : Sched} {fx : List Effect} → Step s fx t → IsRunning s → IsRunning t
Step-IsRunning {s} (ticks e) v = Succeeds-some _ e (tick-Succeeds s v)
Step-IsRunning {s} (adds copy node stack priority small fresh) v =
    add-IsRunning copy node stack priority s v small fresh
Step-IsRunning {s} (exits other listed differs e) v =
    Succeeds-some _ e (exit-Succeeds s other v listed differs)
Step-IsRunning {s} (kills {b} pid found differs) v = kill-IsRunning s b pid v found differs

pub Reach-IsRunning : {s t : Sched} → Reach s t → IsRunning s → IsRunning t
Reach-IsRunning here v = v
Reach-IsRunning (later r st) v = Step-IsRunning st (Reach-IsRunning r v)

-- What the timer finds in a state: its tick does not read a block that is not live, and leaves a state
-- of the invariant. So does the end of the running process while another one is listed.
abbrev pub IsSafe : Sched → Type 0
IsSafe s =
    IsRunning s
    × Succeeds (sched_tick fifo_ops s)
    × ((other : ℕ) → Listed other s.procs → other ≢ s.current → Succeeds (exit_current fifo_ops s))

-- From a state in which one of distinct processes runs, none is ending and every pid of the list is below
-- the counter of pids, however timer ticks, new processes at addresses of no listed block while the
-- counter does not wrap around, exits while another process is listed, and kills of processes that do
-- not run follow one another: the running process is a listed one, the list stays distinct, and neither
-- a tick, nor an exit while another process is listed, reads a block that is not live.
pub Reach-IsSafe : {s t : Sched} → IsRunning s → Reach s t → IsSafe t
Reach-IsSafe {t} v r =
    let w = Reach-IsRunning r v in (w, tick-Succeeds t w, λ other. exit-Succeeds t other w)

-- The first switch goes to the first process of the list.
pub start-head_proc :
    (s : Sched) (e : Entry) (es : Procs)
    → s.procs ≡ e ∷ es
    → e.proc ≢ 0
    → start fifo_ops s
      ≡ some (record s { current = e.proc }, register_post_routine ∷ switch none e.proc ∷ [])
unfolding start
start-head_proc s e es same live =
    let live' : (e.proc == 0) ≡ false = ground arith in
    rw (next-null s.procs, same, live', start) refl

-- The first switch, on a well-formed scheduler with a process and none that is ending.
pub start-Succeeds :
    (s : Sched) (e : Entry) (es : Procs)
    → s.procs ≡ e ∷ es
    → IsSched s
    → AreOk s.procs
    → Succeeds (start fifo_ops s)
start-Succeeds s e es same v ok =
    rw (start-head_proc s e es same (subst AreDistinct same v.0).0) (record {
      distinct = v.0;
      below = v.1;
      ok = ok;
      current_listed = subst (λ l. Listed e.proc l) (sym same) (inl refl);
    })

-- Where the processes are distinct and every pid of the list is below the counter, a kill of the running
-- process frees its block and its node and nothing else, leaves `current` at the freed block, takes it
-- from the list, and the next tick reads it.
pub kill_process-running :
    (s : Sched) (xs : Procs) (e : Entry) (ys : Procs)
    → IsSched (running s xs e ys)
    → let (t, fx) = kill_process fifo_ops e.pcb.id (running s xs e ys) in
      (fx ≡ free_objects (e.proc ∷ (e.node ∷ [])) ∷ [])
      × (t.current ≡ e.proc)
      × (t.procs ≡ xs ++ ys)
      × (sched_tick fifo_ops t ≡ none)
unfolding sched_tick
kill_process-running s xs e ys v =
    let gone = load-NoProc e.proc (xs ++ ys) (NoProc-drop xs e ys v.0) in
    rw (kill_process-IsSched (running s xs e ys) xs e ys refl v).0
      (refl, refl, refl, rw (gone, sched_tick) refl)

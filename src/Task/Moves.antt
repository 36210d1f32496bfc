-- ===== src/Task/Moves.antt =====
-- A task enters and leaves the ready queues: `eos_suspend_task`, and the parts of the other calls of
-- eos_aarch64/core/task.c before they schedule.
use e_os_aarch64_hal.Base.{
  ◌≡◌, refl, ◌≢◌, ◌⊎◌, false, [], ◌∷◌, arith, ◌==◌, eq-cases, inl, inr, Bool-cases, has-append,
}
use e_os_aarch64_hal.Base.Run.{ok}
use e_os_aarch64_hal.NodeList.{Ptr, null}
use e_os_aarch64_hal.Kernel.{Kernel, queue_node, ready_queue, enter_ready, set_status, locked}
use e_os_aarch64_hal.Kernel.Lists.{Lists}
use e_os_aarch64_hal.Kernel.Queues.{appended, erased, enter_ready-SameTasks}
use e_os_aarch64_hal.Task.{ready, running, suspended, suspend_task, resume_task, schedule}
use e_os_aarch64_hal.Task.Invariant.{IsValid, unlisted}
use e_os_aarch64_hal.Task.Ready.{make_ready-IsValid, make_idle-IsValid}
use e_os_aarch64_hal.Task.Schedule.{Scheduled, schedule-Scheduled}

-- If the running task makes the call, there is always a task to switch to.
pub schedule-running :
    (k : Kernel) (qs : Lists)
    → IsValid k qs
    → k.scheduler_lock ≢ locked
    → k.frame ≢ null
    → (k.tcbs k.current_task).status ≡ running
    → Scheduled k qs (schedule k)
schedule-running k qs v free fr run =
    let t = k.current_task in
    let p = (k.tcbs t).priority in
    let made = v.tasks.created t (ground arith) in
    schedule-Scheduled k qs p (queue_node t) v free (λ _. fr) made.0
      (ground (arith, has-append (queue_node t) (qs (ready_queue p)) (queue_node t ∷ [])))

module _ (k : Kernel) (qs : Lists) (v : IsValid k qs) (t : Ptr) where
  -- Suspending a ready task takes it off the ready queues; in every other case only the result
  -- tells of the call. The state stays in order.
  pub suspend_task-IsValid :
      (t ≢ null)
      → ((suspend_task t k).0 ≡ 0)
        × ((((k.tcbs t).status ≡ ready)
              × (((suspend_task t k).1.tcbs t).status ≡ suspended)
              × IsValid
                  (suspend_task t k).1
                  (erased (ready_queue (k.tcbs t).priority) (queue_node t) qs))
            ⊎ (((k.tcbs t).status ≢ ready) × ((suspend_task t k).1 ≡ k)))
  unfolding suspend_task
  suspend_task-IsValid ne =
      let used : (t == null) ≡ false = ground arith in
      elim (Bool-cases ((k.tcbs t).status == ready)) [
        | inl e ↦
            rw (used, e)
              (
                refl,
                inl (
                  ground arith,
                  ground arith,
                  make_idle-IsValid k qs v t suspended (ground arith) (ground arith) (ground arith),
                ),
              )
        | inr e ↦ rw (used, e) (refl, inr (ground arith, refl))
      ]

  -- With the scheduler open, resuming a suspended task makes it ready, at the end of the queue of its
  -- priority, and then switches to the task that is due; a task that is not suspended is left alone.
  pub resume_task-Scheduled :
      t ≢ null
      → k.scheduler_lock ≢ locked
      → k.frame ≢ null
      → (k.tcbs k.current_task).status ≡ running
      → let k1 = set_status t ready (enter_ready (k.tcbs t).priority t k) in
        let qs1 = appended (ready_queue (k.tcbs t).priority) (queue_node t) qs in
        ((s : Scheduled k1 qs1 (schedule k1)) × ((k.tcbs t).status ≡ suspended)
          × (resume_task t k ≡ ok (0, s.after)))
        ⊎ (((k.tcbs t).status ≢ suspended) × (resume_task t k ≡ ok (0, k)))
  unfolding resume_task
  resume_task-Scheduled ne free fr run =
      let used : (t == null) ≡ false = ground arith in
      elim (Bool-cases ((k.tcbs t).status == suspended)) [
        | inl e ↦
            let s = resumed (ground arith) free fr run in
            inl (s, ground arith, rw (used, e, s.returns) refl)
        | inr e ↦ inr (ground arith, rw (used, e) refl)
      ]
    where
      resumed :
          (k.tcbs t).status ≡ suspended
          → k.scheduler_lock ≢ locked
          → k.frame ≢ null
          → (k.tcbs k.current_task).status ≡ running
          → let k1 = set_status t ready (enter_ready (k.tcbs t).priority t k) in
            let qs1 = appended (ready_queue (k.tcbs t).priority) (queue_node t) qs in
            Scheduled k1 qs1 (schedule k1)
      resumed e free fr run =
          let p = (k.tcbs t).priority in
          let k1 = set_status t ready (enter_ready p t k) in
          let same = enter_ready-SameTasks p t k in
          let made = v.tasks.created t (ground arith) in
          let out =
            unlisted k.tcbs k.heap.pnode k.current_task qs v.tasks t (ground arith)
              (ground arith) in
          let valid = make_ready-IsValid k qs v t made.0 made.1 made.2 out in
          let open_still : k1.scheduler_lock ≢ locked = rw same.scheduler_lock free in
          let fr' : k1.frame ≢ null = rw same.frame fr in
          let run' : (k1.tcbs k1.current_task).status ≡ running =
            ground (arith, same.current_task, same.tcbs, eq-cases t k.current_task) in
          schedule-running k1 (appended (ready_queue p) (queue_node t) qs) valid open_still fr' run'

-- ===== src/Task/Wake.antt =====
-- `_os_wakeup_from_queue` of eos_aarch64/core/task.c: the first task of a wait queue wakes up.
use e_os_aarch64_hal.Base.{
  ◌<◌, ◌≡◌, refl, subst, fun_ext, ◌≢◌, ◌∙◌, false, List, [], ◌∷◌, arith, ◌∈◌, ◌∉◌, ◌==◌, eq-cases,
  erase, erase_append, erase-not-mem,
}
use e_os_aarch64_hal.Base.Run.{ok}
use e_os_aarch64_hal.NodeList.{Ptr, null}
use e_os_aarch64_hal.NodeList.Chain.{Ring, Ring-Distinct}
use e_os_aarch64_hal.Kernel.{
  Kernel, update, queue_node, ready_queue, enter_ready, remove, set_status, locked,
}
use e_os_aarch64_hal.Kernel.Lists.{Lists}
use e_os_aarch64_hal.Kernel.Queues.{
  appended, erased, remove-Queues, remove-SameNodes, enter_ready-SameTasks,
}
use e_os_aarch64_hal.Task.{ready, running, waiting, schedule, wake_first, wakeup_from_queue}
use e_os_aarch64_hal.Task.Invariant.{IsValid, Tasks-drop}
use e_os_aarch64_hal.Task.Ready.{make_ready-IsValid}
use e_os_aarch64_hal.Task.Schedule.{Scheduled}
use e_os_aarch64_hal.Task.Moves.{schedule-running}

module _ (k : Kernel) (qs : Lists) (v : IsValid k qs) (q : Ptr) (far : 64 < q) where
  -- A task's node is taken out of a wait queue.
  pub remove-IsValid :
      (t : Ptr)
      → queue_node t ∈ qs q
      → IsValid (remove q (queue_node t) k) (erased q (queue_node t) qs)
  unfolding remove
  remove-IsValid t i =
      let out = remove-Queues k qs v.queues q (queue_node t) far i in
      let nodes = remove-SameNodes k qs v.queues q (queue_node t) i in
      let distinct = Ring-Distinct k.heap (k.heads q) (qs q) (v.queues.rep.ring q) in
      record {
        queues = out;
        tasks =
            rw (fun_ext nodes.pnode)
              (Tasks-drop k.tcbs k.heap.pnode k.current_task qs v.tasks q t far distinct);
      }

  -- It is then in no list.
  pub erase-unlisted :
      (t : Ptr) → queue_node t ∈ qs q → (r : Ptr) → queue_node t ∉ erased q (queue_node t) qs r
  erase-unlisted t i r = ground (
    arith,
    v.queues.rep.apart q r (queue_node t) i,
    erase-not-mem (queue_node t) (qs q)
        (Ring-Distinct k.heap (k.heads q) (qs q) (v.queues.rep.ring q)),
    eq-cases q r,
  )

  pub is_waiting : (t : Ptr) → queue_node t ∈ qs q → (k.tcbs t).status ≡ waiting
  is_waiting t i = ground (arith, v.tasks.member q t i, v.tasks.created t)

  pub wake_first-same :
      ((wake_first q k).current_task ≡ k.current_task)
      × ((wake_first q k).scheduler_lock ≡ k.scheduler_lock)
      × ((wake_first q k).frame ≡ k.frame)
  unfolding wake_first remove enter_ready
  wake_first-same = (refl, refl, refl)

  pub wake_first-IsValid :
      (t : Ptr) (rest : List Ptr)
      → qs q ≡ queue_node t ∷ rest
      → k.heap.pnode (queue_node t) ≡ t
      → IsValid
          (wake_first q k)
          (appended (ready_queue (k.tcbs t).priority) (queue_node t) (update qs q rest))
        × (((wake_first q k).tcbs t).status ≡ ready)
        × ((u : Ptr) → u ≢ t → (wake_first q k).tcbs u ≡ k.tcbs u)
  unfolding wake_first remove
  wake_first-IsValid t rest first node =
      let i : queue_node t ∈ qs q = ground (arith, first) in
      let ring = subst (Ring k.heap (k.heads q)) first (v.queues.rep.ring q) in
      let task : k.heap.pnode (k.heads q) ≡ t = rw (ring.0) node in
      let k1 = remove q (queue_node t) k in
      let v1 = remove-IsValid t i in
      let waits = is_waiting t i in
      let made = v.tasks.created t (ground arith) in
      let out = λ (r : Ptr). erase-unlisted t i r in
      let nodes = remove-SameNodes k qs v.queues q (queue_node t) i in
      let left : erase (queue_node t) (qs q) ≡ rest =
        rw first (erase_append (queue_node t) [] rest refl) in
      let valid =
        make_ready-IsValid k1 (erased q (queue_node t) qs) v1 t made.0
          (nodes.pnode (queue_node t) ∙ node) made.2 out in
      let same = enter_ready-SameTasks (k.tcbs t).priority t k1 in
      (
        rw task (
            subst
              (λ l.
                IsValid (set_status t ready (enter_ready (k.tcbs t).priority t k1))
                  (appended (ready_queue (k.tcbs t).priority) (queue_node t) (update qs q l)))
              left valid),
        rw task (ground arith),
        λ u ne. rw (task, same.tcbs) (ground (arith, eq-cases t u)),
      )

  -- With the scheduler open, the first waiter of a queue becomes ready, at the end of the ready queue
  -- of its priority, the others stay in order, and the caller, which runs, yields to the task that is
  -- due.
  pub wakeup_from_queue-Scheduled :
      (t : Ptr) (rest : List Ptr)
      → qs q ≡ queue_node t ∷ rest
      → k.heap.pnode (queue_node t) ≡ t
      → k.scheduler_lock ≢ locked
      → k.frame ≢ null
      → (k.tcbs k.current_task).status ≡ running
      → let k1 = wake_first q k in
        let qs1 = appended (ready_queue (k.tcbs t).priority) (queue_node t) (update qs q rest) in
        (s : Scheduled k1 qs1 (schedule k1)) × ((k1.tcbs t).status ≡ ready)
        × ((u : Ptr) → u ≢ t → k1.tcbs u ≡ k.tcbs u)
        × (wakeup_from_queue q k ≡ ok s.after)
  unfolding wakeup_from_queue
  wakeup_from_queue-Scheduled t rest first node free fr run =
      let (valid, woken, others) = wake_first-IsValid t rest first node in
      let ring = subst (Ring k.heap (k.heads q)) first (v.queues.rep.ring q) in
      let used : (k.heads q == null) ≡ false = ground arith in
      let same = wake_first-same in
      let waits = is_waiting t (ground (arith, first)) in
      let ne : k.current_task ≢ t = ground arith in
      let run' : ((wake_first q k).tcbs (wake_first q k).current_task).status ≡ running =
        rw (same.0, others k.current_task ne) run in
      let qs1 = appended (ready_queue (k.tcbs t).priority) (queue_node t) (update qs q rest) in
      let free' : (wake_first q k).scheduler_lock ≢ locked = rw same.1 free in
      let fr' : (wake_first q k).frame ≢ null = rw same.2 fr in
      let s = schedule-running (wake_first q k) qs1 valid free' fr' run' in
      (s, woken, others, rw used s.returns)

  -- An empty wait queue is left as it is.
  pub wakeup_from_queue-empty : qs q ≡ [] → wakeup_from_queue q k ≡ ok k
  unfolding wakeup_from_queue
  wakeup_from_queue-empty e =
      let ring = subst (Ring k.heap (k.heads q)) e (v.queues.rep.ring q) in rw ring refl

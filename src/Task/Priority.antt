-- ===== src/Task/Priority.antt =====
-- `eos_change_priority` of eos_aarch64/core/task.c.
use e_os_aarch64_hal.Base.{
  ℕ, ◌<◌, ◌≡◌, refl, subst, ◌≢◌, inl, inr, false, arith, ◌==◌, ltb, ◌||◌, eq-cases, Bool-cases,
  if◌then◌else◌,
}
use e_os_aarch64_hal.Base.Run.{ok}
use e_os_aarch64_hal.NodeList.{Ptr, null, write}
use e_os_aarch64_hal.Bitmap.{lowest_priority}
use e_os_aarch64_hal.Kernel.{
  Tcb, Kernel, update, queue_node, ready_queue, enter_ready, leave_ready, set_tcb, set_status,
  locked, remove, add_tail,
}
use e_os_aarch64_hal.Kernel.Lists.{Lists}
use e_os_aarch64_hal.Kernel.Queues.{appended, erased, leave_ready-SameTasks, leave_ready-SameNodes}
use e_os_aarch64_hal.Task.{ready, running, suspended, schedule, change_priority}
use e_os_aarch64_hal.Task.Invariant.{
  IsValid, Tasks, Tasks-same, Queues-same, Queues-links, unlisted,
}
use e_os_aarch64_hal.Task.Ready.{make_ready-IsValid, make_idle-IsValid}
use e_os_aarch64_hal.Task.Schedule.{Scheduled}
use e_os_aarch64_hal.Task.Moves.{schedule-running}

-- The state in which `eos_change_priority` schedules.
abbrev pub prioritized : Kernel → Ptr → ℕ → Kernel
prioritized k t p =
    let k1 =
      if (k.tcbs t).status == ready
      then enter_ready p t (leave_ready (k.tcbs t).priority (queue_node t) k)
      else k in
    record k1 {
      heap = record k1.heap { order_val = write k1.heap.order_val (queue_node t) p };
      tcbs = update k1.tcbs t (record (k1.tcbs t) { priority = p });
    }

-- A ready task moves to the end of the ready queue of its new priority.
abbrev pub moved : Kernel → Lists → Ptr → ℕ → Lists
moved k qs t p =
    if (k.tcbs t).status == ready
    then appended (ready_queue p) (queue_node t)
        (erased (ready_queue (k.tcbs t).priority) (queue_node t) qs)
    else qs

-- Only the ready queues depend on the priorities.
Tasks-priority :
    (tcbs : Ptr → Tcb) (pnode : Ptr → ℕ) (current : Ptr) (qs : Lists) (t : Ptr) (u : Tcb)
    → Tasks tcbs pnode current qs
    → (tcbs t).status ≢ ready
    → u.status ≡ (tcbs t).status
    → u.priority < 64
    → Tasks (update tcbs t u) pnode current qs
Tasks-priority tcbs pnode current qs t u v ne s hp = record {
  created = λ a c. ground (arith, v.created a, eq-cases t a);
  member = λ q a i. ground (arith, v.member q a i, eq-cases t a);
  listed = λ a e. ground (arith, v.listed a, eq-cases t a);
  nodes = v.nodes;
  running = λ a e. ground (arith, v.running a, eq-cases t a);
}

module _ (k : Kernel) (qs : Lists) (v : IsValid k qs) (t : Ptr) (p : ℕ) (hp : p < 64)
    (created : (k.tcbs t).status ≢ 0) where
  prioritized-ready : (k.tcbs t).status ≡ ready → IsValid (prioritized k t p) (moved k qs t p)
  unfolding enter_ready add_tail
  prioritized-ready e =
      let old = (k.tcbs t).priority in
      let n = queue_node t in
      let made = v.tasks.created t created in
      let here = v.tasks.listed t e in
      let k1 = leave_ready old n k in
      let same = leave_ready-SameTasks old n k in
      let nodes = leave_ready-SameNodes k qs v.queues old n here in
      let v1 = make_idle-IsValid k qs v t suspended e (ground arith) (ground arith) in
      let k2 = set_status t suspended k1 in
      let qs1 = erased (ready_queue old) n qs in
      let u = record (k2.tcbs t) { priority = p } in
      let k3 = set_tcb t u k2 in
      let v3 : IsValid k3 qs1 = record {
        queues = Queues-same k2 k3 qs1 refl refl refl v1.queues;
        tasks =
            Tasks-priority k2.tcbs k2.heap.pnode k2.current_task qs1 t u v1.tasks (ground arith)
              (ground arith) hp;
      } in
      let out =
        unlisted k3.tcbs k3.heap.pnode k3.current_task qs1 v3.tasks t (ground arith)
          (ground arith) in
      let low : (k3.tcbs t).priority < 64 = ground arith in
      let now : (k3.tcbs t).priority ≡ p = ground arith in
      let node : k3.heap.pnode n ≡ t = ground (arith, nodes.pnode n) in
      let v4 = make_ready-IsValid k3 qs1 v3 t low node made.2 out in
      let lists = appended (ready_queue p) n qs1 in
      let k4 = set_status t ready (enter_ready p t k3) in
      let v5 : IsValid k4 lists =
        subst
          (λ r. IsValid (set_status t ready (enter_ready r t k3)) (appended (ready_queue r) n qs1))
          now v4 in
      let m = enter_ready p t k1 in
      let w = record m {
        heap = record m.heap { order_val = write m.heap.order_val n p };
        tcbs = update m.tcbs t (record (m.tcbs t) { priority = p });
      } in
      let vw : IsValid w lists = record {
        queues = Queues-links k4 w lists refl refl refl refl v5.queues;
        tasks =
            Tasks-same k4.tcbs w.tcbs w.heap.pnode w.current_task lists
              (λ a. ground (arith, same.tcbs, eq-cases t a))
              (λ a. ground (arith, same.tcbs, eq-cases t a)) v5.tasks;
      } in
      let state : prioritized k t p ≡ w = rw e refl in
      let at_end : moved k qs t p ≡ lists = rw e refl in rw (state, at_end) vw

  prioritized-other :
      ((k.tcbs t).status == ready) ≡ false → IsValid (prioritized k t p) (moved k qs t p)
  prioritized-other e =
      let u = record (k.tcbs t) { priority = p } in
      let w = record k {
        heap = record k.heap { order_val = write k.heap.order_val (queue_node t) p };
        tcbs = update k.tcbs t u;
      } in
      let vw : IsValid w qs = record {
        queues = Queues-links k w qs refl refl refl refl v.queues;
        tasks =
            Tasks-priority k.tcbs k.heap.pnode k.current_task qs t u v.tasks (ground arith) refl hp;
      } in
      let state : prioritized k t p ≡ w = rw e refl in
      let stays : moved k qs t p ≡ qs = rw e refl in rw (state, stays) vw

  pub prioritized-IsValid : IsValid (prioritized k t p) (moved k qs t p)
  prioritized-IsValid = elim (Bool-cases ((k.tcbs t).status == ready)) [
    | inl e ↦ prioritized-ready (ground arith)
    | inr e ↦ prioritized-other e
  ]

  pub prioritized-status : (a : Ptr) → ((prioritized k t p).tcbs a).status ≡ (k.tcbs a).status
  unfolding enter_ready add_tail
  prioritized-status a =
      ground
        (arith, (leave_ready-SameTasks (k.tcbs t).priority (queue_node t) k).tcbs, eq-cases t a)

  pub prioritized-same :
      ((prioritized k t p).current_task ≡ k.current_task)
      × ((prioritized k t p).scheduler_lock ≡ k.scheduler_lock)
      × ((prioritized k t p).frame ≡ k.frame)
      × ((prioritized k t p).ready_queue_lock ≡ k.ready_queue_lock)
  unfolding enter_ready add_tail leave_ready remove
  prioritized-same =
      let same = leave_ready-SameTasks (k.tcbs t).priority (queue_node t) k in
      (
        ground (arith, same.current_task),
        ground (arith, same.scheduler_lock),
        ground (arith, same.frame),
        ground arith,
      )

  -- While a task runs and the scheduler is open, a created task gets a new priority up to 63; if it is
  -- ready, it moves to the end of the ready queue of that priority, and in every other case no queue
  -- changes. Then the processor goes to the task that is due by the new priorities.
  pub change_priority-Scheduled :
      k.scheduler_lock ≢ locked
      → k.frame ≢ null
      → (k.tcbs k.current_task).status ≡ running
      → (s : Scheduled (prioritized k t p) (moved k qs t p) (schedule (prioritized k t p)))
        × (((prioritized k t p).tcbs t).priority ≡ p)
        × (change_priority t p k ≡ ok s.after)
  unfolding change_priority
  change_priority-Scheduled free fr run =
      let made = v.tasks.created t created in
      let same = prioritized-same in
      let w = prioritized k t p in
      let free1 : w.scheduler_lock ≢ locked = rw same.1 free in
      let fr1 : w.frame ≢ null = rw same.2 fr in
      let run1 : (w.tcbs w.current_task).status ≡ running =
        rw (same.0, prioritized-status k.current_task) run in
      let s = schedule-running w (moved k qs t p) prioritized-IsValid free1 fr1 run1 in
      let guard : (t == null || ltb lowest_priority p) ≡ false = ground (arith, made.2) in
      (s, ground arith, rw guard s.returns)

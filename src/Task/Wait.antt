-- ===== src/Task/Wait.antt =====
-- `_os_wait_in_queue` of eos_aarch64/core/task.c: the running task enters a wait queue.
use e_os_aarch64_hal.Base.{
  ℕ, ◌<◌, ◌≤◌, ◌≡◌, refl, sym, subst, fun_ext, ◌≢◌, false, List, [], ◌∷◌, ◌++◌, arith, has, ◌∈◌,
  ◌∉◌, ◌==◌, ◌||◌, eq-cases, inl, inr, if◌then◌else◌, Bool-cases, has-append, length,
}
use e_os_aarch64_hal.Base.Run.{Run, ok}
use e_os_aarch64_hal.NodeList.{Ptr, null, Heap}
use e_os_aarch64_hal.NodeList.Ordered.{insert, has-insert}
use e_os_aarch64_hal.Kernel.{
  Kernel, update, queue_node, alarm_node, ready_queue, add_tail, set_tcb, locked,
}
use e_os_aarch64_hal.Kernel.Lists.{Lists}
use e_os_aarch64_hal.Kernel.Queues.{
  Queues, SameNodes, SameTasks, appended, add_tail-Queues, add_tail-SameNodes, add_ordered-Queues,
}
use e_os_aarch64_hal.Task.{running, waiting, schedule, enter_wait, wait_in_queue, insert_by}
use e_os_aarch64_hal.Task.Invariant.{IsValid, Tasks-wait, unlisted}
use e_os_aarch64_hal.Task.Live.{Kept}
use e_os_aarch64_hal.Task.Schedule.{Scheduled, yielded, schedule-Scheduled}

module _ (k : Kernel) (qs : Lists) (q : Ptr) where
  -- The list of a wait queue after the running task entered it.
  abbrev pub waiting_list : ℕ → List Ptr
  waiting_list queue_type =
      if queue_type == 0
      then qs q ++ queue_node k.current_task ∷ []
      else insert k.heap.order_val (queue_node k.current_task) (qs q)

  -- The outcome of entering a wait queue.
  pub record Waits (queue_type : ℕ) (r : Run Kernel) : Type 0 where
    pub state : Kernel
    pub returns : r ≡ ok state
    pub valid : IsValid state (update qs q (waiting_list queue_type))
    pub status : (state.tcbs k.current_task).status ≡ waiting
    pub owner : (state.tcbs k.current_task).wait_queue_owner ≡ q
    pub others : (t : Ptr) → t ≢ k.current_task → state.tcbs t ≡ k.tcbs t
    pub same : SameTasks (record k { tcbs = state.tcbs }) state
    pub kept : Kept k state

module _ (k : Kernel) (qs : Lists) (v : IsValid k qs) (q : Ptr) (far : 64 < q) where
  pub has-waiting_list :
      (queue_type a : ℕ)
      → has a (waiting_list k qs q queue_type) ≡ (a == queue_node k.current_task || has a (qs q))
  has-waiting_list queue_type a = ground (
    arith,
    has-append a (qs q) (queue_node k.current_task ∷ []),
    has-insert k.heap.order_val a (queue_node k.current_task) (qs q),
  )

  tail-form :
      (n : Ptr)
      → ok (add_tail q n k)
        ≡ ok (record k { heap = (add_tail q n k).heap; heads = (add_tail q n k).heads })
  unfolding add_tail
  tail-form n = refl

  tail-Queues :
      (n : Ptr)
      → n ≢ null
      → ((r : Ptr) → n ∉ qs r)
      → Queues
          (record k { heap = (add_tail q n k).heap; heads = (add_tail q n k).heads })
          (appended q n qs)
  unfolding add_tail
  tail-Queues n ne out = add_tail-Queues k qs v.queues q n far ne out

  tail-SameNodes :
      (n : Ptr)
      → SameNodes k (record k { heap = (add_tail q n k).heap; heads = (add_tail q n k).heads })
  unfolding add_tail
  tail-SameNodes n = add_tail-SameNodes k qs v.queues q n

  -- Both insertions leave a state of this form.
  entered :
      (fuel queue_type : ℕ) (h : Heap) (heads : Ptr → Ptr)
      → (k.tcbs k.current_task).status ≡ running
      → insert_by fuel q queue_type (queue_node k.current_task) k
        ≡ ok (record k { heap = h; heads = heads })
      → Queues (record k { heap = h; heads = heads }) (update qs q (waiting_list k qs q queue_type))
      → SameNodes k (record k { heap = h; heads = heads })
      → Waits k qs q queue_type (enter_wait fuel q queue_type k)
  unfolding enter_wait
  entered fuel queue_type h heads run returned queues nodes =
      let t = k.current_task in
      let u = record (k.tcbs t) { wait_queue_owner = q; status = waiting } in
      let k1 = set_tcb t u (record k { heap = h; heads = heads }) in
      let more = λ (a : Ptr). has-waiting_list queue_type a in
      record {
        state = k1;
        returns = rw returned refl;
        valid = record {
          queues = record { rep = queues.rep; bits = queues.bits; agree = queues.agree };
          tasks = rw (fun_ext nodes.pnode) (
              Tasks-wait k.tcbs k.heap.pnode t qs v.tasks q t u (waiting_list k qs q queue_type) far
                run refl refl more);
        };
        status = ground arith;
        owner = ground arith;
        others = λ a ne. ground (arith, eq-cases t a);
        same = record { tcbs = refl; current_task = refl; scheduler_lock = refl; frame = refl };
        kept = record {
          scheduler_lock = refl;
          ready_queue_lock = refl;
          frame = refl;
          alarms = refl;
          semaphores = refl;
          mqueues = refl;
          bytes = refl;
          pnode = λ a. nodes.pnode (alarm_node a);
          order_val = λ a. nodes.order_val (alarm_node a);
        };
      }

  -- The running task enters a wait queue at its end, or in the order of the priorities.
  pub enter_wait-Waits :
      (fuel queue_type : ℕ)
      → (k.tcbs k.current_task).status ≡ running
      → length (qs q) ≤ fuel
      → Waits k qs q queue_type (enter_wait fuel q queue_type k)
  enter_wait-Waits fuel queue_type run f =
      let t = k.current_task in
      let n = queue_node t in
      let made = v.tasks.created t (ground arith) in
      let ne : n ≢ null = ground arith in
      let out = unlisted k.tcbs k.heap.pnode t qs v.tasks t (ground arith) (ground arith) in
      elim (Bool-cases (queue_type == 0)) [
        | inl e ↦
            let k1 = add_tail q n k in
            let lists : update qs q (waiting_list k qs q queue_type) ≡ appended q n qs =
              rw e refl in
            entered fuel queue_type k1.heap k1.heads run (rw e (tail-form n))
              (rw lists (tail-Queues n ne out)) (tail-SameNodes n)
        | inr e ↦
            let (h, heads, returned, queues, nodes) =
              add_ordered-Queues k qs v.queues fuel q n far ne out f in
            let lists : update qs q (waiting_list k qs q queue_type)
                ≡ update qs q (insert k.heap.order_val n (qs q)) =
              rw e refl in
            entered fuel queue_type h heads run (rw e returned) (rw lists queues) nodes
      ]

  -- With the scheduler open, another task ready, and as much fuel as the queue has nodes, the running
  -- task waits at its place in the queue, and the processor goes to the task that is due.
  pub wait_in_queue-Scheduled :
      (fuel queue_type p n : ℕ)
      → (k.tcbs k.current_task).status ≡ running
      → length (qs q) ≤ fuel
      → k.scheduler_lock ≢ locked
      → k.frame ≢ null
      → p < 64
      → n ∈ qs (ready_queue p)
      → (w : Waits k qs q queue_type (enter_wait fuel q queue_type k)) × (s : Scheduled w.state
          (update qs q (waiting_list k qs q queue_type))
          (schedule w.state))
        × (wait_in_queue fuel q queue_type k ≡ ok s.after)
        × ((w.state.tcbs k.current_task).status ≡ waiting)
  unfolding wait_in_queue
  wait_in_queue-Scheduled fuel queue_type p n run f free fr hp i =
      let w = enter_wait-Waits fuel queue_type run f in
      let made = v.tasks.created k.current_task (ground arith) in
      let used : (k.current_task == null) ≡ false = ground arith in
      let qs1 = update qs q (waiting_list k qs q queue_type) in
      let stays : yielded w.state qs1 ≡ qs1 = ground (arith, w.same.current_task, w.status) in
      let here : n ∈ qs1 (ready_queue p) = ground arith in
      let free' : w.state.scheduler_lock ≢ locked = rw w.same.scheduler_lock free in
      let fr' : w.state.frame ≢ null = rw w.same.frame fr in
      let s =
        schedule-Scheduled w.state qs1 p n w.valid free' (λ _. fr') hp
          (subst (λ l. n ∈ l (ready_queue p)) (sym stays) here) in
      (w, s, rw (used, w.returns) s.returns, w.status)

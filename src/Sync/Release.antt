-- ===== src/Sync/Release.antt =====
-- `eos_release_semaphore` and `eos_notify_condition` of eos_aarch64/core/sync.c.
use e_os_aarch64_hal.Base.{◌+◌, ◌<◌, ◌≡◌, refl, subst, ◌≢◌, false, List, [], ◌∷◌, arith, ◌==◌}
use e_os_aarch64_hal.Base.Run.{ok}
use e_os_aarch64_hal.NodeList.{Ptr, null}
use e_os_aarch64_hal.Kernel.{
  Kernel, update, queue_node, wait_queue, ready_queue, enter_ready, remove, locked,
}
use e_os_aarch64_hal.Kernel.Lists.{Lists}
use e_os_aarch64_hal.Kernel.Queues.{appended}
use e_os_aarch64_hal.NodeList.Chain.{Ring}
use e_os_aarch64_hal.Task.{ready, running, schedule, wake_first}
use e_os_aarch64_hal.Task.Invariant.{IsValid, Queues-same}
use e_os_aarch64_hal.Task.Schedule.{Scheduled}
use e_os_aarch64_hal.Task.Wake.{wakeup_from_queue-Scheduled}
use e_os_aarch64_hal.Sync.{release_semaphore, set_count, increment}

module _ (k : Kernel) (qs : Lists) (v : IsValid k qs) (sem : Ptr) where
  -- The state with one more.
  abbrev pub released : Kernel
  released = set_count sem ((k.semaphores sem).count + 1) k

  released-IsValid : IsValid released qs
  released-IsValid = record {
    queues = Queues-same k released qs refl refl refl v.queues;
    tasks = v.tasks;
  }

  -- A release on a count below 127, with nobody in the queue, adds one to the count and changes
  -- nothing else.
  pub release_semaphore-idle :
      sem ≢ null
      → (k.semaphores sem).count < 127
      → qs (wait_queue sem) ≡ []
      → release_semaphore sem k ≡ ok released
  unfolding release_semaphore
  release_semaphore-idle used lt nobody =
      let ring =
        subst (Ring k.heap (k.heads (wait_queue sem))) nobody
          (v.queues.rep.ring (wait_queue sem)) in
      let guard : (sem == null) ≡ false = ground arith in
      let one : increment (k.semaphores sem).count ≡ (k.semaphores sem).count + 1 = ground arith in
      rw (guard, one, ring) refl

  -- With the scheduler open, a release on a count below 127 adds one to the count and makes the first
  -- waiter of the semaphore ready, at the end of the ready queue of its priority; the others stay in
  -- order, and the caller, which runs, yields to the task that is due.
  pub release_semaphore-Scheduled :
      (t : Ptr) (rest : List Ptr)
      → sem ≢ null
      → (k.semaphores sem).count < 127
      → qs (wait_queue sem) ≡ queue_node t ∷ rest
      → k.heap.pnode (queue_node t) ≡ t
      → k.scheduler_lock ≢ locked
      → k.frame ≢ null
      → (k.tcbs k.current_task).status ≡ running
      → let k1 = wake_first (wait_queue sem) released in
        (s : Scheduled k1
          (appended
            (ready_queue (k.tcbs t).priority)
            (queue_node t)
            (update qs (wait_queue sem) rest))
          (schedule k1))
        × ((k1.tcbs t).status ≡ ready)
        × ((k1.semaphores sem).count ≡ (k.semaphores sem).count + 1)
        × (release_semaphore sem k ≡ ok s.after)
  unfolding release_semaphore wake_first enter_ready remove
  release_semaphore-Scheduled t rest used lt first node free fr run =
      let q = wait_queue sem in
      let guard : (sem == null) ≡ false = ground arith in
      let one : increment (k.semaphores sem).count ≡ (k.semaphores sem).count + 1 = ground arith in
      let ring = subst (Ring k.heap (k.heads q)) first (v.queues.rep.ring q) in
      let waiters : (k.heads q == null) ≡ false = ground arith in
      let (s, woken, others, returns) =
        wakeup_from_queue-Scheduled released qs released-IsValid q (omega arith) t rest first node
          free fr run in
      (s, woken, ground arith, rw (guard, one, waiters) returns)

-- ===== src/Task/Alarm.antt =====
-- `_os_wakeup_from_alarm_queue` of eos_aarch64/core/task.c, the handler of a task's alarm.
use e_os_aarch64_hal.Base.{
  ◌||◌, inl, inr, ◌+◌, ◌<◌, ◌≡◌, refl, subst, ◌≢◌, ◌∙◌, true, false, List, [], ◌∷◌, arith, ◌∈◌, ◌∉◌,
  ◌==◌, eq-cases,
}
use e_os_aarch64_hal.NodeList.{Ptr, null, Heap, remove_node, detach, add_node_tail, link_before}
use e_os_aarch64_hal.NodeList.Chain.{Ring}
use e_os_aarch64_hal.Kernel.{
  Kernel, update, queue_node, ready_queue, enter_ready, add_tail, remove, set_tcb, set_status,
}
use e_os_aarch64_hal.Kernel.Lists.{Lists}
use e_os_aarch64_hal.Kernel.Queues.{appended, erased, remove-SameNodes, remove-none}
use e_os_aarch64_hal.Task.{ready, waiting, wake_first, wakeup_from_alarm_queue}
use e_os_aarch64_hal.Task.Invariant.{IsValid, Tasks-same, Queues-same}
use e_os_aarch64_hal.Task.Ready.{make_ready-IsValid}
use e_os_aarch64_hal.Task.Wake.{remove-IsValid, erase-unlisted, wake_first-IsValid, is_waiting}

-- The record of the queue that a task waits in is no part of the invariant.
forget_owner-IsValid :
    (k : Kernel) (qs : Lists) (t : Ptr)
    → IsValid k qs
    → IsValid (set_tcb t (record (k.tcbs t) { wait_queue_owner = null }) k) qs
forget_owner-IsValid k qs t v =
    let k1 = set_tcb t (record (k.tcbs t) { wait_queue_owner = null }) k in
    record {
      queues = Queues-same k k1 qs refl refl refl v.queues;
      tasks =
          Tasks-same k.tcbs k1.tcbs k.heap.pnode k.current_task qs
            (λ u. ground (arith, eq-cases t u)) (λ u. ground (arith, eq-cases t u)) v.tasks;
    }

-- A task that its queue wakes keeps the record of that queue, and its priority.
wake_first-names :
    (k : Kernel) (qs : Lists)
    → IsValid k qs
    → (q t : Ptr) (rest : List Ptr) → qs q ≡ queue_node t ∷ rest
    → k.heap.pnode (queue_node t) ≡ t
    → (((wake_first q k).tcbs t).wait_queue_owner ≡ (k.tcbs t).wait_queue_owner)
      × (((wake_first q k).tcbs t).priority ≡ (k.tcbs t).priority)
unfolding wake_first remove enter_ready
wake_first-names k qs v q t rest first node =
    let ring = subst (Ring k.heap (k.heads q)) first (v.queues.rep.ring q) in
    let task : k.heap.pnode (k.heads q) ≡ t = rw (ring.0) node in
    rw task (ground arith, ground arith)

-- A node that is alone in a list is taken for the only node of whatever list it is removed from.
remove_node-alone :
    (h : Heap) (head n : Ptr)
    → h.next n ≡ n
    → h.prev n ≡ n
    → n ≢ null
    → remove_node head n h ≡ (1, detach n h, null)
unfolding remove_node
remove_node-alone h head n next prev ne =
    let linked : (h.next n == null || h.prev n == null) ≡ false = ground arith in
    let one : (h.next n == n) ≡ true = ground arith in rw (linked, one) refl

-- A node that is off its list but still its head is put in front of itself.
add_node_tail-detached :
    (h : Heap) (n : Ptr) → n ≢ null → (add_node_tail n n (detach n h)).0.next null ≡ n
unfolding add_node_tail link_before detach
add_node_tail-detached h n ne = ground arith

module _ (k : Kernel) (qs : Lists) (v : IsValid k qs) (t : Ptr) where
  -- The alarm of a task that waits in the queue it names, an address of no ready queue, takes the
  -- task out of that queue and puts it at the end of the ready queue of its priority.
  pub wakeup_from_alarm_queue-IsValid :
      (k.tcbs t).status ≡ waiting
      → 64 < (k.tcbs t).wait_queue_owner
      → queue_node t ∈ qs (k.tcbs t).wait_queue_owner
      → IsValid (wakeup_from_alarm_queue t k) (
          appended
            (ready_queue (k.tcbs t).priority)
            (queue_node t)
            (erased (k.tcbs t).wait_queue_owner (queue_node t) qs))
        × (((wakeup_from_alarm_queue t k).tcbs t).status ≡ ready)
        × (((wakeup_from_alarm_queue t k).tcbs t).wait_queue_owner ≡ null)
  unfolding wakeup_from_alarm_queue remove enter_ready
  wakeup_from_alarm_queue-IsValid s far i =
      let q = (k.tcbs t).wait_queue_owner in
      let n = queue_node t in
      let made = v.tasks.created t (ground arith) in
      let used : (q == null) ≡ false = ground arith in
      let same : (t == t) ≡ true = ground arith in
      let k1 = remove q n k in
      let nodes = remove-SameNodes k qs v.queues q n i in
      let k2 = set_tcb t (record (k1.tcbs t) { wait_queue_owner = null }) k1 in
      let v2 = forget_owner-IsValid k1 (erased q n qs) t (remove-IsValid k qs v q far t i) in
      let hp : (k2.tcbs t).priority < 64 = ground arith in
      let e : (k2.tcbs t).priority ≡ (k.tcbs t).priority = ground arith in
      let valid =
        make_ready-IsValid k2 (erased q n qs) v2 t hp (nodes.pnode n ∙ made.1) made.2
          (erase-unlisted k qs v q far t i) in
      let placed =
        subst
          (λ p.
            IsValid (set_status t ready (enter_ready (k2.tcbs t).priority t k2))
              (appended (ready_queue p) n (erased q n qs)))
          e valid in
      rw used (placed, ground arith, ground arith)

  -- The alarm of a task that only sleeps puts it at the end of the ready queue of its priority,
  -- whatever queue the task may still name.
  pub wakeup_from_alarm_queue-asleep :
      (k.tcbs t).status ≡ waiting
      → ((q : Ptr) → queue_node t ∉ qs q)
      → IsValid
          (wakeup_from_alarm_queue t k)
          (appended (ready_queue (k.tcbs t).priority) (queue_node t) qs)
        × (((wakeup_from_alarm_queue t k).tcbs t).status ≡ ready)
  unfolding wakeup_from_alarm_queue
  wakeup_from_alarm_queue-asleep s out =
      let q = (k.tcbs t).wait_queue_owner in
      let n = queue_node t in
      let made = v.tasks.created t (ground arith) in
      let valid = make_ready-IsValid k qs v t made.0 made.1 made.2 out in
      elim (eq-cases q null) [
        | inl e ↦ rw e (valid, ground arith)
        | inr e ↦
            let k2 = set_tcb t (record (k.tcbs t) { wait_queue_owner = null }) k in
            let hp : (k2.tcbs t).priority < 64 = ground arith in
            let same : (k2.tcbs t).priority ≡ (k.tcbs t).priority = ground arith in
            let valid2 =
              make_ready-IsValid k2 qs (forget_owner-IsValid k qs t v) t hp made.1 made.2 out in
            let placed =
              subst
                (λ p.
                  IsValid (set_status t ready (enter_ready (k2.tcbs t).priority t k2))
                    (appended (ready_queue p) n qs))
                same valid2 in
            rw (e, remove-none k q n (v.queues.rep.loose n out)) (placed, ground arith)
      ]

  -- For a ready task that is alone in its ready queue and still names the queue it waited in, the
  -- handler of its alarm empties the head of that queue and writes through NULL.
  wakeup_from_alarm_queue-ready :
      (x : Ptr) (xs : List Ptr)
      → 64 < (k.tcbs t).wait_queue_owner
      → (k.tcbs t).priority < 64
      → qs (ready_queue (k.tcbs t).priority) ≡ queue_node t ∷ []
      → qs (k.tcbs t).wait_queue_owner ≡ x ∷ xs
      → let k1 = wakeup_from_alarm_queue t k in
        (k.heads (k.tcbs t).wait_queue_owner ≡ x)
        × (k1.heads (k.tcbs t).wait_queue_owner ≡ null)
        × (k1.heap.next null ≡ queue_node t)
  unfolding wakeup_from_alarm_queue remove enter_ready add_tail
  wakeup_from_alarm_queue-ready x xs far hp alone others =
      let mine =
        subst (Ring k.heap (k.heads (ready_queue (k.tcbs t).priority))) alone
          (v.queues.rep.ring (ready_queue (k.tcbs t).priority)) in
      let theirs =
        subst (Ring k.heap (k.heads (k.tcbs t).wait_queue_owner)) others
          (v.queues.rep.ring (k.tcbs t).wait_queue_owner) in
      let n = queue_node t in
      let next : k.heap.next n ≡ n = mine.1.0 in
      let prev : k.heap.prev n ≡ n = mine.1.1 in
      let ne : n ≢ null = ground arith in
      let used : ((k.tcbs t).wait_queue_owner == null) ≡ false = ground arith in
      let gone = remove_node-alone k.heap (k.heads (k.tcbs t).wait_queue_owner) n next prev ne in
      let same : (t == t) ≡ true = ground arith in
      let apart : ((k.tcbs t).wait_queue_owner == (k.tcbs t).priority + 1) ≡ false = ground arith in
      (
        theirs.0,
        rw (used, gone, same) (ground arith),
        rw (used, gone, same, apart, mine.0) (add_node_tail-detached k.heap n ne),
      )

-- The first of two and more waiters of a queue is woken, into a ready queue that was empty. It still
-- names the queue it waited in, and if the handler of its alarm runs while it is ready, the handler
-- empties the head of that queue, where the others still wait, and writes through NULL.
pub wakeup_from_alarm_queue-late :
    (k : Kernel) (qs : Lists)
    → IsValid k qs
    → (q t x : Ptr) (xs : List Ptr) → 64 < q
    → qs q ≡ queue_node t ∷ x ∷ xs
    → k.heap.pnode (queue_node t) ≡ t
    → (k.tcbs t).wait_queue_owner ≡ q
    → qs (ready_queue (k.tcbs t).priority) ≡ []
    → let k1 = wake_first q k in
      let k2 = wakeup_from_alarm_queue t k1 in
      ((k1.tcbs t).wait_queue_owner ≡ q)
      × (k1.heads q ≡ x)
      × (k2.heads q ≡ null)
      × (k2.heap.next null ≡ queue_node t)
wakeup_from_alarm_queue-late k qs v q t x xs far first node owner empty =
    let (valid, woken, others) = wake_first-IsValid k qs v q far t (x ∷ xs) first node in
    let (names, same) = wake_first-names k qs v q t (x ∷ xs) first node in
    let k1 = wake_first q k in
    let p = (k.tcbs t).priority in
    let made =
      v.tasks.created t (ground (arith, is_waiting k qs v q far t (ground (arith, first)))) in
    let lists = appended (ready_queue p) (queue_node t) (update qs q (x ∷ xs)) in
    let named : (k1.tcbs t).wait_queue_owner ≡ q = names ∙ owner in
    let alone : lists (ready_queue (k1.tcbs t).priority) ≡ queue_node t ∷ [] =
      rw same (ground (arith, empty)) in
    let wait : lists (k1.tcbs t).wait_queue_owner ≡ x ∷ xs = rw named (ground arith) in
    let low : (k1.tcbs t).priority < 64 = rw same made.0 in
    let (here, gone, broken) =
      wakeup_from_alarm_queue-ready k1 lists valid t x xs (rw named far) low alone wait in
    (
      named,
      subst (λ r. k1.heads r ≡ x) named here,
      subst (λ r. (wakeup_from_alarm_queue t k1).heads r ≡ null) named gone,
      broken,
    )

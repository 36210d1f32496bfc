-- ===== src/Timer/Alarms.antt =====
-- `eos_set_alarm` of eos_aarch64/core/timer.c.
use e_os_aarch64_hal.Base.{
  ne_of_mem, ℕ, ◌+◌, ◌%◌, ◌^◌, ◌≤◌, ◌<◌, ◌≡◌, refl, sym, ap, subst, fun_ext, ◌≢◌, inl, inr, ◌∙◌,
  false, List, [], ◌∷◌, arith, ◌∈◌, ◌∉◌, ◌==◌, ◌||◌, eq-cases, Bool-cases, has, erase, has-erase_ne,
  erase-not-mem, length,
}
use e_os_aarch64_hal.Base.Run.{Run, ok}
use e_os_aarch64_hal.NodeList.{Ptr, null}
use e_os_aarch64_hal.NodeList.Chain.{Ring-Distinct}
use e_os_aarch64_hal.NodeList.Ordered.{insert, has-insert, IsOrdered, insert-IsOrdered}
use e_os_aarch64_hal.Kernel.{Tcb, Kernel, update, queue_node, alarm_node, alarm_queue, remove}
use e_os_aarch64_hal.Kernel.Lists.{Lists}
use e_os_aarch64_hal.Kernel.Queues.{
  Queues, SameTasks, erased, remove-Queues, remove-SameNodes, remove-none, add_ordered-Queues,
}
use e_os_aarch64_hal.Task.Invariant.{Tasks, IsValid, Queues-links}
use e_os_aarch64_hal.Task.Live.{remove_node-fields}
use e_os_aarch64_hal.Timer.{set_alarm, prepare_alarm}

pub erase-absent : (n : ℕ) (xs : List ℕ) → n ∉ xs → erase n xs ≡ xs
unfolding erase
erase-absent n [] out = refl
erase-absent n (x ∷ xs) out = ground (arith, erase-absent n xs)

length-erase : (n : ℕ) (xs : List ℕ) → length (erase n xs) ≤ length xs
unfolding erase
length-erase n [] = omega arith
length-erase n (x ∷ xs) = ground (arith, length-erase n xs)

IsOrdered-erase :
    (order : Ptr → ℕ) (n : Ptr) (xs : List Ptr) → IsOrdered order xs → IsOrdered order (erase n xs)
unfolding erase
IsOrdered-erase order n [] s = tt
IsOrdered-erase order n (x ∷ []) s = ground arith
IsOrdered-erase order n (x ∷ y ∷ []) s = ground arith
IsOrdered-erase order n (x ∷ y ∷ z ∷ l) s = ground (arith, IsOrdered-erase order n (y ∷ z ∷ l) s.1)

pub IsOrdered-same :
    (order order' : Ptr → ℕ) (xs : List Ptr)
    → ((a : Ptr) → a ∈ xs → order' a ≡ order a)
    → IsOrdered order xs
    → IsOrdered order' xs
IsOrdered-same order order' [] same s = tt
IsOrdered-same order order' (x ∷ []) same s = tt
IsOrdered-same order order' (x ∷ y ∷ l) same s =
    let rest = IsOrdered-same order order' (y ∷ l) (λ a i. same a (ground arith)) s.1 in
    (ground (arith, same x, same y), rest)

-- The nodes of alarms come and go in the queues of counters without a task taking notice.
pub Tasks-alarm :
    (tcbs : Ptr → Tcb) (pnode pnode' : Ptr → ℕ) (current : Ptr) (qs : Lists) (q : Ptr)
    (xs : List Ptr)
    → Tasks tcbs pnode current qs
    → 64 < q
    → ((t : Ptr) → has (queue_node t) xs ≡ has (queue_node t) (qs q))
    → ((t : Ptr) → pnode' (queue_node t) ≡ pnode (queue_node t))
    → Tasks tcbs pnode' current (update qs q xs)
Tasks-alarm tcbs pnode pnode' current qs q xs v far more same = record {
  created = λ t ne. ground (arith, v.created t ne, same t);
  member = λ r t i. ground (arith, v.member r t, more t, eq-cases q r);
  listed = λ t e. ground (arith, v.listed t e, v.created t);
  nodes = λ p n hp i.
      let e : n ≡ queue_node (pnode n) = v.nodes p n hp (ground arith) in
      let kept : pnode' n ≡ pnode n = subst (λ a. pnode' a ≡ pnode a) (sym e) (same (pnode n)) in
      ground arith;
  running = v.running;
}

-- The outcome of setting an alarm that is to go off.
pub record Armed (k : Kernel) (qs : Lists) (counter alarm timeout entry arg : ℕ) (r : Run Kernel)
    : Type 0 where
  pub state : Kernel
  pub returns : r ≡ ok state
  pub valid : IsValid state (
      update qs (alarm_queue counter) (
        insert state.heap.order_val
          (alarm_node alarm)
          (erase (alarm_node alarm) (qs (alarm_queue counter)))))
  pub ordered : IsOrdered state.heap.order_val (
      insert state.heap.order_val
        (alarm_node alarm)
        (erase (alarm_node alarm) (qs (alarm_queue counter))))
  pub due : state.heap.order_val (alarm_node alarm) ≡ (k.ticks counter + timeout) % 2 ^ 32
  pub armed :
      state.alarms alarm
      ≡ record { timeout = (k.ticks counter + timeout) % 2 ^ 32; handler = entry; arg = arg }
  pub ticks : state.ticks ≡ k.ticks
  pub same : SameTasks k state
  pub ready_queue_lock : state.ready_queue_lock ≡ k.ready_queue_lock
  pub semaphores : state.semaphores ≡ k.semaphores
  pub mqueues : state.mqueues ≡ k.mqueues
  pub bytes : state.bytes ≡ k.bytes
  pub back : state.heap.pnode (alarm_node alarm) ≡ alarm
  pub others :
      (b : Ptr)
      → b ≢ alarm
      → (state.alarms b ≡ k.alarms b)
        × (state.heap.pnode (alarm_node b) ≡ k.heap.pnode (alarm_node b))
        × (state.heap.order_val (alarm_node b) ≡ k.heap.order_val (alarm_node b))

module _ (k : Kernel) (qs : Lists) (v : IsValid k qs) (counter alarm : Ptr) where
  -- The state after the alarm left the counter.
  pub removed-IsValid :
      ((r : Ptr) → r ≢ alarm_queue counter → alarm_node alarm ∉ qs r)
      → let q = alarm_queue counter in
        let n = alarm_node alarm in
        IsValid (remove q n k) (erased q n qs)
        × ((r : Ptr) → n ∉ erased q n qs r)
        × ((a : Ptr) → (remove q n k).heap.order_val a ≡ k.heap.order_val a)
  unfolding remove
  removed-IsValid out =
      let q = alarm_queue counter in
      let n = alarm_node alarm in
      let distinct = Ring-Distinct k.heap (k.heads q) (qs q) (v.queues.rep.ring q) in
      let gone = erase-not-mem n (qs q) distinct in
      let loose : (r : Ptr) → n ∉ erased q n qs r =
        λ r. ground (arith, gone, out r, eq-cases q r) in
      elim (Bool-cases (has n (qs q))) [
        | inl i ↦
            let nodes = remove-SameNodes k qs v.queues q n i in
            (
              record {
                queues = remove-Queues k qs v.queues q n (omega arith) i;
                tasks =
                    Tasks-alarm k.tcbs k.heap.pnode (remove q n k).heap.pnode k.current_task qs q
                      (erase n (qs q)) v.tasks (omega arith)
                      (λ t. has-erase_ne (queue_node t) n (qs q) (ground arith))
                      (λ t. nodes.pnode (queue_node t));
              },
              loose,
              nodes.order_val,
            )
        | inr e ↦
            let absent : (r : Ptr) → n ∉ qs r = λ r. ground (arith, e, out r, eq-cases q r) in
            let still = remove-none k q n (v.queues.rep.loose n absent) in
            let lists : erased q n qs ≡ qs =
              fun_ext λ r. ground (arith, erase-absent n (qs q) e, eq-cases q r) in
            (rw (still, lists) v, loose, λ a. ap (λ (j : Kernel). j.heap.order_val a) still)
      ]

  -- An alarm that is in no queue but the counter's, set with a timeout other than 0 and a handler,
  -- leaves the counter's queue if it is there and enters it again behind the alarms that are due no
  -- later, with the time at which it is due. With as much fuel as the queue has nodes the call
  -- returns; an ordered queue stays ordered, and the state stays in order.
  pub set_alarm-Armed :
      (fuel timeout entry arg : ℕ)
      → counter ≢ null
      → alarm ≢ null
      → timeout ≢ 0
      → entry ≢ null
      → ((r : Ptr) → r ≢ alarm_queue counter → alarm_node alarm ∉ qs r)
      → IsOrdered k.heap.order_val (qs (alarm_queue counter))
      → length (qs (alarm_queue counter)) ≤ fuel
      → Armed k qs counter alarm timeout entry arg
          (set_alarm fuel counter alarm timeout entry arg k)
  unfolding set_alarm prepare_alarm remove
  set_alarm-Armed fuel timeout entry arg nc na nt ne out sorted f =
      let q = alarm_queue counter in
      let n = alarm_node alarm in
      let guard : (counter == null || alarm == null) ≡ false = ground arith in
      let due : (timeout == 0 || entry == null) ≡ false = ground arith in
      let (v1, loose, order) = removed-IsValid out in
      let k1 = remove q n k in
      let same : (a : Ptr) → k1.heap.pnode a ≡ k.heap.pnode a =
        λ a. ap (λ (f : Ptr → Ptr). f a) (remove_node-fields (k.heads q) n k.heap).0 in
      let k2 = prepare_alarm counter alarm timeout entry arg k1 in
      let qs1 = erased q n qs in
      let links = Queues-links k1 k2 qs1 refl refl refl refl v1.queues in
      let here : qs1 q ≡ erase n (qs q) = ground arith in
      let fits : length (qs1 q) ≤ fuel = ground (arith, length-erase n (qs q)) in
      let (h, heads, returned, queues, nodes) =
        add_ordered-Queues k2 qs1 links fuel q n (omega arith) (omega arith) loose fits in
      let state = record k2 { heap = h; heads = heads } in
      let left = erase n (qs q) in
      let queue = insert h.order_val n left in
      let stored : insert k2.heap.order_val n (qs1 q) ≡ queue =
        rw (here, fun_ext nodes.order_val) refl in
      let lists : update qs1 q queue ≡ update qs q queue =
        fun_ext λ r. ground (arith, eq-cases q r) in
      let held =
        subst (Queues state) lists (subst (λ l. Queues state (update qs1 q l)) stored queues) in
      let tasks =
        Tasks-alarm k.tcbs k1.heap.pnode h.pnode k.current_task qs1 q queue v1.tasks (omega arith)
          (λ t. rw here (ground (arith, has-insert h.order_val (queue_node t) n left)))
          (λ t. nodes.pnode (queue_node t) ∙ ground arith) in
      let absent : n ∉ left = subst (λ l. n ∉ l) here (loose q) in
      let kept : (a : Ptr) → a ∈ left → h.order_val a ≡ k.heap.order_val a =
        λ a i. ground (arith, nodes.order_val a, order a, ne_of_mem left i absent) in
      record {
        state = state;
        returns = rw (guard, due) returned;
        valid = record {
          queues = held;
          tasks = subst (λ l. Tasks k.tcbs h.pnode k.current_task l) lists tasks;
        };
        ordered = insert-IsOrdered h.order_val n left (
            IsOrdered-same k.heap.order_val h.order_val left kept
              (IsOrdered-erase k.heap.order_val n (qs q) sorted));
        due = nodes.order_val n ∙ ground arith;
        armed = ground arith;
        ticks = refl;
        same = record { tcbs = refl; current_task = refl; scheduler_lock = refl; frame = refl };
        ready_queue_lock = refl;
        semaphores = refl;
        mqueues = refl;
        bytes = refl;
        back = nodes.pnode n ∙ ground arith;
        others = λ b nb. (
          ground arith,
          ground (arith, nodes.pnode (alarm_node b), same (alarm_node b)),
          ground (arith, nodes.order_val (alarm_node b), order (alarm_node b)),
        );
      }

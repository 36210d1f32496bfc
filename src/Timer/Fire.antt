-- ===== src/Timer/Fire.antt =====
-- One alarm goes off: its node leaves the queue of the counter, and its handler wakes the task.
use e_os_aarch64_hal.Base.{
  ℕ, ◌<◌, ◌≡◌, refl, ap, subst, ◌≢◌, ◌⊎◌, inl, inr, ◌∙◌, false, List, [], ◌∷◌, arith, ◌∈◌, ◌∉◌,
  ◌==◌, eq-cases, Bool-cases, has, erase, has-erase, has-erase_ne, has-append, erase_append,
}
use e_os_aarch64_hal.NodeList.{Ptr, null}
use e_os_aarch64_hal.Kernel.{Tcb, Kernel, queue_node, alarm_node, alarm_queue, ready_queue, remove}
use e_os_aarch64_hal.Kernel.Lists.{Lists}
use e_os_aarch64_hal.Kernel.Queues.{appended, erased}
use e_os_aarch64_hal.Task.{ready, waiting, wakeup_from_alarm_queue}
use e_os_aarch64_hal.Task.Invariant.{IsValid}
use e_os_aarch64_hal.Task.Alarm.{wakeup_from_alarm_queue-IsValid, wakeup_from_alarm_queue-asleep}
use e_os_aarch64_hal.Timer.{wakeup_handler}
use e_os_aarch64_hal.Timer.Alarms.{removed-IsValid}
use e_os_aarch64_hal.Timer.Untouched.{
  SameAlarms-trans, SameAlarms, remove-SameAlarms, remove-tcbs, wakeup-Untouched,
}

-- The alarm at a node of the queue belongs to a task that waits for it: in the queue that the task
-- names, or in no queue.
abbrev pub Waiter : Kernel → Lists → Ptr → Type 0
Waiter k qs n =
    let t = k.heap.pnode n in
    let owner = (k.tcbs t).wait_queue_owner in
    (n ≡ alarm_node t)
    × (t ≢ null)
    × (k.alarms t ≡ record { timeout = k.heap.order_val n; handler = wakeup_handler; arg = t })
    × ((k.tcbs t).status ≡ waiting)
    × (((64 < owner) × (queue_node t ∈ qs owner)) ⊎ ((q : Ptr) → queue_node t ∉ qs q))

-- The state after an alarm went off.
pub record Fired (k : Kernel) (qs : Lists) (counter t : Ptr) (rest : List Ptr) (k' : Kernel)
    : Type 0 where
  pub lists : Lists
  pub valid : IsValid k' lists
  pub queue : lists (alarm_queue counter) ≡ rest
  pub status : (k'.tcbs t).status ≡ ready
  pub same : SameAlarms k k'
  pub others : (u : Ptr) → u ≢ t → k'.tcbs u ≡ k.tcbs u
  pub nodes : (u q : Ptr) → u ≢ t → has (queue_node u) (lists q) ≡ has (queue_node u) (qs q)
  pub homes : (u q : Ptr) → alarm_node u ∈ lists q → alarm_node u ∈ qs q
  pub waiters : (m : Ptr) → m ∈ rest → Waiter k' lists m

-- A waiter stays one when the alarm of another task goes off.
Waiter-fired :
    (k k' : Kernel) (qs lists : Lists) (t m : Ptr)
    → SameAlarms k k'
    → ((u : Ptr) → u ≢ t → k'.tcbs u ≡ k.tcbs u)
    → ((u q : Ptr) → u ≢ t → has (queue_node u) (lists q) ≡ has (queue_node u) (qs q))
    → k.heap.pnode m ≢ t
    → Waiter k qs m
    → Waiter k' lists m
Waiter-fired k k' qs lists t m same others kept ne (node, made, alarm, status, place) =
    let u = k.heap.pnode m in
    let at : k'.heap.pnode m ≡ u = ap (λ (f : Ptr → ℕ). f m) same.pnode in
    let time : k'.heap.order_val m ≡ k.heap.order_val m =
      ap (λ (f : Ptr → ℕ). f m) same.order_val in
    let task = others u ne in
    let there : ((64 < (k.tcbs u).wait_queue_owner)
          × (queue_node u ∈ lists (k.tcbs u).wait_queue_owner))
        ⊎ ((q : Ptr) → queue_node u ∉ lists q) =
      elim place [
        | inl (far, i) ↦ inl (far, kept u (k.tcbs u).wait_queue_owner ne ∙ i)
        | inr out ↦ inr (λ q. kept u q ne ∙ out q)
      ] in
    rw (at, time, task, same.alarms) (node, made, alarm, status, there)

module _ (k : Kernel) (qs : Lists) (v : IsValid k qs) (counter t : Ptr) (rest : List Ptr)
    (first : qs (alarm_queue counter) ≡ alarm_node t ∷ rest)
    (waiters : (m : Ptr) → m ∈ alarm_node t ∷ rest → Waiter k qs m) where
  abbrev k1 : Kernel
  k1 = remove (alarm_queue counter) (alarm_node t) k

  abbrev qs1 : Lists
  qs1 = erased (alarm_queue counter) (alarm_node t) qs

  removed : IsValid k1 qs1 × (qs1 (alarm_queue counter) ≡ rest) × (alarm_node t ∉ rest)
  removed =
      let q = alarm_queue counter in
      let i : alarm_node t ∈ qs q = rw first (ground arith) in
      let (v1, loose, order) = removed-IsValid k qs v counter t (λ r ne.
        ground (
          arith,
          v.queues.rep.apart q r (alarm_node t) i,
          Bool-cases (has (alarm_node t) (qs r)),
        )) in
      let left : erase (alarm_node t) (qs q) ≡ rest =
        rw first (erase_append (alarm_node t) [] rest refl) in
      let same : qs1 q ≡ rest = ground (arith, left) in
      (v1, same, subst (λ l. alarm_node t ∉ l) same (loose q))

  kept : (u q : Ptr) → has (queue_node u) (qs1 q) ≡ has (queue_node u) (qs q)
  kept u q = ground (
    arith,
    has-erase_ne (queue_node u) (alarm_node t) (qs (alarm_queue counter)),
    eq-cases (alarm_queue counter) q,
  )

  mine : Waiter k qs (alarm_node t) × (k.heap.pnode (alarm_node t) ≡ t)
  mine = let w = waiters (alarm_node t) (ground arith) in (w, omega (arith, w.0))

  finish :
      (lists : Lists)
      → IsValid (wakeup_from_alarm_queue t k1) lists
      → ((wakeup_from_alarm_queue t k1).tcbs t).status ≡ ready
      → lists (alarm_queue counter) ≡ rest
      → ((u q : Ptr) → u ≢ t → has (queue_node u) (lists q) ≡ has (queue_node u) (qs1 q))
      → ((u q : Ptr) → alarm_node u ∈ lists q → alarm_node u ∈ qs1 q)
      → Fired k qs counter t rest (wakeup_from_alarm_queue t k1)
  finish lists valid status queue same fewer =
      let k2 = wakeup_from_alarm_queue t k1 in
      let (s, o) = wakeup-Untouched t k1 in
      let left =
        SameAlarms-trans k k1 k2 (remove-SameAlarms (alarm_queue counter) (alarm_node t) k) s in
      let tcbs = remove-tcbs (alarm_queue counter) (alarm_node t) k in
      let others : (u : Ptr) → u ≢ t → k2.tcbs u ≡ k.tcbs u =
        λ u ne. o u ne ∙ ap (λ (f : Ptr → Tcb). f u) tcbs in
      record {
        lists = lists;
        valid = valid;
        queue = queue;
        status = status;
        same = left;
        others = others;
        nodes = λ u q ne. same u q ne ∙ kept u q;
        homes = λ u q i. ground (
          arith,
          fewer u q i,
          has-erase (alarm_node u) (alarm_node t) (qs (alarm_queue counter)),
          eq-cases (alarm_queue counter) q,
        );
        waiters = λ m i.
            let w = waiters m (ground arith) in
            Waiter-fired k k2 qs lists t m left others (λ u q ne. same u q ne ∙ kept u q)
              (λ e. absurd (ground (arith, w.0, removed.2, e))) w;
      }

  -- No task's own node is among the alarms.
  wrong : queue_node t ∉ qs (alarm_queue counter)
  wrong = elim (Bool-cases (has (queue_node t) (alarm_node t ∷ rest))) [
    | inl i ↦ absurd (omega (arith, (waiters (queue_node t) i).0))
    | inr e ↦ rw first e
  ]

  -- The head of the queue goes off.
  pub fire : Fired k qs counter t rest (wakeup_from_alarm_queue t k1)
  fire =
      let (v1, queue, gone) = removed in
      let ((node, made, alarm, status, place), back) = mine in
      let tcbs : k1.tcbs t ≡ k.tcbs t =
        ap (λ (f : Ptr → Tcb). f t) (remove-tcbs (alarm_queue counter) (alarm_node t) k) in
      let waits : (k1.tcbs t).status ≡ waiting =
        rw tcbs (subst (λ u. (k.tcbs u).status ≡ waiting) back status) in
      let made1 = v1.tasks.created t (ground arith) in
      let p = (k1.tcbs t).priority in
      let owner = (k1.tcbs t).wait_queue_owner in
      let place1 : ((64 < owner) × (queue_node t ∈ qs owner)) ⊎ ((q : Ptr) → queue_node t ∉ qs q) =
        rw tcbs (
          subst
            (λ u.
              ((64 < (k.tcbs u).wait_queue_owner) × (queue_node u ∈ qs (k.tcbs u).wait_queue_owner))
              ⊎ ((q : Ptr) → queue_node u ∉ qs q))
            back place) in
      let more = λ (u : Ptr) (l : List Ptr). has-append (queue_node u) l (queue_node t ∷ []) in
      elim place1 [
        | inl (far, i) ↦
            let (valid, woken, clear) =
              wakeup_from_alarm_queue-IsValid k1 qs1 v1 t waits far (kept t owner ∙ i) in
            let qs2 = erased owner (queue_node t) qs1 in
            let apart : (owner == alarm_queue counter) ≡ false =
              ground (arith, eq-cases owner (alarm_queue counter), wrong) in
            finish (appended (ready_queue p) (queue_node t) qs2) valid woken (ground (arith, queue))
              (λ u q ne. ground (
                arith,
                more u (qs2 q),
                has-erase_ne (queue_node u) (queue_node t) (qs1 q),
                eq-cases owner q,
                eq-cases (ready_queue p) q,
              ))
              (λ u q i. ground (
                arith,
                has-append (alarm_node u) (qs2 (ready_queue p)) (queue_node t ∷ []),
                has-erase (alarm_node u) (queue_node t) (qs1 owner),
                eq-cases owner q,
                eq-cases (ready_queue p) q,
                eq-cases owner (ready_queue p),
              ))
        | inr out ↦
            let (valid, woken) =
              wakeup_from_alarm_queue-asleep k1 qs1 v1 t waits (λ q. kept t q ∙ out q) in
            finish (appended (ready_queue p) (queue_node t) qs1) valid woken (ground (arith, queue))
              (λ u q ne. ground (arith, more u (qs1 q), eq-cases (ready_queue p) q))
              (λ u q i. ground (
                arith,
                has-append (alarm_node u) (qs1 q) (queue_node t ∷ []),
                eq-cases (ready_queue p) q,
              ))
      ]

-- ===== src/Timer/Sleepers.antt =====
-- The alarms of eos_aarch64/core/timer.c between two calls: each belongs to a task that sleeps.
use e_os_aarch64_hal.Base.{
  ◌≡◌, refl, sym, ap, subst, ◌≢◌, ◌∙◌, [], ◌∷◌, inl, inr, arith, ◌∈◌, ◌∉◌, ◌==◌, eq-cases,
  Bool-cases, has, has-append, has-erase,
}
use e_os_aarch64_hal.NodeList.{Ptr, null}
use e_os_aarch64_hal.NodeList.Ordered.{IsOrdered}
use e_os_aarch64_hal.Kernel.{
  Alarm, Kernel, queue_node, alarm_node, alarm_queue, ready_queue, system_timer,
}
use e_os_aarch64_hal.Kernel.Lists.{Lists}
use e_os_aarch64_hal.Kernel.Queues.{appended, erased}
use e_os_aarch64_hal.Task.{running, waiting, schedule}
use e_os_aarch64_hal.Task.Invariant.{IsValid}
use e_os_aarch64_hal.Task.Schedule.{Scheduled, yielded}
use e_os_aarch64_hal.Task.Live.{Kept, dispatched}
use e_os_aarch64_hal.Timer.{wakeup_handler}
use e_os_aarch64_hal.Timer.Alarms.{IsOrdered-same}

-- A task that waits in no queue.
abbrev pub Asleep : Kernel → Lists → Ptr → Type 0
Asleep k qs t = ((k.tcbs t).status ≡ waiting) × ((q : Ptr) → queue_node t ∉ qs q)

-- The node is that of the alarm of a sleeping task, which the handler wakes.
abbrev pub Sleeper : Kernel → Lists → Ptr → Type 0
Sleeper k qs n =
    let t = k.heap.pnode n in
    (n ≡ alarm_node t)
    × (t ≢ null)
    × (k.alarms t ≡ record { timeout = k.heap.order_val n; handler = wakeup_handler; arg = t })
    × Asleep k qs t

-- Alarms are set on the system timer only, in the order in which they are due, by tasks that sleep.
pub record IsTimed (k : Kernel) (qs : Lists) : Type 0 where
  pub homes : (t q : Ptr) → alarm_node t ∈ qs q → q ≡ alarm_queue system_timer
  pub sleepers : (n : Ptr) → n ∈ qs (alarm_queue system_timer) → Sleeper k qs n
  pub sorted : IsOrdered k.heap.order_val (qs (alarm_queue system_timer))

-- What a call may do to the lists and the tasks without an alarm taking notice.
pub record Beside (k : Kernel) (qs : Lists) (k' : Kernel) (qs' : Lists) : Type 0 where
  pub homes : (t q : Ptr) → alarm_node t ∈ qs' q → alarm_node t ∈ qs q
  pub queue : qs' (alarm_queue system_timer) ≡ qs (alarm_queue system_timer)
  pub asleep : (t : Ptr) → Asleep k qs t → Asleep k' qs' t

pub Beside-trans :
    (j k l : Kernel) (qs rs ts : Lists) → Beside j qs k rs → Beside k rs l ts → Beside j qs l ts
Beside-trans j k l qs rs ts a b = record {
  homes = λ t q i. a.homes t q (b.homes t q i);
  queue = b.queue ∙ a.queue;
  asleep = λ t s. b.asleep t (a.asleep t s);
}

pub Beside-IsTimed :
    (k k' : Kernel) (qs qs' : Lists)
    → Kept k k'
    → Beside k qs k' qs'
    → IsTimed k qs
    → IsTimed k' qs'
Beside-IsTimed k k' qs qs' kept b timed =
    let q = alarm_queue system_timer in
    let back : (n : Ptr) → n ∈ qs' q → n ∈ qs q = λ n i. subst (λ l. n ∈ l) b.queue i in
    let order : (n : Ptr) → n ∈ qs q → k'.heap.order_val n ≡ k.heap.order_val n = λ n i.
      let s = timed.sleepers n i in
      subst (λ a. k'.heap.order_val a ≡ k.heap.order_val a) (sym s.0)
        (kept.order_val (k.heap.pnode n)) in
    record {
      homes = λ t r i. timed.homes t r (b.homes t r i);
      sleepers = λ n i.
          let s = timed.sleepers n (back n i) in
          let t = k.heap.pnode n in
          let node : k'.heap.pnode n ≡ t =
            subst (λ a. k'.heap.pnode a ≡ k.heap.pnode a) (sym s.0) (kept.pnode t) in
          let alarm : k'.alarms t ≡ k.alarms t = ap (λ (f : Ptr → Alarm). f t) kept.alarms in
          rw (node, order n (back n i), alarm) (s.0, s.1, s.2, b.asleep t s.3);
      sorted =
          rw b.queue (IsOrdered-same k.heap.order_val k'.heap.order_val (qs q) order timed.sorted);
    }

-- The lists with one node of a task more in a queue that is not the timer's.
pub Beside-appended :
    (k k' : Kernel) (qs : Lists) (q t : Ptr)
    → q ≢ alarm_queue system_timer
    → (k.tcbs t).status ≢ waiting
    → ((u : Ptr) → u ≢ t → k'.tcbs u ≡ k.tcbs u)
    → Beside k qs k' (appended q (queue_node t) qs)
Beside-appended k k' qs q t far awake others =
    let more = λ (n : Ptr). has-append n (qs q) (queue_node t ∷ []) in
    record {
      homes = λ u r i. ground (arith, more (alarm_node u), eq-cases q r);
      queue = ground arith;
      asleep = λ u s. elim (eq-cases u t) [
        | inl e ↦ absurd (ground (arith, s.0))
        | inr ne ↦ (
          rw (others u (ground arith)) s.0,
          λ r. ground (arith, more (queue_node u), s.1 r, eq-cases q r),
        )
      ];
    }

-- The lists with a node taken out of a queue that is not the timer's.
pub Beside-erased :
    (k k' : Kernel) (qs : Lists) (q n : Ptr)
    → q ≢ alarm_queue system_timer
    → ((u : Ptr) → Asleep k qs u → k'.tcbs u ≡ k.tcbs u)
    → Beside k qs k' (erased q n qs)
Beside-erased k k' qs q n far others =
    let fewer = λ (a : Ptr). has-erase a n (qs q) in
    record {
      homes = λ u r i. ground (arith, fewer (alarm_node u), eq-cases q r);
      queue = ground arith;
      asleep = λ u s.
          (rw (others u s) s.0, λ r. ground (arith, fewer (queue_node u), s.1 r, eq-cases q r));
    }

-- No list changes, and no task starts or ends to wait.
pub Beside-same :
    (k k' : Kernel) (qs : Lists)
    → ((u : Ptr) → (k'.tcbs u).status ≡ (k.tcbs u).status)
    → Beside k qs k' qs
Beside-same k k' qs same = record {
  homes = λ t q i. i;
  queue = refl;
  asleep = λ t s. (same t ∙ s.0, s.1);
}

module _ (k : Kernel) (qs : Lists) (v : IsValid k qs) (s : Scheduled k qs (schedule k)) where
  yielded-Beside : Beside k qs k (yielded k qs)
  yielded-Beside = elim (Bool-cases ((k.tcbs k.current_task).status == running)) [
    | inl e ↦
        let run : (k.tcbs k.current_task).status ≡ running = ground arith in
        let made = v.tasks.created k.current_task (ground arith) in
        let lists : yielded k qs
            ≡ appended (ready_queue (k.tcbs k.current_task).priority) (queue_node k.current_task)
                qs =
          rw e refl in
        rw lists (
          Beside-appended k k qs (ready_queue (k.tcbs k.current_task).priority) k.current_task
            (ground (arith, made.0)) (ground arith) (λ u ne. refl))
    | inr e ↦ let lists : yielded k qs ≡ qs = rw e refl in rw lists (Beside-same k k qs (λ u. refl))
  ]

  -- A switch takes no notice of the alarms.
  pub schedule-Beside : Beside k qs s.after (dispatched k qs (schedule k) s)
  schedule-Beside =
      let y = yielded-Beside in
      let q = ready_queue (k.tcbs s.task).priority in
      let fewer : (n r : Ptr) → n ∈ dispatched k qs (schedule k) s r → n ∈ yielded k qs r =
        λ n r i. ground (arith, s.first, eq-cases q r) in
      record {
        homes = λ t r i. y.homes t r (fewer (alarm_node t) r i);
        queue = ground (arith, s.in_range, y.queue);
        asleep = λ t a.
            let b = y.asleep t a in
            let other : t ≢ s.task = ground (arith, s.first, b.1 q) in
            (
              s.resting t other (ground (arith, a.0)) ∙ a.0,
              λ r. elim (Bool-cases (has (queue_node t) (dispatched k qs (schedule k) s r))) [
                | inl i ↦ absurd (ground (arith, b.1 r, fewer (queue_node t) r i))
                | inr e ↦ e
              ],
            );
      }

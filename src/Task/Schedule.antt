-- ===== src/Task/Schedule.antt =====
-- `eos_schedule`: the running task yields, its stack pointer is saved, and the next task is
-- dispatched.
use e_os_aarch64_hal.Base.{
  ℕ, ◌<◌, ◌≤◌, ◌≡◌, refl, sym, ap, subst, ◌≢◌, ◌∙◌, false, List, ◌∷◌, arith, ◌∈◌, ◌==◌, eq-cases,
  inl, inr, if◌then◌else◌, Bool-cases,
}
use e_os_aarch64_hal.Base.Run.{Run, ok}
use e_os_aarch64_hal.NodeList.{Ptr, null}
use e_os_aarch64_hal.Kernel.{
  Tcb, Kernel, update, queue_node, ready_queue, enter_ready, set_tcb, set_status, locked,
}
use e_os_aarch64_hal.Kernel.Lists.{Lists}
use e_os_aarch64_hal.Kernel.Queues.{appended, enter_ready-SameTasks}
use e_os_aarch64_hal.Task.{ready, running, yield_current, schedule}
use e_os_aarch64_hal.Task.Invariant.{IsValid, Tasks-same, Queues-same, unlisted}
use e_os_aarch64_hal.Task.Ready.{make_ready-IsValid}
use e_os_aarch64_hal.Task.Dispatch.{dispatch-Dispatched}

-- The lists after the running task went to the end of the ready queue of its priority.
abbrev pub yielded : Kernel → Lists → Lists
yielded k qs =
    if (k.tcbs k.current_task).status == running
    then appended (ready_queue (k.tcbs k.current_task).priority) (queue_node k.current_task) qs
    else qs

-- A locked scheduler switches to no task and changes nothing.
pub schedule-locked : (k : Kernel) → k.scheduler_lock ≡ locked → schedule k ≡ ok k
unfolding schedule
schedule-locked k e = ground arith

-- The state in which the dispatcher runs.
pub record Yielded (k : Kernel) (qs : Lists) (y : Kernel) : Type 0 where
  pub valid : IsValid y (yielded k qs)
  pub idle : (t : Ptr) → (y.tcbs t).status ≢ running
  pub others : (t : Ptr) → t ≢ k.current_task → y.tcbs t ≡ k.tcbs t
  pub resting : (t : Ptr) → (k.tcbs t).status ≢ running → y.tcbs t ≡ k.tcbs t
  pub priority : (t : Ptr) → (y.tcbs t).priority ≡ (k.tcbs t).priority
  pub frame : y.frame ≡ k.frame
  pub current : y.current_task ≡ k.current_task

yield-running :
    (k : Kernel) (qs : Lists)
    → IsValid k qs
    → (k.tcbs k.current_task).status ≡ running
    → Yielded k qs (yield_current k)
unfolding yield_current
yield-running k qs v s =
    let t = k.current_task in
    let p = (k.tcbs t).priority in
    let made = v.tasks.created t (ground arith) in
    let out = unlisted k.tcbs k.heap.pnode t qs v.tasks t (ground arith) (ground arith) in
    let k1 = enter_ready p t k in
    let same = enter_ready-SameTasks p t k in
    let entered = make_ready-IsValid k qs v t made.0 made.1 made.2 out in
    let moved : yield_current k ≡ set_status t ready k1 = rw s refl in
    let lists : yielded k qs ≡ appended (ready_queue p) (queue_node t) qs = rw s refl in
    rw moved (record {
      valid = subst (IsValid (set_status t ready k1)) (sym lists) entered;
      idle = λ u. rw same.tcbs (ground (arith, eq-cases t u, v.tasks.running u));
      others = λ u ne. rw same.tcbs (ground (arith, eq-cases t u));
      resting = λ u ne. rw same.tcbs (ground (arith, eq-cases t u));
      priority = λ u. rw same.tcbs (ground (arith, eq-cases t u));
      frame = same.frame;
      current = same.current_task;
    })

yield-other :
    (k : Kernel) (qs : Lists)
    → IsValid k qs
    → ((k.tcbs k.current_task).status == running) ≡ false
    → Yielded k qs (yield_current k)
unfolding yield_current
yield-other k qs v s =
    let moved : yield_current k ≡ k = rw s refl in
    let lists : yielded k qs ≡ qs = rw s refl in
    rw moved (record {
      valid = subst (IsValid k) (sym lists) v;
      idle = λ u. ground (arith, v.tasks.running u);
      others = λ u ne. refl;
      resting = λ u ne. refl;
      priority = λ u. refl;
      frame = refl;
      current = refl;
    })

-- The outcome of a switch, in terms of the state before it.
pub record Scheduled (k : Kernel) (qs : Lists) (r : Run Kernel) : Type 0 where
  pub after : Kernel
  pub task : Ptr
  pub rest : List Ptr
  pub returns : r ≡ ok after
  pub first : yielded k qs (ready_queue (k.tcbs task).priority) ≡ queue_node task ∷ rest
  pub in_range : (k.tcbs task).priority < 64
  pub least : (q n : ℕ) → q < 64 → n ∈ yielded k qs (ready_queue q) → (k.tcbs task).priority ≤ q
  pub current : after.current_task ≡ task
  pub runs : (after.tcbs task).status ≡ running
  pub saved :
      k.current_task ≢ null → k.current_task ≢ task → (after.tcbs k.current_task).sp ≡ k.frame
  pub restored : k.current_task ≢ task → after.resumed ≡ (k.tcbs task).sp
  pub again : k.current_task ≢ null → k.current_task ≡ task → after.resumed ≡ k.frame
  pub others : (t : Ptr) → t ≢ task → t ≢ k.current_task → after.tcbs t ≡ k.tcbs t
  pub resting :
      (t : Ptr) → t ≢ task → (k.tcbs t).status ≢ running → (after.tcbs t).status ≡ (k.tcbs t).status
  pub valid : IsValid after (update (yielded k qs) (ready_queue (k.tcbs task).priority) rest)

module _ (k : Kernel) (qs : Lists) (v : IsValid k qs) (p n : ℕ) (hp : p < 64)
    (i : n ∈ yielded k qs (ready_queue p)) where
  Yielded-cases : Yielded k qs (yield_current k)
  Yielded-cases = elim (Bool-cases ((k.tcbs k.current_task).status == running)) [
    | inl e ↦ yield-running k qs v (ground arith)
    | inr e ↦ yield-other k qs v e
  ]

  -- With no running task the dispatcher starts at once.
  schedule-first : k.scheduler_lock ≢ locked → k.current_task ≡ null → Scheduled k qs (schedule k)
  unfolding schedule
  schedule-first free e =
      let made = v.tasks.created k.current_task in
      let lists : yielded k qs ≡ qs = ground arith in
      let d =
        dispatch-Dispatched k qs v (λ t. ground (arith, v.tasks.running t, made)) p n hp
          (subst (λ l. n ∈ l (ready_queue p)) lists i) in
      record {
        after = d.after;
        task = d.task;
        rest = d.rest;
        returns = ground (arith, d.returns);
        first = rw lists d.first;
        in_range = d.in_range;
        least = rw lists d.least;
        current = d.current;
        runs = d.runs;
        saved = λ ne. absurd (ne e);
        restored = λ other. d.resumed;
        again = λ ne. absurd (ne e);
        others = λ t a b. d.others t a;
        resting = λ t a b. ap (λ (u : Tcb). u.status) (d.others t a);
        valid = rw lists d.valid;
      }

  schedule-next :
      k.scheduler_lock ≢ locked
      → k.current_task ≢ null
      → k.frame ≢ null
      → Scheduled k qs (schedule k)
  unfolding schedule
  schedule-next free ne fr =
      let y = Yielded-cases in
      let k2 = yield_current k in
      let k3 = set_tcb k2.current_task (record (k2.tcbs k2.current_task) { sp = k2.frame }) k2 in
      let valid : IsValid k3 (yielded k qs) = record {
        queues = Queues-same k2 k3 (yielded k qs) refl refl refl y.valid.queues;
        tasks =
            Tasks-same k2.tcbs k3.tcbs k2.heap.pnode k2.current_task (yielded k qs)
              (λ t. ground (arith, eq-cases k2.current_task t))
              (λ t. ground (arith, eq-cases k2.current_task t)) y.valid.tasks;
      } in
      let idle = λ (t : Ptr) (e : (k3.tcbs t).status ≡ running).
        y.idle t (ground (arith, eq-cases k2.current_task t)) in
      let prio : (t : Ptr) → (k3.tcbs t).priority ≡ (k.tcbs t).priority =
        λ t. ground (arith, y.priority t, eq-cases k2.current_task t) in
      let d = dispatch-Dispatched k3 (yielded k qs) valid idle p n hp i in
      let same = prio d.task in
      record {
        after = d.after;
        task = d.task;
        rest = d.rest;
        returns = ground (arith, d.returns, y.frame, y.current);
        first = rw (← same) d.first;
        in_range = rw (← same) d.in_range;
        least = rw (← same) d.least;
        current = d.current;
        runs = d.runs;
        saved = λ _ other. ground (arith, d.others k.current_task, y.frame, y.current);
        restored = λ other.
            d.resumed ∙ ground (arith, y.others d.task, eq-cases k2.current_task d.task, y.current);
        again = λ _ one.
            d.resumed ∙ ground (arith, y.frame, eq-cases k2.current_task d.task, y.current);
        others = λ t a b.
            d.others t a ∙ ground (arith, y.others t b, eq-cases k2.current_task t, y.current);
        resting = λ t a b.
            ap (λ (u : Tcb). u.status) (d.others t a)
            ∙ ground (arith, y.resting t b, eq-cases k2.current_task t);
        valid = rw (← same) d.valid;
      }

-- With the scheduler open and a task to run, `eos_schedule` switches to the first task of the least
-- priority that is ready, the running one included, which goes behind the others of its priority. The
-- context that is restored is the one at the stack pointer of the new task, and for the task that ran
-- the one just saved; the stack pointer of a task that loses the processor is saved, no other TCB
-- changes, and the state stays in order.
pub schedule-Scheduled :
    (k : Kernel) (qs : Lists) (p n : ℕ)
    → IsValid k qs
    → k.scheduler_lock ≢ locked
    → (k.current_task ≢ null → k.frame ≢ null)
    → p < 64
    → n ∈ yielded k qs (ready_queue p)
    → Scheduled k qs (schedule k)
schedule-Scheduled k qs p n v free fr hp i = elim (eq-cases k.current_task null) [
  | inl e ↦ schedule-first k qs v p n hp i free e
  | inr e ↦
      let ne : k.current_task ≢ null = ground arith in schedule-next k qs v p n hp i free ne (fr ne)
]

-- ===== src/Start/Boot.antt =====
-- From the reset state to the first task.
use e_os_aarch64_hal.Base.{
  ℕ, zero, suc, ◌+◌, ◌-◌, ◌≡◌, refl, sym, subst, ◌≢◌, ◌∙◌, inl, eq-cases, [], arith, ◌∈◌,
}
use e_os_aarch64_hal.Base.Run.{Run, ok}
use e_os_aarch64_hal.NodeList.{Ptr, null}
use e_os_aarch64_hal.Bitmap.{lowest_priority}
use e_os_aarch64_hal.Bitmap.Ready.{init_scheduler-IsValid, is_ready-init_scheduler}
use e_os_aarch64_hal.Kernel.{Kernel, update, queue_node, ready_queue, locked, unlocked}
use e_os_aarch64_hal.Kernel.Lists.{Lists}
use e_os_aarch64_hal.Kernel.Queues.{appended}
use e_os_aarch64_hal.Task.{running, create_task, clear_heads, init_task, schedule}
use e_os_aarch64_hal.Task.Invariant.{IsValid, Queues-same}
use e_os_aarch64_hal.Task.Schedule.{Scheduled, yielded, schedule-Scheduled}
use e_os_aarch64_hal.Task.Create.{create_task-locked}
use e_os_aarch64_hal.Task.Live.{IsLive, Scheduled-IsLive, schedule-Kept, dispatched}
use e_os_aarch64_hal.Timer.{init_counter}
use e_os_aarch64_hal.Timer.Sleepers.{IsTimed, Beside-IsTimed, schedule-Beside}
use e_os_aarch64_hal.Calls.{Sound, SameStore}
use e_os_aarch64_hal.Calls.Switch.{Kept-SameStore, schedule-NoneNew}
use e_os_aarch64_hal.Start.{
  System, init_timer, init_parts, enable_interrupt, start_tasks, start_system, os_init,
}
use e_os_aarch64_hal.Start.Setup.{IsSetup, IsSetup-IsTimed}

-- The state at reset: the static data is zero, and so no task is in use; the stack has an address.
pub record IsReset (k : Kernel) : Type 0 where
  pub heads : (q : Ptr) → k.heads q ≡ null
  pub links : (n : Ptr) → k.heap.next n ≡ null
  pub status : (t : Ptr) → (k.tcbs t).status ≡ 0
  pub free : k.ready_queue_lock ≡ 0
  pub saved : k.frame ≢ null

abbrev pub nothing : Lists
nothing q = []

clear_heads-null :
    (n : ℕ) (heads : Ptr → Ptr)
    → ((q : Ptr) → heads q ≡ null)
    → (q : Ptr) → clear_heads n heads q ≡ null
unfolding clear_heads
clear_heads-null zero heads h q = h q
clear_heads-null (suc n) heads h q =
    clear_heads-null n (update heads (ready_queue (lowest_priority - n)) null)
      (λ r. ground (arith, h r)) q

module _ (answer : ℕ → ℕ → ℕ) (tick_hz freq : ℕ) (s : System) (r : IsReset s.kernel) where
  pub init_parts-IsValid :
      let k = (init_parts answer tick_hz freq s).kernel in
      IsValid k nothing
      × (k.scheduler_lock ≡ locked)
      × (k.ready_queue_lock ≡ 0)
      × (k.frame ≢ null)
      × (k.current_task ≡ null)
      × ((t : Ptr) → (k.tcbs t).status ≡ 0)
  unfolding init_parts init_timer init_counter init_task
  init_parts-IsValid =
      let cleared = clear_heads-null (lowest_priority + 1) s.kernel.heads r.heads in
      (
        record {
          queues = record {
            rep = record {
              ring = λ q. ground (arith, cleared q);
              apart = λ q p n i. cc;
              loose = λ n out. r.links n;
            };
            bits = init_scheduler-IsValid s.kernel.bitmap;
            agree = λ p hp. is_ready-init_scheduler s.kernel.bitmap p hp;
          };
          tasks = record {
            created = λ t ne. absurd (ne (r.status t));
            member = λ q t i. cc;
            listed = λ t e. ground (arith, r.status t);
            nodes = λ p n hp i. cc;
            running = λ t e. ground (arith, r.status t);
          };
        },
        refl,
        r.free,
        r.saved,
        refl,
        r.status,
      )

-- With preemption allowed the first switch finds a task.
module _ (idle : Ptr) (k : Kernel) (qs : Lists) (s : IsSetup idle k qs) where
  pub unlocked-IsValid : IsValid (enable_interrupt (record k { scheduler_lock = unlocked })) qs
  unlocked-IsValid = record {
    queues =
        Queues-same k (enable_interrupt (record k { scheduler_lock = unlocked })) qs refl refl refl
          s.valid.queues;
    tasks = s.valid.tasks;
  }

  pub start_tasks-IsLive :
      (t : Scheduled (enable_interrupt (record k { scheduler_lock = unlocked })) qs (start_tasks k))
      × IsLive idle t.after (
          dispatched
            (enable_interrupt (record k { scheduler_lock = unlocked }))
            qs
            (start_tasks k)
            t)
      × IsTimed t.after (
          dispatched
            (enable_interrupt (record k { scheduler_lock = unlocked }))
            qs
            (start_tasks k)
            t)
      × (yielded (enable_interrupt (record k { scheduler_lock = unlocked })) qs ≡ qs)
  unfolding start_tasks
  start_tasks-IsLive =
      let w = enable_interrupt (record k { scheduler_lock = unlocked }) in
      let v = unlocked-IsValid in
      let p = (k.tcbs idle).priority in
      let made = s.valid.tasks.created idle (ground (arith, s.idles)) in
      let none_runs : (k.tcbs k.current_task).status ≢ running =
        ground (arith, s.nobody, s.valid.tasks.created k.current_task) in
      let stays : yielded w qs ≡ qs = ground arith in
      let t =
        schedule-Scheduled w qs p (queue_node idle) v (omega arith) (λ ne. absurd (ne s.nobody))
          made.0
          (subst (λ l. queue_node idle ∈ l (ready_queue p)) (sym stays)
            (s.valid.tasks.listed idle s.idles)) in
      let ne : idle ≢ w.current_task = ground (arith, s.nobody, made.2) in
      let first = IsSetup-IsTimed idle k qs s in
      let timed : IsTimed w qs = record {
        homes = first.homes;
        sleepers = first.sleepers;
        sorted = first.sorted;
      } in
      (
        t,
        Scheduled-IsLive idle w qs v t (omega arith) s.free s.saved (inl (s.idles, ne)),
        Beside-IsTimed w t.after qs (dispatched w qs (start_tasks k) t)
            (schedule-Kept w t.after t.returns) (schedule-Beside w qs v t) timed,
        stays,
      )

-- The state in which the user's part of the start begins: only the idle task is in use.
abbrev pub only_idle : Ptr → Lists
only_idle idle = appended (ready_queue lowest_priority) (queue_node idle) nothing

-- The user's part comes to an end, with the system still set up and the user's data prepared.
abbrev pub SetsUp : Ptr → (Kernel → Run Kernel) → Lists → (Kernel → Type 0) → Type 0
SetsUp idle user qs prepared =
    (k : Kernel)
    → IsSetup idle k (only_idle idle)
    → ((t : Ptr) → t ≢ idle → (k.tcbs t).status ≡ 0)
    → (a : Kernel) × (user k ≡ ok a) × IsSetup idle a qs × prepared a

module _ (answer : ℕ → ℕ → ℕ) (tick_hz freq : ℕ) (s : System) (r : IsReset s.kernel)
    (idle stack entry : Ptr) (ni : idle ≢ null) (ns : stack ≢ null) (ne : entry ≢ null) where
  -- The idle task is created.
  idle-IsSetup :
      let k = (init_parts answer tick_hz freq s).kernel in
      (a : Kernel) × (create_task idle stack 8096 entry null lowest_priority k ≡ ok (0, a))
      × IsSetup idle a (only_idle idle)
      × ((t : Ptr) → t ≢ idle → (a.tcbs t).status ≡ 0)
  idle-IsSetup =
      let k = (init_parts answer tick_hz freq s).kernel in
      let (v, shut, free, saved, nobody, unused) = init_parts-IsValid answer tick_hz freq s r in
      let (m, returns) =
        create_task-locked k nothing v idle (λ q. refl) (unused idle) stack 8096 entry null
          lowest_priority ni ne ns (omega arith) (omega arith) free shut in
      (
        m.state,
        returns,
        record {
          valid = m.valid;
          shut = m.kept.scheduler_lock ∙ shut;
          free = m.kept.ready_queue_lock ∙ free;
          saved = rw m.kept.frame saved;
          nobody = m.current ∙ nobody;
          idles = m.status;
          quiet = λ q far. ground arith;
          no_alarms = λ t q. ground (arith, eq-cases (ready_queue lowest_priority) q);
        },
        λ t other. rw (m.others t other) (unused t),
      )

  -- From the reset state, and with a user's part that comes to an end and leaves the system set up,
  -- `_os_init` gets through: it hands the processor to the first task of the least priority, and the
  -- system is sound.
  pub os_init-Sound :
      (user : Kernel → Run Kernel) (qs : Lists) (prepared : Kernel → Type 0)
      → SetsUp idle user qs prepared
      → (a : System) × (os_init idle stack entry user answer tick_hz freq s ≡ ok a)
        × (k : Kernel) × (t : Scheduled k qs (schedule k)) × (a.kernel ≡ t.after)
        × (k.current_task ≡ null)
        × (yielded k qs ≡ qs)
        × (k2 : Kernel) × prepared k2
        × (k ≡ enable_interrupt (record k2 { scheduler_lock = unlocked }))
        × SameStore k a.kernel
        × Sound idle a.kernel (dispatched k qs (schedule k) t)
  unfolding os_init start_system start_tasks
  os_init-Sound user qs prepared sets_up =
      let s1 = init_parts answer tick_hz freq s in
      let (k1, made, setup, unused) = idle-IsSetup in
      let (k2, did, set, data_ready) = sets_up k1 setup unused in
      let (t, live, timed, stays) = start_tasks-IsLive idle k2 qs set in
      let w = enable_interrupt (record k2 { scheduler_lock = unlocked }) in
      (
        record s1 { kernel = t.after },
        rw (made, did, t.returns) refl,
        w,
        t,
        refl,
        set.nobody,
        stays,
        k2,
        data_ready,
        refl,
        Kept-SameStore w t.after (schedule-Kept w t.after t.returns)
            (schedule-NoneNew w qs (unlocked-IsValid idle k2 qs set) t),
        (live, timed),
      )

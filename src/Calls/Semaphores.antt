-- ===== src/Calls/Semaphores.antt =====
-- The semaphores of eos_aarch64/core/sync.c, acquired without a time limit, and the notification of a
-- condition: each call returns, and leaves the system sound.
use e_os_aarch64_hal.Base.{
  ℕ, ◌≤◌, ◌≡◌, refl, ◌≢◌, ◌∙◌, ◌⊎◌, inl, inr, false, arith, ◌∉◌, ◌==◌, eq-cases, Bool-cases, has,
  length, bit_or,
}
use e_os_aarch64_hal.Base.Run.{Run, ok, ◌>>=◌}
use e_os_aarch64_hal.NodeList.{Ptr, null}
use e_os_aarch64_hal.Kernel.{
  Kernel, alarm_node, alarm_queue, wait_queue, condition_queue, system_timer, remove,
}
use e_os_aarch64_hal.Kernel.Lists.{Lists}
use e_os_aarch64_hal.Kernel.Queues.{remove-none}
use e_os_aarch64_hal.Task.{wait_in_queue}
use e_os_aarch64_hal.Task.Invariant.{Queues-same}
use e_os_aarch64_hal.Task.Live.{Kept-refl}
use e_os_aarch64_hal.Timer.{set_alarm}
use e_os_aarch64_hal.Sync.{
  Acquired, returned, blocked, acquire_semaphore, resume_acquire, release_semaphore,
  notify_condition, take, set_count, not_positive, increment, decrement,
}
use e_os_aarch64_hal.Calls.{Goes, Returns, SameStore, Sound, left_by}
use e_os_aarch64_hal.Calls.Switch.{unchanged, Goes-Returns, Kept-SameStore}
use e_os_aarch64_hal.Calls.Waits.{wait-Goes, wake-Goes}

-- The parts of the state that the lists, the tasks and the alarms depend on.
pub record Alike (k w : Kernel) : Type 0 where
  pub heap : w.heap ≡ k.heap
  pub heads : w.heads ≡ k.heads
  pub bitmap : w.bitmap ≡ k.bitmap
  pub tcbs : w.tcbs ≡ k.tcbs
  pub alarms : w.alarms ≡ k.alarms
  pub current_task : w.current_task ≡ k.current_task
  pub scheduler_lock : w.scheduler_lock ≡ k.scheduler_lock
  pub ready_queue_lock : w.ready_queue_lock ≡ k.ready_queue_lock
  pub frame : w.frame ≡ k.frame

pub Sound-Alike :
    (idle : Ptr) (k w : Kernel) (qs : Lists) → Alike k w → Sound idle k qs → Sound idle w qs
Sound-Alike idle k w qs same (live, timed) = (
  record {
    valid = record {
      queues = Queues-same k w qs same.heap same.heads same.bitmap live.valid.queues;
      tasks = rw (same.tcbs, same.heap, same.current_task) live.valid.tasks;
    };
    open_lock = rw same.scheduler_lock live.open_lock;
    free = same.ready_queue_lock ∙ live.free;
    saved = rw same.frame live.saved;
    runs = rw (same.tcbs, same.current_task) live.runs;
    idles = rw same.tcbs live.idles;
  },
  record {
    homes = timed.homes;
    sleepers = rw (same.heap, same.alarms, same.tcbs) timed.sleepers;
    sorted = rw same.heap timed.sorted;
  },
)

module _ (idle : Ptr) (k : Kernel) (qs : Lists) (sound : Sound idle k qs) where
  counted : (sem c : ℕ) → Alike k (set_count sem c k)
  counted sem c = record {
    heap = refl;
    heads = refl;
    bitmap = refl;
    tcbs = refl;
    alarms = refl;
    current_task = refl;
    scheduler_lock = refl;
    ready_queue_lock = refl;
    frame = refl;
  }

  -- The count goes up, and the first waiter is woken.
  pub release-Goes :
      (sem : Ptr)
      → sem ≢ null
      → Goes idle (set_count sem (increment (k.semaphores sem).count) k) (release_semaphore sem k)
  unfolding release_semaphore
  release-Goes sem ns =
      let c = increment (k.semaphores sem).count in
      let w = set_count sem c k in
      let after = Sound-Alike idle k w qs (counted sem c) sound in
      let q = wait_queue sem in
      let named : (sem == null) ≡ false = ground arith in
      elim (Bool-cases (k.heads q == null)) [
        | inl f ↦ unchanged idle w qs _ after (rw (named, f) refl)
        | inr f ↦
            rw (named, f) (wake-Goes idle w qs after q (omega arith) (omega arith) (qs q) refl)
      ]

  pub release-Returns : (sem : Ptr) → Returns idle (release_semaphore sem k)
  unfolding release_semaphore
  release-Returns sem = elim (eq-cases sem null) [
    | inl e ↦ (k, qs, rw e refl, sound)
    | inr e ↦ Goes-Returns idle _ _ (release-Goes sem (ground arith))
  ]

  pub notify-Goes : (cond : Ptr) → Goes idle k (notify_condition cond k)
  unfolding notify_condition
  notify-Goes cond = elim (Bool-cases (cond == null)) [
    | inl e ↦ unchanged idle k qs _ sound (rw e refl)
    | inr e ↦
        let q = condition_queue cond in
        rw e (wake-Goes idle k qs sound q (omega arith) (omega arith) (qs q) refl)
  ]

  -- A task that runs has no alarm.
  pub no_alarm :
      (mask : ℕ)
      → remove (alarm_queue system_timer) (alarm_node k.current_task) (record k { daif = mask })
        ≡ record k { daif = mask }
  no_alarm mask =
      let (live, timed) = sound in
      let t = k.current_task in
      let q = alarm_queue system_timer in
      let out : (r : Ptr) → alarm_node t ∉ qs r = λ r.
        elim (Bool-cases (has (alarm_node t) (qs r))) [
          | inr e ↦ e
          | inl i ↦
              let s = timed.sleepers (alarm_node t) (ground (arith, timed.homes t r i)) in
              let same : k.heap.pnode (alarm_node t) ≡ t = omega (arith, s.0) in
              absurd (ground (arith, s.3.0, same, live.runs))
        ] in
      remove-none (record k { daif = mask }) q (alarm_node t)
        (live.valid.queues.rep.loose (alarm_node t) out)

  -- How an acquisition ends: the caller waits, or has taken a semaphore that there was, or the call
  -- gave up at once.
  abbrev pub Acquires : Ptr → Run Acquired → Type 0
  Acquires sem m =
      (r : Acquired) × (qs' : Lists) × (m ≡ ok r)
      × Sound idle (left_by r) qs'
      × (((r ≡ blocked (left_by r)) × SameStore k (left_by r))
          ⊎ ((not_positive (k.semaphores sem).count ≡ false)
              × (r ≡ returned 1 (left_by r))
              × SameStore (set_count sem (decrement (k.semaphores sem).count) k) (left_by r))
          ⊎ (((sem ≡ null) ⊎ (k.scheduler_lock ≢ 0)) × (r ≡ returned 0 k)))

  pub Acquires-Returns :
      (sem : Ptr) (m : Run Acquired) → Acquires sem m → Returns idle (m >>= λ r. ok (left_by r))
  Acquires-Returns sem m (r, lists, returns, now, how) = (left_by r, lists, rw returns refl, now)

  -- The state after the semaphore was taken.
  taken :
      (sem : Ptr) (m : Run Acquired)
      → not_positive (k.semaphores sem).count ≡ false
      → m ≡ ok (returned 1 (set_count sem (decrement (k.semaphores sem).count) k))
      → Acquires sem m
  taken sem m p e =
      let c = decrement (k.semaphores sem).count in
      let w = set_count sem c k in
      (
        returned 1 w,
        qs,
        e,
        Sound-Alike idle k w qs (counted sem c) sound,
        inr (inl (p, refl, Kept-SameStore w w (Kept-refl w) (λ t z. z))),
      )

  -- The wait of a task that finds no semaphore.
  waited :
      (sem fuel : ℕ) (m : Run Acquired)
      → k.current_task ≢ idle
      → length (qs (wait_queue sem)) ≤ fuel
      → ((a : Kernel)
          → wait_in_queue fuel (wait_queue sem) (k.semaphores sem).queue_type k ≡ ok a
          → m ≡ ok (blocked a))
      → Acquires sem m
  waited sem fuel m ni f e =
      let (a, lists, returns, now, store) =
        wait-Goes idle k qs sound (wait_queue sem) (omega arith) (omega arith)
          (k.semaphores sem).queue_type fuel ni f in
      (blocked a, lists, e a returns, now, inl (refl, store))

  pub acquire-Acquires :
      (sem fuel : ℕ)
      → k.current_task ≢ idle
      → length (qs (wait_queue sem)) ≤ fuel
      → Acquires sem (acquire_semaphore fuel sem 0 k)
  unfolding acquire_semaphore take set_alarm
  acquire-Acquires sem fuel ni f =
      let live = sound.0 in
      let t = k.current_task in
      let made = live.valid.tasks.created t (ground (arith, live.runs)) in
      let used : (t == null) ≡ false = ground (arith, made.2) in
      elim (Bool-cases (sem == null)) [
        | inl e ↦ (returned 0 k, qs, rw e refl, sound, inr (inr (inl (ground arith), refl)))
        | inr e ↦ elim (Bool-cases (k.scheduler_lock == 0)) [
          | inr u ↦ (returned 0 k, qs, rw (e, u) refl, sound, inr (inr (inr (ground arith), refl)))
          | inl u ↦ elim (Bool-cases (not_positive (k.semaphores sem).count)) [
            | inr p ↦ taken sem _ p (rw (e, u, p) refl)
            | inl p ↦
                waited sem fuel _ ni f
                  (λ a returns. rw (e, u, p, used, no_alarm (bit_or k.daif 0x80), returns) refl)
          ]
        ]
      ]

  -- The task goes on when it is resumed: it takes the semaphore, or waits again.
  pub again-Acquires :
      (sem fuel : ℕ)
      → k.current_task ≢ idle
      → length (qs (wait_queue sem)) ≤ fuel
      → Acquires sem (resume_acquire fuel sem 0 0 k)
  unfolding resume_acquire take set_alarm
  again-Acquires sem fuel ni f =
      let live = sound.0 in
      let t = k.current_task in
      let made = live.valid.tasks.created t (ground (arith, live.runs)) in
      let used : (t == null) ≡ false = ground (arith, made.2) in
      elim (Bool-cases (not_positive (k.semaphores sem).count)) [
        | inr p ↦ taken sem _ p (rw (p, used, no_alarm (bit_or k.daif 0x80)) refl)
        | inl p ↦ waited sem fuel _ ni f (λ a returns. rw (p, returns) refl)
      ]

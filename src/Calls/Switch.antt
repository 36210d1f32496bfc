-- ===== src/Calls/Switch.antt =====
-- What a call leaves when it ends in a switch, or does not.
use e_os_aarch64_hal.Base.{◌≡◌, refl, ◌≢◌, ◌∙◌, ◌⊎◌, arith, ◌∈◌, eq-cases, has-append, [], ◌∷◌}
use e_os_aarch64_hal.Base.Run.{Run, ok}
use e_os_aarch64_hal.NodeList.{Ptr, null}
use e_os_aarch64_hal.Kernel.{Tcb, Kernel, queue_node, ready_queue, locked}
use e_os_aarch64_hal.Kernel.Lists.{Lists}
use e_os_aarch64_hal.Task.{ready, running, schedule}
use e_os_aarch64_hal.Task.Invariant.{IsValid, Queues-same, Tasks-same}
use e_os_aarch64_hal.Task.Schedule.{Scheduled, yielded}
use e_os_aarch64_hal.Task.Live.{Kept, Kept-refl, Scheduled-IsLive, schedule-Kept, dispatched}
use e_os_aarch64_hal.Timer.Sleepers.{IsTimed, Beside, Beside-same, Beside-IsTimed, schedule-Beside}
use e_os_aarch64_hal.Calls.Keep.{Kept-tcbs}
use e_os_aarch64_hal.Calls.{Goes, Returns, SameStore, NoneNew, Sound}

pub Kept-SameStore : (k k' : Kernel) → Kept k k' → NoneNew k k' → SameStore k k'
Kept-SameStore k k' c new = record {
  semaphores = c.semaphores;
  mqueues = c.mqueues;
  bytes = c.bytes;
  scheduler_lock = c.scheduler_lock;
  none_new = new;
}

pub SameStore-trans : (j k l : Kernel) → SameStore j k → SameStore k l → SameStore j l
SameStore-trans j k l a b = record {
  semaphores = b.semaphores ∙ a.semaphores;
  mqueues = b.mqueues ∙ a.mqueues;
  bytes = b.bytes ∙ a.bytes;
  scheduler_lock = b.scheduler_lock ∙ a.scheduler_lock;
  none_new = λ t e. b.none_new t (a.none_new t e);
}

-- The store may be compared with that of an earlier state.
pub Goes-trans :
    (idle : Ptr) (j k : Kernel) (r : Run Kernel) → SameStore j k → Goes idle k r → Goes idle j r
Goes-trans idle j k r same (a, qs, returns, sound, store) =
    (a, qs, returns, sound, SameStore-trans j k a same store)

pub Goes-Returns : (idle : Ptr) (k : Kernel) (r : Run Kernel) → Goes idle k r → Returns idle r
Goes-Returns idle k r (a, qs, returns, sound, store) = (a, qs, returns, sound)

-- A call that changes nothing.
pub unchanged :
    (idle : Ptr) (k : Kernel) (qs : Lists) (r : Run Kernel)
    → Sound idle k qs
    → r ≡ ok k
    → Goes idle k r
unchanged idle k qs r sound returns =
    (k, qs, returns, sound, Kept-SameStore k k (Kept-refl k) (λ t e. e))

-- A switch goes to a task that is in use.
pub schedule-NoneNew :
    (k : Kernel) (qs : Lists) → IsValid k qs → (s : Scheduled k qs (schedule k)) → NoneNew k s.after
schedule-NoneNew k qs v s t e =
    let q = ready_queue (k.tcbs s.task).priority in
    let here : queue_node s.task ∈ yielded k qs q = ground (arith, s.first) in
    let other : t ≢ s.task = λ same. absurd (
      ground (
        arith,
        has-append (queue_node s.task) (qs q) (queue_node k.current_task ∷ []),
        v.tasks.member q s.task,
        eq-cases s.task k.current_task,
      )) in
    s.resting t other (ground arith) ∙ e

-- The system is sound after a switch from a state in which the alarms are in order.
pub switched_from :
    (idle : Ptr) (w : Kernel) (lists : Lists) (r : Run Kernel)
    → IsValid w lists
    → IsTimed w lists
    → w.scheduler_lock ≢ locked
    → w.ready_queue_lock ≡ 0
    → w.frame ≢ null
    → (((w.tcbs idle).status ≡ ready) × (idle ≢ w.current_task)) ⊎ ((w.tcbs idle).status ≡ running)
    → (s : Scheduled w lists (schedule w)) → r ≡ ok s.after
    → Goes idle w r
switched_from idle w lists r v timed open_lock free saved idles s returns =
    let now = dispatched w lists (schedule w) s in
    (
      s.after,
      now,
      returns,
      (
        Scheduled-IsLive idle w lists v s open_lock free saved idles,
        Beside-IsTimed w s.after lists now (schedule-Kept w s.after s.returns)
            (schedule-Beside w lists v s) timed,
      ),
      Kept-SameStore w s.after (schedule-Kept w s.after s.returns) (schedule-NoneNew w lists v s),
    )

-- Being sound depends on the status and the priority of a task alone.
pub Sound-tcbs :
    (idle : Ptr) (k : Kernel) (qs : Lists) (tcbs : Ptr → Tcb)
    → ((u : Ptr) → (tcbs u).status ≡ (k.tcbs u).status)
    → ((u : Ptr) → (tcbs u).priority ≡ (k.tcbs u).priority)
    → Sound idle k qs
    → Sound idle (record k { tcbs = tcbs }) qs
Sound-tcbs idle k qs tcbs status priority (live, timed) =
    let w = record k { tcbs = tcbs } in
    (
      record {
        valid = record {
          queues = Queues-same k w qs refl refl refl live.valid.queues;
          tasks =
              Tasks-same k.tcbs tcbs k.heap.pnode k.current_task qs status priority
                live.valid.tasks;
        };
        open_lock = live.open_lock;
        free = live.free;
        saved = live.saved;
        runs = status k.current_task ∙ live.runs;
        idles = rw (status idle) live.idles;
      },
      Beside-IsTimed k w qs qs (Kept-tcbs k k tcbs (Kept-refl k)) (Beside-same k w qs status) timed,
    )

module _ (idle : Ptr) (k : Kernel) (qs : Lists) (sound : Sound idle k qs) where
  -- The system is sound after a switch, whatever else the call did without touching an alarm.
  pub switched :
      (w : Kernel) (lists : Lists) (r : Run Kernel)
      → IsValid w lists
      → Kept k w
      → NoneNew k w
      → Beside k qs w lists
      → (((w.tcbs idle).status ≡ ready) × (idle ≢ w.current_task))
        ⊎ ((w.tcbs idle).status ≡ running)
      → (s : Scheduled w lists (schedule w)) → r ≡ ok s.after
      → Goes idle k r
  switched w lists r v c new b idles s returns =
      let (live, timed) = sound in
      Goes-trans idle k w r (Kept-SameStore k w c new) (
        switched_from idle w lists r v (Beside-IsTimed k w qs lists c b timed)
          (rw c.scheduler_lock live.open_lock) (c.ready_queue_lock ∙ live.free)
          (rw c.frame live.saved) idles s returns)

  -- So it is after a call that does not switch, and leaves the same task running.
  pub stayed :
      (w : Kernel) (lists : Lists) (r : Run Kernel)
      → IsValid w lists
      → Kept k w
      → NoneNew k w
      → Beside k qs w lists
      → ((w.tcbs w.current_task).status ≡ running)
      → ((w.tcbs idle).status ≡ ready) ⊎ ((w.tcbs idle).status ≡ running)
      → r ≡ ok w
      → Goes idle k r
  stayed w lists r v c new b run idles returns =
      let (live, timed) = sound in
      (
        w,
        lists,
        returns,
        (
          record {
            valid = v;
            open_lock = rw c.scheduler_lock live.open_lock;
            free = c.ready_queue_lock ∙ live.free;
            saved = rw c.frame live.saved;
            runs = run;
            idles = idles;
          },
          Beside-IsTimed k w qs lists c b timed,
        ),
        Kept-SameStore k w c new,
      )

  pub idle-cases :
      (((k.tcbs idle).status ≡ ready) × (idle ≢ k.current_task)) ⊎ ((k.tcbs idle).status ≡ running)
  idle-cases = let live = sound.0 in ground (arith, live.idles, live.runs)

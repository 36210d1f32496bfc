-- ===== src/Calls/Reach.antt =====
-- Sequences of calls of the kernel and ticks of the timer.
use e_os_aarch64_hal.Base.{ℕ, ◌≡◌, refl, subst}
use e_os_aarch64_hal.Base.Run.{Run, ok}
use e_os_aarch64_hal.NodeList.{Ptr}
use e_os_aarch64_hal.Kernel.{Kernel}
use e_os_aarch64_hal.Kernel.Lists.{Lists, Rep-unique}
use e_os_aarch64_hal.Task.Invariant.{IsValid}
use e_os_aarch64_hal.Calls.{
  Call, create, resume, suspend, change, wait, wake, acquire, release, period, yield, again, notify,
  send, receive, pause, tick, perform, Allowed, Sound, Returns,
}
use e_os_aarch64_hal.Calls.Tasks.{
  create-Returns, resume-Goes, suspend-Goes, change-Goes, yield-Goes, period-Goes,
}
use e_os_aarch64_hal.Calls.Waits.{wait-Goes, wake-Goes}
use e_os_aarch64_hal.Calls.Semaphores.{
  Acquires-Returns, acquire-Acquires, again-Acquires, release-Returns, notify-Goes,
}
use e_os_aarch64_hal.Calls.Switch.{Goes-Returns}
use e_os_aarch64_hal.Calls.Messages.{send-Goes, receive-Goes}
use e_os_aarch64_hal.Calls.Times.{sleep-Goes, tick-Goes}

module _ (user_handler : ℕ → ℕ → Kernel → Run Kernel) (idle : Ptr) where
  -- Every allowed call returns, and leaves the system sound.
  pub perform-Returns :
      (k : Kernel) (qs : Lists) (c : Call)
      → Sound idle k qs
      → Allowed idle k qs c
      → Returns idle (perform user_handler c k)
  perform-Returns k qs (create task start size entry arg priority) sound h =
      create-Returns idle k qs sound task start size entry arg priority h
  perform-Returns k qs (resume t) sound h = Goes-Returns idle _ _ (resume-Goes idle k qs sound t h)
  perform-Returns k qs (suspend t) sound h =
      Goes-Returns idle _ _ (suspend-Goes idle k qs sound t h.0 h.1)
  perform-Returns k qs (change t p) sound h =
      Goes-Returns idle _ _ (change-Goes idle k qs sound t p h.0 h.1)
  perform-Returns k qs (wait q queue_type fuel) sound h =
      Goes-Returns idle _ _ (wait-Goes idle k qs sound q h.0 h.1 queue_type fuel h.2 h.3)
  perform-Returns k qs (wake q) sound h =
      Goes-Returns idle _ _ (wake-Goes idle k qs sound q h.0 h.1 (qs q) refl)
  perform-Returns k qs (acquire sem fuel) sound h =
      Acquires-Returns idle k qs sound sem _ (acquire-Acquires idle k qs sound sem fuel h.0 h.1)
  perform-Returns k qs (release sem) sound h = release-Returns idle k qs sound sem
  perform-Returns k qs (period t p) sound h =
      Goes-Returns idle _ _ (period-Goes idle k qs sound t p)
  perform-Returns k qs yield sound h = Goes-Returns idle _ _ (yield-Goes idle k qs sound)
  perform-Returns k qs (again sem fuel) sound h =
      Acquires-Returns idle k qs sound sem _ (again-Acquires idle k qs sound sem fuel h.0 h.1)
  perform-Returns k qs (notify cond) sound h =
      Goes-Returns idle _ _ (notify-Goes idle k qs sound cond)
  perform-Returns k qs (send mq message) sound h =
      Goes-Returns idle _ _ (send-Goes idle k qs sound mq message)
  perform-Returns k qs (receive mq message) sound h =
      Goes-Returns idle _ _ (receive-Goes idle k qs sound mq message)
  perform-Returns k qs (pause fuel timeout) sound h =
      Goes-Returns idle _ _ (sleep-Goes idle k qs sound fuel timeout h.0 h.1)
  perform-Returns k qs (tick fuel) sound h =
      Goes-Returns idle _ _ (tick-Goes user_handler idle k qs sound fuel h)

  -- The states that calls and ticks lead to, where each is allowed in its state and returns.
  pub data Reach (k : Kernel) : Kernel → Type 0 where
    here : Reach k k
    next :
        {a b : Kernel} (qs : Lists) (c : Call)
        → Reach k a
        → IsValid a qs
        → Allowed idle a qs c
        → perform user_handler c a ≡ ok b
        → Reach k b

  Returns-Sound :
      (b : Kernel) (r : Run Kernel) → Returns idle r → r ≡ ok b → (qs : Lists) × Sound idle b qs
  Returns-Sound b r (a, qs, e, sound) f =
      let same : a ≡ b = cc in (qs, subst (λ (x : Kernel). Sound idle x qs) same sound)

  -- The lists of a state are those that its memory stands for.
  Sound-lists : (k : Kernel) (qs rs : Lists) → Sound idle k qs → IsValid k rs → Sound idle k rs
  Sound-lists k qs rs sound v =
      subst (λ l. Sound idle k l)
        (Rep-unique k.heap k.heads qs rs sound.0.valid.queues.rep v.queues.rep) sound

  -- From a sound state, every sequence of allowed calls and of ticks leads to a sound state: the
  -- lists, the bitmap and the tasks are in order, a task runs, the locks are free, the idle task is
  -- ready or runs, and the alarms are those of sleeping tasks, in the order in which they are due.
  pub Reach-Sound :
      {k a : Kernel} (qs : Lists) → Sound idle k qs → Reach k a → (rs : Lists) × Sound idle a rs
  Reach-Sound qs sound here = (qs, sound)
  Reach-Sound qs sound (next {a} {b} qs1 c before v allowed returns) =
      let (qs2, now) = Reach-Sound qs sound before in
      Returns-Sound b _ (perform-Returns a qs1 c (Sound-lists a qs2 qs1 now v) allowed) returns

  -- No sequence of allowed calls and of ticks gets stuck: from a sound state, whatever came before,
  -- the next allowed call returns or switches to another task; it neither reads through NULL nor runs
  -- out of fuel.
  pub perform-returns :
      {k a : Kernel} (qs rs : Lists) (c : Call)
      → Sound idle k qs
      → Reach k a
      → IsValid a rs
      → Allowed idle a rs c
      → (b : Kernel) × (perform user_handler c a ≡ ok b) × Reach k b
  perform-returns qs rs c sound before v allowed =
      let (qs2, now) = Reach-Sound qs sound before in
      let (b, qs3, returns, after) = perform-Returns _ rs c (Sound-lists _ qs2 rs now v) allowed in
      (b, returns, next rs c before v allowed returns)

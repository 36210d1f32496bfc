-- ===== src/Calls/Tasks.antt =====
-- Each call on tasks of eos_aarch64/core/task.c that does not wait returns, and leaves the system sound.
use e_os_aarch64_hal.Base.{
  ℕ, true, false, ◌<◌, ◌≡◌, refl, sym, ap, ◌≢◌, ◌∙◌, ◌⊎◌, inl, inr, [], ◌∷◌, arith, ◌==◌, eq-cases,
  Bool-cases, has-append, has-erase,
}
use e_os_aarch64_hal.Base.Run.{ok, ◌>>=◌}
use e_os_aarch64_hal.NodeList.{Ptr, null}
use e_os_aarch64_hal.Kernel.{
  Kernel, queue_node, alarm_node, ready_queue, enter_ready, leave_ready, set_status, add_tail,
}
use e_os_aarch64_hal.Kernel.Lists.{Lists}
use e_os_aarch64_hal.Kernel.Queues.{appended, erased, leave_ready-SameTasks}
use e_os_aarch64_hal.Task.{
  ready, running, schedule, create_task, resume_task, suspend_task, change_priority, set_period,
}
use e_os_aarch64_hal.Task.Invariant.{unlisted}
use e_os_aarch64_hal.Task.Ready.{make_ready-IsValid}
use e_os_aarch64_hal.Task.Moves.{schedule-running, suspend_task-IsValid, resume_task-Scheduled}
use e_os_aarch64_hal.Task.Create.{create_task-Scheduled}
use e_os_aarch64_hal.Task.Priority.{
  prioritized, moved, change_priority-Scheduled, prioritized-same, prioritized-status,
  prioritized-IsValid,
}
use e_os_aarch64_hal.Task.Live.{Kept, Kept-refl, leave_ready-Kept}
use e_os_aarch64_hal.Timer.Sleepers.{
  Beside, Beside-IsTimed, Beside-appended, Beside-erased, Beside-same,
}
use e_os_aarch64_hal.Calls.{Goes, Returns, Sound, Allowed, create}
use e_os_aarch64_hal.Calls.Keep.{Kept-tcbs, enter_ready-Kept, prioritized-Kept}
use e_os_aarch64_hal.Calls.Switch.{
  unchanged, Kept-SameStore, Sound-tcbs, Goes-Returns, switched_from, switched, stayed, idle-cases,
}

-- A task that changes its place among the ready queues does not sleep.
moved-Beside :
    (k w : Kernel) (qs : Lists) (t p : ℕ)
    → (k.tcbs t).priority < 64
    → p < 64
    → ((u : Ptr) → (w.tcbs u).status ≡ (k.tcbs u).status)
    → Beside k qs w (moved k qs t p)
moved-Beside k w qs t p old new same = elim (Bool-cases ((k.tcbs t).status == ready)) [
  | inl e ↦
      let from = ready_queue (k.tcbs t).priority in
      let qs1 = erased from (queue_node t) qs in
      let lists : moved k qs t p ≡ appended (ready_queue p) (queue_node t) qs1 = rw e refl in
      let more = λ (a q : Ptr). has-append a (qs1 q) (queue_node t ∷ []) in
      let fewer = λ (a : Ptr). has-erase a (queue_node t) (qs from) in
      rw lists (record {
        homes = λ u r i. ground (
          arith,
          more (alarm_node u) r,
          fewer (alarm_node u),
          eq-cases (ready_queue p) r,
          eq-cases from r,
        );
        queue = ground arith;
        asleep = λ u s. (
          same u ∙ s.0,
          λ r. ground (
            arith,
            more (queue_node u) r,
            fewer (queue_node u),
            s.0,
            s.1 r,
            eq-cases t u,
            eq-cases (ready_queue p) r,
            eq-cases from r,
          ),
        );
      })
  | inr e ↦ let lists : moved k qs t p ≡ qs = rw e refl in rw lists (Beside-same k w qs same)
]

module _ (idle : Ptr) (k : Kernel) (qs : Lists) (sound : Sound idle k qs) where
  pub yield-Goes : Goes idle k (schedule k)
  yield-Goes =
      let live = sound.0 in
      let s = schedule-running k qs live.valid live.open_lock live.saved live.runs in
      switched idle k qs sound k qs (schedule k) live.valid (Kept-refl k) (λ t e. e)
        (Beside-same k k qs (λ u. refl)) (idle-cases idle k qs sound) s s.returns

  pub suspend-Goes : (t : Ptr) → t ≢ null → t ≢ idle → Goes idle k (ok (suspend_task t k).1)
  unfolding suspend_task
  suspend-Goes t ne ni =
      let live = sound.0 in
      elim (suspend_task-IsValid k qs live.valid t ne).1 [
        | inr (other, same) ↦ unchanged idle k qs _ sound (ap (λ (a : Kernel). ok a) same)
        | inl (status, gone, valid) ↦
            let p = (k.tcbs t).priority in
            let n = queue_node t in
            let k1 = leave_ready p n k in
            let made = live.valid.tasks.created t (ground arith) in
            let left = leave_ready-SameTasks p n k in
            let w = (suspend_task t k).1 in
            let others : (u : Ptr) → u ≢ t → w.tcbs u ≡ k.tcbs u =
              λ u nu. ground (arith, left.tcbs, eq-cases t u) in
            let same : w.current_task ≡ k.current_task = ground (arith, left.current_task) in
            let used : (t == null) ≡ false = ground arith in
            let is : ((k.tcbs t).status == ready) ≡ true = ground arith in
            let kept : Kept k w = rw (used, is) (Kept-tcbs k k1 _ (leave_ready-Kept p n k)) in
            stayed idle k qs sound w (erased (ready_queue p) n qs) (ok w) valid kept
              (λ u e. ground (arith, others u, eq-cases u t))
              (Beside-erased k w qs (ready_queue p) n (ground (arith, made.0))
                (λ u s. others u (λ e. absurd (ground (arith, s.0)))))
              (rw (same, others k.current_task (ground (arith, live.runs))) live.runs)
              (rw (others idle (λ e. ni (sym e))) live.idles) refl
      ]

  pub change-Goes :
      (t : Ptr) (p : ℕ) → p < 64 → (k.tcbs t).status ≢ 0 → Goes idle k (change_priority t p k)
  change-Goes t p hp c =
      let live = sound.0 in
      let (s, now, returns) =
        change_priority-Scheduled k qs live.valid t p hp c live.open_lock live.saved live.runs in
      let w = prioritized k t p in
      let v = prioritized-IsValid k qs live.valid t p hp c in
      let same = prioritized-same k qs live.valid t p hp c in
      let status = prioritized-status k qs live.valid t p hp c in
      let made = live.valid.tasks.created t c in
      switched idle k qs sound w (moved k qs t p) _ v (prioritized-Kept k t p)
        (λ u e. rw (status u) e) (moved-Beside k w qs t p made.0 hp status)
        (rw (same.0, status idle) (idle-cases idle k qs sound)) s returns

  pub resume-Goes : (t : Ptr) → t ≢ null → Goes idle k (resume_task t k >>= λ r. ok r.1)
  unfolding enter_ready add_tail
  resume-Goes t ne =
      let live = sound.0 in
      let p = (k.tcbs t).priority in
      let w = set_status t ready (enter_ready p t k) in
      let lists = appended (ready_queue p) (queue_node t) qs in
      let r = resume_task t k >>= λ x. ok x.1 in
      elim (resume_task-Scheduled k qs live.valid t ne live.open_lock live.saved live.runs) [
        | inr (other, returns) ↦ unchanged idle k qs _ sound (rw returns refl)
        | inl (s, status, returns) ↦
            let made = live.valid.tasks.created t (ground arith) in
            let out =
              unlisted k.tcbs k.heap.pnode k.current_task qs live.valid.tasks t (ground arith)
                (ground arith) in
            let v = make_ready-IsValid k qs live.valid t made.0 made.1 made.2 out in
            let idles : (((w.tcbs idle).status ≡ ready) × (idle ≢ w.current_task))
                ⊎ ((w.tcbs idle).status ≡ running) =
              ground (arith, idle-cases idle k qs sound, eq-cases t idle) in
            switched idle k qs sound w lists r v
              (Kept-tcbs k (enter_ready p t k) _ (enter_ready-Kept p t k))
              (λ u e. ground (arith, eq-cases t u))
              (Beside-appended k w qs (ready_queue p) t (ground (arith, made.0)) (ground arith)
                (λ u nu. ground (arith, eq-cases t u)))
              idles s (rw returns refl)
      ]

  pub create-Returns :
      (task start size entry arg priority : ℕ)
      → Allowed idle k qs (create task start size entry arg priority)
      → Returns idle (create_task task start size entry arg priority k >>= λ r. ok r.1)
  create-Returns task start size entry arg priority (out, unused, nt, ne, ns, big, hp) =
      let live = sound.0 in
      let (m, s, returns) =
        create_task-Scheduled k qs live.valid task out unused start size entry arg priority nt ne ns
          big hp live.free live.open_lock (λ _. live.saved) in
      let w = m.state in
      let same : idle ≢ task = ground (arith, live.idles) in
      let lists = appended (ready_queue priority) (queue_node task) qs in
      let b =
        Beside-appended k w qs (ready_queue priority) task (omega arith) (ground arith) m.others in
      Goes-Returns idle w _ (
        switched_from idle w lists _ m.valid (Beside-IsTimed k w qs lists m.kept b sound.1)
          (rw m.kept.scheduler_lock live.open_lock) (m.kept.ready_queue_lock ∙ live.free)
          (rw m.kept.frame live.saved)
          (rw (m.current, m.others idle same) (idle-cases idle k qs sound)) s (rw returns refl))

  pub period-Goes : (t : Ptr) (p : ℕ) → Goes idle k (ok (set_period t p k))
  unfolding set_period
  period-Goes t p = (
    set_period t p k,
    qs,
    refl,
    Sound-tcbs idle k qs (set_period t p k).tcbs (λ u. ground (arith, eq-cases t u))
        (λ u. ground (arith, eq-cases t u)) sound,
    Kept-SameStore k (set_period t p k) (Kept-tcbs k k _ (Kept-refl k))
        (λ u e. ground (arith, eq-cases t u)),
  )

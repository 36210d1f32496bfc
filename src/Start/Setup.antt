-- ===== src/Start/Setup.antt =====
-- What holds while the system is set up: the scheduler is locked, no task runs, the idle task is ready
-- and no task waits.
use e_os_aarch64_hal.Base.{
  ℕ, ◌<◌, ◌≤◌, ◌≡◌, refl, subst, ◌≢◌, ◌∙◌, inl, inr, [], ◌∷◌, ◌∉◌, has-append, arith, ◌==◌,
  eq-cases, Bool-cases,
}
use e_os_aarch64_hal.Base.Run.{Run, ok}
use e_os_aarch64_hal.NodeList.{Ptr, null}
use e_os_aarch64_hal.NodeList.Chain.{Ring}
use e_os_aarch64_hal.Kernel.{
  Kernel, update, queue_node, alarm_node, ready_queue, alarm_queue, system_timer, wait_queue,
  locked,
}
use e_os_aarch64_hal.Kernel.Lists.{Lists, Rep}
use e_os_aarch64_hal.Kernel.Queues.{appended}
use e_os_aarch64_hal.Task.{ready, create_task, set_period}
use e_os_aarch64_hal.Task.Invariant.{IsValid, Tasks-same, Queues-same, unlisted}
use e_os_aarch64_hal.Task.Create.{create_task-locked}
use e_os_aarch64_hal.Timer.Sleepers.{IsTimed}
use e_os_aarch64_hal.Sync.{init_semaphore}

pub record IsSetup (idle : Ptr) (k : Kernel) (qs : Lists) : Type 0 where
  pub valid : IsValid k qs
  pub shut : k.scheduler_lock ≡ locked
  pub free : k.ready_queue_lock ≡ 0
  pub saved : k.frame ≢ null
  pub nobody : k.current_task ≡ null
  pub idles : (k.tcbs idle).status ≡ ready
  pub quiet : (q : Ptr) → 64 < q → qs q ≡ []
  pub no_alarms : (t q : Ptr) → alarm_node t ∉ qs q

-- A new task is ready, and the other tasks are as before.
pub record Made (idle : Ptr) (k : Kernel) (qs : Lists) (task priority : ℕ) (r : Run (ℕ × Kernel))
    : Type 0 where
  pub state : Kernel
  pub setup : IsSetup idle state (appended (ready_queue priority) (queue_node task) qs)
  pub returns : r ≡ ok (0, state)
  pub others : (u : Ptr) → u ≢ task → state.tcbs u ≡ k.tcbs u

module _ (idle : Ptr) (k : Kernel) (qs : Lists) (s : IsSetup idle k qs) where
  pub create_task-Made :
      (task start size entry arg priority : ℕ)
      → (k.tcbs task).status ≡ 0
      → task ≢ null
      → entry ≢ null
      → start ≢ null
      → 1024 ≤ size
      → priority < 64
      → Made idle k qs task priority (create_task task start size entry arg priority k)
  create_task-Made task start size entry arg priority unused nt ne ns big hp =
      let out =
        unlisted k.tcbs k.heap.pnode k.current_task qs s.valid.tasks task (ground arith)
          (ground arith) in
      let (m, returns) =
        create_task-locked k qs s.valid task out unused start size entry arg priority nt ne ns big
          hp s.free s.shut in
      let ni : idle ≢ task = ground (arith, s.idles) in
      record {
        state = m.state;
        setup = record {
          valid = m.valid;
          shut = m.kept.scheduler_lock ∙ s.shut;
          free = m.kept.ready_queue_lock ∙ s.free;
          saved = rw m.kept.frame s.saved;
          nobody = m.current ∙ s.nobody;
          idles = rw (m.others idle ni) s.idles;
          quiet = λ q far. ground (arith, s.quiet q far);
          no_alarms = λ t q. ground (
            arith,
            s.no_alarms t q,
            has-append (alarm_node t) (qs q) (queue_node task ∷ []),
            eq-cases (ready_queue priority) q,
          );
        };
        returns = returns;
        others = m.others;
      }

  pub set_period-IsSetup : (t : Ptr) (p : ℕ) → IsSetup idle (set_period t p k) qs
  unfolding set_period
  set_period-IsSetup t p =
      let w = set_period t p k in
      record {
        valid = record {
          queues = Queues-same k w qs refl refl refl s.valid.queues;
          tasks =
              Tasks-same k.tcbs w.tcbs k.heap.pnode k.current_task qs
                (λ u. ground (arith, eq-cases t u)) (λ u. ground (arith, eq-cases t u))
                s.valid.tasks;
        };
        shut = s.shut;
        free = s.free;
        saved = s.saved;
        nobody = s.nobody;
        idles = ground (arith, s.idles, eq-cases t idle);
        quiet = s.quiet;
        no_alarms = s.no_alarms;
      }

  -- The wait queue of a semaphore is emptied, where it was empty.
  pub init_semaphore-IsSetup :
      (sem count queue_type : ℕ) → IsSetup idle (init_semaphore sem count queue_type k) qs
  unfolding init_semaphore
  init_semaphore-IsSetup sem count queue_type = elim (Bool-cases (sem == null)) [
    | inl e ↦ rw e s
    | inr e ↦
        let q = wait_queue sem in
        let none_wait = s.quiet q (omega arith) in
        let rings = s.valid.queues.rep.ring in
        let heads = update k.heads q null in
        let rep : Rep k.heap heads qs = record {
          ring = λ r. elim (Bool-cases (q == r)) [
            | inl f ↦
                let same : q ≡ r = ground arith in
                rw f (subst (λ x. Ring k.heap null (qs x)) same (rw none_wait refl))
            | inr f ↦ rw f (rings r)
          ];
          apart = s.valid.queues.rep.apart;
          loose = s.valid.queues.rep.loose;
        } in
        rw e (record {
          valid = record {
            queues = record { rep = rep; bits = s.valid.queues.bits; agree = s.valid.queues.agree };
            tasks = s.valid.tasks;
          };
          shut = s.shut;
          free = s.free;
          saved = s.saved;
          nobody = s.nobody;
          idles = s.idles;
          quiet = s.quiet;
          no_alarms = s.no_alarms;
        })
  ]

  -- No alarm is set.
  pub IsSetup-IsTimed : IsTimed k qs
  IsSetup-IsTimed =
      let none = s.quiet (alarm_queue system_timer) (omega arith) in
      record {
        homes = λ t q i. absurd (ground (arith, s.no_alarms t q));
        sleepers = λ n i. absurd (ground (arith, none));
        sorted = rw none tt;
      }

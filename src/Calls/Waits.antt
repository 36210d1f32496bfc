-- ===== src/Calls/Waits.antt =====
-- `_os_wait_in_queue` and `_os_wakeup_from_queue` of eos_aarch64/core/task.c return, and leave the system
-- sound.
use e_os_aarch64_hal.Base.{
  ℕ, zero, suc, ◌<◌, ◌≤◌, ◌≡◌, refl, sym, subst, ap, ◌≢◌, ◌∙◌, ◌⊎◌, inl, inr, List, [], ◌∷◌, true,
  arith, ◌∈◌, eq-cases, Bool-cases, has, has-append, length,
}
use e_os_aarch64_hal.NodeList.{Ptr}
use e_os_aarch64_hal.Kernel.{
  Kernel, update, queue_node, alarm_node, alarm_queue, ready_queue, system_timer,
}
use e_os_aarch64_hal.Kernel.Lists.{Lists}
use e_os_aarch64_hal.Kernel.Queues.{appended}
use e_os_aarch64_hal.Task.{ready, running, wait_in_queue, wakeup_from_queue, wake_first}
use e_os_aarch64_hal.Task.Wait.{waiting_list, has-waiting_list, wait_in_queue-Scheduled}
use e_os_aarch64_hal.Task.Wake.{
  wake_first-IsValid, wake_first-same, is_waiting, wakeup_from_queue-Scheduled,
  wakeup_from_queue-empty,
}
use e_os_aarch64_hal.Timer.Sleepers.{Beside}
use e_os_aarch64_hal.Calls.{Goes, Sound}
use e_os_aarch64_hal.Calls.Keep.{wake_first-Kept}
use e_os_aarch64_hal.Calls.Switch.{unchanged, switched, idle-cases}

-- A node belongs to a task or to an alarm.
node-cases : (n : Ptr) → (t : Ptr) × ((n ≡ queue_node t) ⊎ (n ≡ alarm_node t))
node-cases zero = (0, inl refl)
node-cases (suc zero) = (0, inr refl)
node-cases (suc (suc n)) =
    let (t, form) = node-cases n in
    elim form [ inl e ↦ (suc t, inl (omega arith)) | inr e ↦ (suc t, inr (omega arith)) ]

module _ (idle : Ptr) (k : Kernel) (qs : Lists) (sound : Sound idle k qs) (q : Ptr) (far : 64 < q)
    (apart : q ≢ alarm_queue system_timer) where
  -- The queue holds the nodes of tasks only.
  pub waiting_nodes : (n : Ptr) → n ∈ qs q → n ≡ queue_node (k.heap.pnode n)
  waiting_nodes n i =
      let v = sound.0.valid in
      let (t, form) = node-cases n in
      elim form [
        | inr odd ↦ absurd (apart (sound.1.homes t q (subst (λ a. a ∈ qs q) odd i)))
        | inl even ↦
            let here : queue_node t ∈ qs q = subst (λ a. a ∈ qs q) even i in
            let made = v.tasks.created t (ground (arith, is_waiting k qs v q far t here)) in
            let back : k.heap.pnode n ≡ t = subst (λ a. k.heap.pnode a ≡ t) (sym even) made.1 in
            omega arith
      ]

  wait-Beside :
      (w : Kernel) (queue_type : ℕ)
      → (k.tcbs k.current_task).status ≡ running
      → ((t : Ptr) → t ≢ k.current_task → w.tcbs t ≡ k.tcbs t)
      → Beside k qs w (update qs q (waiting_list k qs q queue_type))
  wait-Beside w queue_type run others =
      let more = λ (n : Ptr). has-waiting_list k qs sound.0.valid q far queue_type n in
      record {
        homes = λ t r i. ground (arith, more (alarm_node t), eq-cases q r);
        queue = ground arith;
        asleep = λ t s.
            let ne : t ≢ k.current_task = λ e. absurd (ground (arith, s.0)) in
            (rw (others t ne) s.0, λ r. ground (arith, more (queue_node t), s.1 r, eq-cases q r));
      }

  -- The idle task is ready when another one waits.
  pub wait-Goes :
      (queue_type fuel : ℕ)
      → k.current_task ≢ idle
      → length (qs q) ≤ fuel
      → Goes idle k (wait_in_queue fuel q queue_type k)
  wait-Goes queue_type fuel ni f =
      let live = sound.0 in
      let rests : (k.tcbs idle).status ≡ ready =
        ground (arith, live.idles, live.valid.tasks.running idle) in
      let p = (k.tcbs idle).priority in
      let made = live.valid.tasks.created idle (ground arith) in
      let (w, s, returns, status) =
        wait_in_queue-Scheduled k qs live.valid q far fuel queue_type p (queue_node idle) live.runs
          f live.open_lock live.saved made.0 (live.valid.tasks.listed idle rests) in
      switched idle k qs sound w.state (update qs q (waiting_list k qs q queue_type)) _ w.valid
        w.kept (λ t e. ground (arith, w.others t, eq-cases t k.current_task, live.runs))
        (wait-Beside w.state queue_type live.runs w.others)
        (rw (w.same.current_task, w.others idle (ground arith)) (idle-cases idle k qs sound)) s
        returns

  wake-Beside :
      (w : Kernel) (t p : ℕ) (rest : List Ptr)
      → p < 64
      → qs q ≡ queue_node t ∷ rest
      → ((u : Ptr) → u ≢ t → w.tcbs u ≡ k.tcbs u)
      → Beside k qs w (appended (ready_queue p) (queue_node t) (update qs q rest))
  wake-Beside w t p rest hp first others =
      let more = λ (n r : Ptr). has-append n (update qs q rest r) (queue_node t ∷ []) in
      let held : has (queue_node t) (qs q) ≡ true = ground (arith, first) in
      let fewer : (n r : Ptr) → n ∈ update qs q rest r → n ∈ qs r =
        λ n r i. ground (arith, first, eq-cases q r) in
      record {
        homes = λ u r i.
            fewer (alarm_node u) r
              (ground (arith, more (alarm_node u) r, eq-cases (ready_queue p) r));
        queue = ground arith;
        asleep = λ u s.
            let ne : u ≢ t = λ e. absurd (ground (arith, s.1 q, held)) in
            (
              rw (others u ne) s.0,
              λ r.
                  elim (Bool-cases (
                    has (queue_node u)
                      (appended (ready_queue p) (queue_node t) (update qs q rest) r))) [
                        | inr out ↦ out
                        | inl i ↦
                            let left : queue_node u ∈ update qs q rest r =
                              ground (arith, more (queue_node u) r, eq-cases (ready_queue p) r) in
                            absurd (ground (arith, s.1 r, fewer (queue_node u) r left))
                      ],
            );
      }

  pub wake-Goes : (xs : List Ptr) → qs q ≡ xs → Goes idle k (wakeup_from_queue q k)
  wake-Goes [] e = unchanged idle k qs _ sound (wakeup_from_queue-empty k qs sound.0.valid q far e)
  wake-Goes (n ∷ rest) e =
      let live = sound.0 in
      let t = k.heap.pnode n in
      let here : n ≡ queue_node t = waiting_nodes n (ground (arith, e)) in
      let node : k.heap.pnode (queue_node t) ≡ t = ap k.heap.pnode (sym here) in
      let first : qs q ≡ queue_node t ∷ rest = e ∙ ap (λ (m : Ptr). m ∷ rest) here in
      let (v, status, others) = wake_first-IsValid k qs live.valid q far t rest first node in
      let (s, woken, kept, returns) =
        wakeup_from_queue-Scheduled k qs live.valid q far t rest first node live.open_lock
          live.saved live.runs in
      let waits = is_waiting k qs live.valid q far t (ground (arith, first)) in
      let made = live.valid.tasks.created t (ground arith) in
      let p = (k.tcbs t).priority in
      let w = wake_first q k in
      let ne : idle ≢ t = ground (arith, live.idles) in
      switched idle k qs sound w (appended (ready_queue p) (queue_node t) (update qs q rest)) _ v
        (wake_first-Kept q k) (λ u e. ground (arith, others u, eq-cases u t, waits))
        (wake-Beside w t p rest made.0 first others)
        (rw ((wake_first-same k qs live.valid q far).0, others idle ne)
          (idle-cases idle k qs sound))
        s returns

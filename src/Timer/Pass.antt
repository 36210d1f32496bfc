-- ===== src/Timer/Pass.antt =====
-- The loop of `eos_trigger_counter` of eos_aarch64/core/timer.c over the alarms of sleeping tasks.
use e_os_aarch64_hal.Base.{
  ℕ, zero, suc, ◌<◌, ◌≡◌, refl, ap, subst, ◌≢◌, ◌∙◌, List, [], ◌∷◌, inl, inr, arith, ◌∈◌, ◌∉◌,
  Bool-cases, length, ltb,
}
use e_os_aarch64_hal.Base.Run.{Run, ok}
use e_os_aarch64_hal.NodeList.{Ptr}
use e_os_aarch64_hal.NodeList.Chain.{Ring}
use e_os_aarch64_hal.NodeList.Ordered.{IsOrdered}
use e_os_aarch64_hal.Kernel.{Kernel, queue_node, alarm_node, alarm_queue, system_timer, remove}
use e_os_aarch64_hal.Kernel.Lists.{Lists}
use e_os_aarch64_hal.Task.{waiting, wakeup_from_alarm_queue}
use e_os_aarch64_hal.Task.Invariant.{IsValid}
use e_os_aarch64_hal.Timer.{expire}
use e_os_aarch64_hal.Timer.Fire.{Waiter, Fired, fire}
use e_os_aarch64_hal.Timer.Expire.{IsOrdered-tail, expire-waits, expire-step}
use e_os_aarch64_hal.Timer.Untouched.{SameAlarms, SameAlarms-refl, SameAlarms-trans}
use e_os_aarch64_hal.Timer.Sleepers.{IsTimed, Sleeper}

-- The loop ends with the alarms in order, and every task that did not wait is as it was.
pub record Passed (k : Kernel) (r : Run Kernel) : Type 0 where
  pub state : Kernel
  pub lists : Lists
  pub returns : r ≡ ok state
  pub valid : IsValid state lists
  pub timed : IsTimed state lists
  pub same : SameAlarms k state
  pub awake : (u : Ptr) → (k.tcbs u).status ≢ waiting → state.tcbs u ≡ k.tcbs u

Sleeper-Waiter : (k : Kernel) (qs : Lists) (n : Ptr) → Sleeper k qs n → Waiter k qs n
Sleeper-Waiter k qs n (node, made, alarm, (status, out)) = (node, made, alarm, status, inr out)

module _ (k : Kernel) (qs : Lists) (v : IsValid k qs) (timed : IsTimed k qs) (t : Ptr)
    (rest : List Ptr) (first : qs (alarm_queue system_timer) ≡ alarm_node t ∷ rest) where
  fire-IsTimed :
      (k2 : Kernel) (f : Fired k qs system_timer t rest k2)
      → alarm_node t ∉ rest
      → IsTimed k2 f.lists
  fire-IsTimed k2 f gone =
      let q = alarm_queue system_timer in
      record {
        homes = λ u r i. timed.homes u r (f.homes u r i);
        sleepers = λ n i.
            let left : n ∈ rest = subst (λ l. n ∈ l) f.queue i in
            let s = timed.sleepers n (rw first (ground arith)) in
            let w = f.waiters n left in
            let at : k2.heap.pnode n ≡ k.heap.pnode n = ap (λ (g : Ptr → Ptr). g n) f.same.pnode in
            let other : k2.heap.pnode n ≢ t = λ e. absurd (ground (arith, w.0, gone, left)) in
            let out : (r : Ptr) → queue_node (k2.heap.pnode n) ∉ qs r = rw at s.3.1 in
            (w.0, w.1, w.2, (w.3, λ r. f.nodes (k2.heap.pnode n) r other ∙ out r));
        sorted =
            rw (f.queue, f.same.order_val)
              (IsOrdered-tail k.heap.order_val (alarm_node t) rest
                (subst (IsOrdered k.heap.order_val) first timed.sorted));
      }

module _ (user_handler : ℕ → ℕ → Kernel → Run Kernel) where
  still :
      (fuel : ℕ) (k : Kernel) (qs : Lists)
      → IsValid k qs
      → IsTimed k qs
      → expire user_handler fuel system_timer k ≡ ok k
      → Passed k (expire user_handler fuel system_timer k)
  still fuel k qs v timed returns = record {
    state = k;
    lists = qs;
    returns = returns;
    valid = v;
    timed = timed;
    same = SameAlarms-refl k;
    awake = λ u ne. refl;
  }

  -- With more fuel than there are alarms the loop ends.
  pub expire-Passed :
      (ns : List Ptr) (fuel : ℕ) (k : Kernel) (qs : Lists)
      → IsValid k qs
      → IsTimed k qs
      → qs (alarm_queue system_timer) ≡ ns
      → length ns < fuel
      → Passed k (expire user_handler fuel system_timer k)
  unfolding expire
  expire-Passed ns zero k qs v timed here f = absurd (omega arith)
  expire-Passed [] (suc fuel) k qs v timed here f =
      let q = alarm_queue system_timer in
      let ring = subst (Ring k.heap (k.heads q)) here (v.queues.rep.ring q) in
      still (suc fuel) k qs v timed (rw ring refl)
  expire-Passed (n ∷ l) (suc fuel) k qs v timed here f =
      let q = alarm_queue system_timer in
      let ring = subst (Ring k.heap (k.heads q)) here (v.queues.rep.ring q) in
      let t = k.heap.pnode n in
      let waiters : (m : Ptr) → m ∈ n ∷ l → Waiter k qs m =
        λ m i. Sleeper-Waiter k qs m (timed.sleepers m (rw here i)) in
      let (node, made, alarm, status, place) = waiters n (ground arith) in
      elim (Bool-cases (ltb (k.ticks system_timer) (k.heap.order_val n))) [
        | inl soon ↦ still (suc fuel) k qs v timed (
            expire-waits user_handler fuel k system_timer n t (k.heap.order_val n) ring.0 refl alarm
              soon)
        | inr due ↦
            let first : qs q ≡ alarm_node t ∷ l = here ∙ ap (λ (a : Ptr). a ∷ l) node in
            let k2 = wakeup_from_alarm_queue t (remove q (alarm_node t) k) in
            let f1 =
              fire k qs v system_timer t l first
                (subst (λ a. (m : Ptr) → m ∈ a ∷ l → Waiter k qs m) node waiters) in
            let gone : alarm_node t ∉ l = subst (λ a. a ∉ l) node ring.2.0 in
            let timed1 = fire-IsTimed k qs v timed t l first k2 f1 gone in
            let p = expire-Passed l fuel k2 f1.lists f1.valid timed1 f1.queue (omega arith) in
            let step =
              expire-step user_handler fuel k system_timer n t (k.heap.order_val n) ring.0 refl
                (ground arith) made alarm due in
            record {
              state = p.state;
              lists = p.lists;
              returns = step ∙ p.returns;
              valid = p.valid;
              timed = p.timed;
              same = SameAlarms-trans k k2 p.state f1.same p.same;
              awake = λ u ne.
                  let other : u ≢ t = λ e. absurd (ground (arith, e, status)) in
                  let task = f1.others u other in p.awake u (rw task ne) ∙ task;
            }
      ]

-- ===== src/Timer/Expire.antt =====
-- The loop of `eos_trigger_counter` of eos_aarch64/core/timer.c over the alarms that are due.
use e_os_aarch64_hal.Base.{
  ℕ, zero, suc, ◌≤◌, ◌<◌, ◌≡◌, refl, sym, ap, subst, ◌≢◌, ◌⊎◌, inl, inr, ◌∙◌, true, false, List, [],
  ◌∷◌, arith, ◌∈◌, ◌∉◌, ◌==◌, ◌||◌, eq-cases, Bool-cases, if◌then◌else◌, length, ltb,
}
use e_os_aarch64_hal.Base.Run.{Run, ok}
use e_os_aarch64_hal.NodeList.{Ptr, null}
use e_os_aarch64_hal.NodeList.Chain.{Ring}
use e_os_aarch64_hal.NodeList.Ordered.{IsOrdered}
use e_os_aarch64_hal.Kernel.{Alarm, Kernel, alarm_node, alarm_queue, remove}
use e_os_aarch64_hal.Kernel.Lists.{Lists}
use e_os_aarch64_hal.Task.{ready, wakeup_from_alarm_queue}
use e_os_aarch64_hal.Task.Invariant.{IsValid}
use e_os_aarch64_hal.Timer.{call_handler, expire, wakeup_handler}
use e_os_aarch64_hal.Timer.Fire.{Waiter, Fired, fire}
use e_os_aarch64_hal.Timer.Untouched.{
  SameAlarms, SameAlarms-refl, SameAlarms-trans, remove-SameAlarms,
}

-- The nodes of an ordered queue that are not due at a time.
unfoldable pub later : (Ptr → ℕ) → ℕ → List Ptr → List Ptr
later order now [] = []
later order now (n ∷ l) = if ltb now (order n) then n ∷ l else later order now l

-- The first node of an ordered queue is due first.
pub IsOrdered-head :
    (order : Ptr → ℕ) (n m : Ptr) (l : List Ptr)
    → IsOrdered order (n ∷ l)
    → m ∈ n ∷ l
    → order n ≤ order m
IsOrdered-head order n m [] s i = ground arith
IsOrdered-head order n m (x ∷ l) s i = ground (arith, IsOrdered-head order x m l s.1, eq-cases m n)

pub IsOrdered-tail :
    (order : Ptr → ℕ) (n : Ptr) (l : List Ptr) → IsOrdered order (n ∷ l) → IsOrdered order l
IsOrdered-tail order n [] s = tt
IsOrdered-tail order n (x ∷ l) s = s.1

-- The outcome of the loop over a queue `ns`.
pub record Expired (k : Kernel) (counter : Ptr) (ns : List Ptr) (r : Run Kernel) : Type 0 where
  pub state : Kernel
  pub returns : r ≡ ok state
  pub lists : Lists
  pub valid : IsValid state lists
  pub queue : lists (alarm_queue counter) ≡ later k.heap.order_val (k.ticks counter) ns
  pub pending :
      (n : Ptr)
      → n ∈ later k.heap.order_val (k.ticks counter) ns
      → k.ticks counter < k.heap.order_val n
  pub woken :
      (n : Ptr)
      → n ∈ ns
      → k.heap.order_val n ≤ k.ticks counter
      → (state.tcbs (k.heap.pnode n)).status ≡ ready
  pub others :
      (u : Ptr)
      → (alarm_node u ∉ ns) ⊎ (k.ticks counter < k.heap.order_val (alarm_node u))
      → state.tcbs u ≡ k.tcbs u
  pub same : SameAlarms k state

module _ (user_handler : ℕ → ℕ → Kernel → Run Kernel) where
  -- The loop stops where nothing is due.
  stop :
      (fuel : ℕ) (k : Kernel) (counter : Ptr) (qs : Lists) (ns : List Ptr)
      → IsValid k qs
      → qs (alarm_queue counter) ≡ ns
      → IsOrdered k.heap.order_val ns
      → later k.heap.order_val (k.ticks counter) ns ≡ ns
      → ((n : Ptr) → n ∈ ns → k.ticks counter < k.heap.order_val n)
      → expire user_handler fuel counter k ≡ ok k
      → Expired k counter ns (expire user_handler fuel counter k)
  stop fuel k counter qs ns v here sorted all pending returns = record {
    state = k;
    returns = returns;
    lists = qs;
    valid = v;
    queue = here ∙ sym all;
    pending = λ n i. pending n (subst (λ l. n ∈ l) all i);
    woken = λ n i due. absurd (omega (arith, pending n i));
    others = λ u out. refl;
    same = SameAlarms-refl k;
  }

  pub expire-waits :
      (fuel : ℕ) (k : Kernel) (counter n t time : Ptr)
      → k.heads (alarm_queue counter) ≡ n
      → k.heap.pnode n ≡ t
      → k.alarms t ≡ record { timeout = time; handler = wakeup_handler; arg = t }
      → ltb (k.ticks counter) time ≡ true
      → expire user_handler (suc fuel) counter k ≡ ok k
  unfolding expire
  expire-waits fuel k counter n t time head node alarm soon =
      let timeout : (k.alarms t).timeout ≡ time = ap (λ (a : Alarm). a.timeout) alarm in
      rw (head, node, timeout, soon) (ground arith)

  pub expire-step :
      (fuel : ℕ) (k : Kernel) (counter n t time : Ptr)
      → k.heads (alarm_queue counter) ≡ n
      → k.heap.pnode n ≡ t
      → n ≢ null
      → t ≢ null
      → k.alarms t ≡ record { timeout = time; handler = wakeup_handler; arg = t }
      → ltb (k.ticks counter) time ≡ false
      → expire user_handler (suc fuel) counter k
        ≡ expire user_handler fuel counter
            (wakeup_from_alarm_queue t (remove (alarm_queue counter) (alarm_node t) k))
  unfolding expire call_handler
  expire-step fuel k counter n t time head node ne nt alarm due =
      let timeout : (k.alarms t).timeout ≡ time = ap (λ (a : Alarm). a.timeout) alarm in
      let k1 = remove (alarm_queue counter) (alarm_node t) k in
      let same : k1.alarms t ≡ record { timeout = time; handler = wakeup_handler; arg = t } =
        ap (λ (f : Ptr → Alarm). f t)
          (remove-SameAlarms (alarm_queue counter) (alarm_node t) k).alarms
        ∙ alarm in
      let some : (n == null || t == null) ≡ false = ground arith in
      rw (head, node, some, timeout, due, same) refl

  after-fire :
      (k k2 : Kernel) (qs : Lists) (counter n : Ptr) (l : List Ptr) (r r' : Run Kernel)
      → n ∉ l
      → n ≡ alarm_node (k.heap.pnode n)
      → Fired k qs counter (k.heap.pnode n) l k2
      → ltb (k.ticks counter) (k.heap.order_val n) ≡ false
      → r' ≡ r
      → Expired k2 counter l r
      → Expired k counter (n ∷ l) r'
  unfolding later
  after-fire k k2 qs counter n l r r' out node f due step e =
      let t = k.heap.pnode n in
      let now : k2.ticks counter ≡ k.ticks counter = ap (λ (g : Ptr → ℕ). g counter) f.same.ticks in
      let rest : later k2.heap.order_val (k2.ticks counter) l
          ≡ later k.heap.order_val (k.ticks counter) l =
        rw (f.same.order_val, now) refl in
      let stays : (m : Ptr) → k2.heap.order_val m ≡ k.heap.order_val m =
        λ m. ap (λ (g : Ptr → ℕ). g m) f.same.order_val in
      let task : (m : Ptr) → k2.heap.pnode m ≡ k.heap.pnode m =
        λ m. ap (λ (g : Ptr → ℕ). g m) f.same.pnode in
      record {
        state = e.state;
        returns = step ∙ e.returns;
        lists = e.lists;
        valid = e.valid;
        queue = rw due (e.queue ∙ rest);
        pending =
            rw due
              (λ m i. ground (arith, e.pending m (subst (λ x. m ∈ x) (sym rest) i), now, stays m));
        woken = λ m i time. elim (eq-cases m n) [
          | inl same ↦
              let mine : e.state.tcbs t ≡ k2.tcbs t =
                e.others t (inl (subst (λ a. a ∉ l) node out)) in
              rw (same, mine) f.status
          | inr other ↦
              subst (λ u. (e.state.tcbs u).status ≡ ready) (task m)
                (e.woken m (ground arith) (ground (arith, now, stays m)))
        ];
        others = λ u absent.
            let other : u ≢ t = λ same. ground (arith, same, node, absent, due) in
            let still : (alarm_node u ∉ l) ⊎ (k2.ticks counter < k2.heap.order_val (alarm_node u)) =
              elim absent [
                | inl out ↦ inl (ground arith)
                | inr soon ↦ inr (ground (arith, now, stays (alarm_node u)))
              ] in
            e.others u still ∙ f.others u other;
        same = SameAlarms-trans k k2 e.state f.same e.same;
      }

  -- With more fuel than there are alarms in the queue the loop ends. Every alarm that was due has
  -- woken its task, and those that are left are due after the present time.
  pub expire-Expired :
      (ns : List Ptr) (fuel : ℕ) (k : Kernel) (counter : Ptr) (qs : Lists)
      → IsValid k qs
      → qs (alarm_queue counter) ≡ ns
      → ((n : Ptr) → n ∈ ns → Waiter k qs n)
      → IsOrdered k.heap.order_val ns
      → length ns < fuel
      → Expired k counter ns (expire user_handler fuel counter k)
  unfolding expire later
  expire-Expired ns zero k counter qs v here waiters sorted f = absurd (omega arith)
  expire-Expired [] (suc fuel) k counter qs v here waiters sorted f =
      let ring =
        subst (Ring k.heap (k.heads (alarm_queue counter))) here
          (v.queues.rep.ring (alarm_queue counter)) in
      stop (suc fuel) k counter qs [] v here sorted refl (λ n i. cc) (rw ring refl)
  expire-Expired (n ∷ l) (suc fuel) k counter qs v here waiters sorted f =
      let ring =
        subst (Ring k.heap (k.heads (alarm_queue counter))) here
          (v.queues.rep.ring (alarm_queue counter)) in
      let t = k.heap.pnode n in
      let (node, made, alarm, status, place) = waiters n (ground arith) in
      let now = k.ticks counter in
      elim (Bool-cases (ltb now (k.heap.order_val n))) [
        | inl soon ↦
            let all : later k.heap.order_val now (n ∷ l) ≡ n ∷ l = rw soon refl in
            stop (suc fuel) k counter qs (n ∷ l) v here sorted all
              (λ m i. ground (arith, IsOrdered-head k.heap.order_val n m l sorted))
              (expire-waits fuel k counter n t (k.heap.order_val n) ring.0 refl alarm soon)
        | inr due ↦
            let first : qs (alarm_queue counter) ≡ alarm_node t ∷ l =
              here ∙ ap (λ (a : Ptr). a ∷ l) node in
            let k2 = wakeup_from_alarm_queue t (remove (alarm_queue counter) (alarm_node t) k) in
            let f1 =
              fire k qs v counter t l first
                (subst (λ a. (m : Ptr) → m ∈ a ∷ l → Waiter k qs m) node waiters) in
            let e =
              expire-Expired l fuel k2 counter f1.lists f1.valid f1.queue f1.waiters
                (subst (λ o. IsOrdered o l) (sym f1.same.order_val)
                  (IsOrdered-tail k.heap.order_val n l sorted))
                (omega arith) in
            let step =
              expire-step fuel k counter n t (k.heap.order_val n) ring.0 refl (ground arith) made
                alarm due in
            after-fire k k2 qs counter n l (expire user_handler fuel counter k2) _ ring.2.0 node f1
              due step e
      ]

-- ===== src/Program/Bound.antt =====
-- How many alarms of eos_aarch64/core/timer.c are set while only the idle task and the three tasks of
-- eos_aarch64/user/work_assignment3.c are in use.
use e_os_aarch64_hal.Base.{
  ℕ, suc, ◌≤◌, ◌≡◌, ◌≢◌, List, [], ◌∷◌, arith, ◌∈◌, ◌==◌, ◌||◌, eq-cases, erase, has-erase_ne,
  Distinct, length, true,
}
use e_os_aarch64_hal.NodeList.{Ptr}
use e_os_aarch64_hal.NodeList.Chain.{Ring-Distinct}
use e_os_aarch64_hal.Kernel.{Kernel, alarm_node, alarm_queue, system_timer}
use e_os_aarch64_hal.Kernel.Lists.{Lists}
use e_os_aarch64_hal.Calls.{Sound, NoneNew}
use e_os_aarch64_hal.Program.{Layout}

length-erase_mem : (n : ℕ) (xs : List ℕ) → n ∈ xs → suc (length (erase n xs)) ≡ length xs
unfolding erase
length-erase_mem n [] i = absurd (ground arith)
length-erase_mem n (x ∷ xs) i = ground (arith, length-erase_mem n xs, eq-cases n x)

-- Distinct elements of a list are no more than it has.
Distinct-length :
    (xs ys : List ℕ) → Distinct xs → ((a : ℕ) → a ∈ xs → a ∈ ys) → length xs ≤ length ys
Distinct-length [] ys d sub = omega arith
Distinct-length (x ∷ xs) ys d sub =
    let here = length-erase_mem x ys (sub x (ground arith)) in
    let rest = Distinct-length xs (erase x ys) d.1 (λ a i.
      let there = sub a (ground arith) in ground (arith, has-erase_ne a x ys, eq-cases a x)) in
    omega arith

-- Every task but the four is not in use.
abbrev pub OnlyFour : Layout → Kernel → Type 0
OnlyFour l k = (t : Ptr) → t ≢ l.idle → t ≢ l.tcb1 → t ≢ l.tcb2 → t ≢ l.tcb3 → (k.tcbs t).status ≡ 0

pub OnlyFour-next : (l : Layout) (k a : Kernel) → NoneNew k a → OnlyFour l k → OnlyFour l a
OnlyFour-next l k a new four t n0 n1 n2 n3 = new t (four t n0 n1 n2 n3)

module _ (l : Layout) (k : Kernel) (qs : Lists) (sound : Sound l.idle k qs)
    (four : OnlyFour l k) where
  -- A task in use is one of the four.
  four-cases :
      (t : Ptr)
      → (k.tcbs t).status ≢ 0
      → (t == l.idle || t == l.tcb1 || t == l.tcb2 || t == l.tcb3) ≡ true
  four-cases t used = ground (arith, four t)

  pub alarm-bound : length (qs (alarm_queue system_timer)) ≤ 4
  alarm-bound =
      let v = sound.0.valid in
      let q = alarm_queue system_timer in
      let ys = alarm_node l.idle ∷ alarm_node l.tcb1 ∷ alarm_node l.tcb2 ∷ alarm_node l.tcb3 ∷ [] in
      Distinct-length (qs q) ys (Ring-Distinct k.heap (k.heads q) (qs q) (v.queues.rep.ring q))
        (λ n i.
          let s = sound.1.sleepers n i in
          let one = four-cases (k.heap.pnode n) (ground (arith, s.3.0)) in ground (arith, s.0))

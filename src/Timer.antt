-- ===== src/Timer.antt =====
-- Counters, alarms and sleeping: eos_aarch64/core/timer.c, and `eos_sleep` of
-- eos_aarch64/core/task.c.
--
-- A handler is named by its address: 0 is NULL, 1 is `_os_wakeup_from_alarm_queue`, and what any
-- other one does is an argument of `trigger_counter`.
pub mod Alarms
pub mod Sleep
pub mod Untouched
pub mod Fire
pub mod Expire
pub mod Tick
pub mod Sleepers
pub mod Pass
use e_os_aarch64_hal.Base.{
  ℕ, zero, suc, ◌+◌, ◌-◌, ◌%◌, ◌^◌, ◌&&◌, ◌||◌, not, if◌then◌else◌, ◌==◌, ltb, leb,
}
use e_os_aarch64_hal.Base.Run.{Run, ok, fault, hang, ◌>>=◌}
use e_os_aarch64_hal.NodeList.{Ptr, null, write}
use e_os_aarch64_hal.Kernel.{
  Kernel, update, alarm_node, alarm_queue, locked, add_ordered, remove, set_tcb, set_status,
  system_timer,
}
use e_os_aarch64_hal.Task.{waiting, schedule, wakeup_from_alarm_queue}

abbrev pub wakeup_handler : ℕ
wakeup_handler = 1

unfoldable pub init_counter : Ptr → ℕ → Kernel → ℕ × Kernel
init_counter counter init_value k = if counter == null then (1, k) else (
  0,
  record k {
    ticks = update k.ticks counter init_value;
    heads = update k.heads (alarm_queue counter) null;
  },
)

-- The fields of a new alarm. `timeout` is an `int32u_t`, so the sum wraps.
unfoldable pub prepare_alarm : Ptr → Ptr → ℕ → ℕ → ℕ → Kernel → Kernel
prepare_alarm counter alarm timeout entry arg k =
    let due = (k.ticks counter + timeout) % 2 ^ 32 in
    record k {
      alarms = update k.alarms alarm (record { timeout = due; handler = entry; arg = arg });
      heap = record k.heap {
        pnode = write k.heap.pnode (alarm_node alarm) alarm;
        order_val = write k.heap.order_val (alarm_node alarm) due;
      };
    }

unfoldable pub set_alarm : ℕ → (counter alarm timeout entry arg : ℕ) → Kernel → Run Kernel
set_alarm fuel counter alarm timeout entry arg k =
    if counter == null || alarm == null
    then ok k
    else let k1 = remove (alarm_queue counter) (alarm_node alarm) k in
      if timeout == 0 || entry == null
      then ok k1
      else add_ordered fuel (alarm_queue counter) (alarm_node alarm)
          (prepare_alarm counter alarm timeout entry arg k1)

module _ (user_handler : ℕ → ℕ → Kernel → Run Kernel) where
  unfoldable pub call_handler : ℕ → ℕ → Kernel → Run Kernel
  call_handler handler arg k =
      if handler == null
      then fault
      else if handler == wakeup_handler
      then ok (wakeup_from_alarm_queue arg k)
      else user_handler handler arg k

  -- The `while` loop over the alarms that are due, on fuel.
  unfoldable pub expire : ℕ → Ptr → Kernel → Run Kernel
  expire zero counter k = hang
  expire (suc fuel) counter k =
      let head = k.heads (alarm_queue counter) in
      let alarm = k.heap.pnode head in
      let k1 = remove (alarm_queue counter) (alarm_node alarm) k in
      let rest =
        call_handler (k1.alarms alarm).handler (k1.alarms alarm).arg k1 >>= expire fuel counter in
      if head == null || alarm == null
      then ok k
      else if ltb (k.ticks counter) (k.alarms alarm).timeout
      then ok k
      else rest

  unfoldable pub trigger_counter : ℕ → Ptr → Kernel → Run Kernel
  trigger_counter fuel counter k =
      if counter == null
      then ok k
      else let k1 = record k { ticks = update k.ticks counter ((k.ticks counter + 1) % 2 ^ 32) } in
        expire fuel counter k1 >>= schedule

  -- The interrupt handler of the timer. Rearming the hardware timer leaves this state alone.
  unfoldable pub timer_interrupt_handler : ℕ → Kernel → Run Kernel
  timer_interrupt_handler fuel k = trigger_counter fuel system_timer k

-- The end of `eos_sleep`: the running task waits for its alarm.
unfoldable pub sleep_for : ℕ → ℕ → Kernel → Run Kernel
sleep_for fuel timeout k = do
  let task = k.current_task
  k1 ← set_alarm fuel system_timer task timeout wakeup_handler task k
  schedule (set_status task waiting k1)

-- The branch of a periodic task that sleeps until its next period.
unfoldable pub sleep_period : ℕ → Kernel → Run Kernel
sleep_period fuel k =
    let task = k.current_task in
    let t = k.tcbs task in
    let due = (t.wakeup_time + t.period) % 2 ^ 32 in
    let k1 = set_tcb task (record t { wakeup_time = due }) k in
    if leb due (k1.ticks system_timer)
    then ok k1
    else sleep_for fuel (due - k1.ticks system_timer) k1

unfoldable pub sleep : ℕ → ℕ → Kernel → Run Kernel
sleep fuel tick k =
    let task = k.current_task in
    let t = k.tcbs task in
    if k.scheduler_lock == locked
    then ok k
    else if task == null
    then fault
    else if tick == 0 && not (t.period == 0)
    then sleep_period fuel k
    else sleep_for fuel tick k

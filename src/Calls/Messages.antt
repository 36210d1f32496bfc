-- ===== src/Calls/Messages.antt =====
-- The critical sections of eos_aarch64/core/comm.c return, and leave the system sound.
use e_os_aarch64_hal.Base.{refl}
use e_os_aarch64_hal.NodeList.{Ptr}
use e_os_aarch64_hal.Kernel.{Kernel}
use e_os_aarch64_hal.Kernel.Lists.{Lists}
use e_os_aarch64_hal.Task.{lock_scheduler, restore_scheduler}
use e_os_aarch64_hal.Comm.{send_body, receive_body, put_message, get_message}
use e_os_aarch64_hal.Calls.{Goes, Sound}
use e_os_aarch64_hal.Calls.Tasks.{yield-Goes}
use e_os_aarch64_hal.Calls.Semaphores.{Alike, Sound-Alike}

module _ (idle : Ptr) (k : Kernel) (qs : Lists) (sound : Sound idle k qs) (mq message : Ptr) where
  pub send-Goes : Goes idle (put_message mq message k) (send_body mq message k)
  unfolding send_body lock_scheduler restore_scheduler put_message
  send-Goes =
      let w = record (put_message mq message k) { scheduler_lock = k.scheduler_lock } in
      let same : Alike k w = record {
        heap = refl;
        heads = refl;
        bitmap = refl;
        tcbs = refl;
        alarms = refl;
        current_task = refl;
        scheduler_lock = refl;
        ready_queue_lock = refl;
        frame = refl;
      } in
      let (a, lists, returns, now, store) =
        yield-Goes idle w qs (Sound-Alike idle k w qs same sound) in
      (
        a,
        lists,
        returns,
        now,
        record {
          semaphores = store.semaphores;
          mqueues = store.mqueues;
          bytes = store.bytes;
          scheduler_lock = store.scheduler_lock;
          none_new = store.none_new;
        },
      )

  pub receive-Goes : Goes idle (get_message mq message k) (receive_body mq message k)
  unfolding receive_body lock_scheduler restore_scheduler get_message
  receive-Goes =
      let w = record (get_message mq message k) { scheduler_lock = k.scheduler_lock } in
      let same : Alike k w = record {
        heap = refl;
        heads = refl;
        bitmap = refl;
        tcbs = refl;
        alarms = refl;
        current_task = refl;
        scheduler_lock = refl;
        ready_queue_lock = refl;
        frame = refl;
      } in
      let (a, lists, returns, now, store) =
        yield-Goes idle w qs (Sound-Alike idle k w qs same sound) in
      (
        a,
        lists,
        returns,
        now,
        record {
          semaphores = store.semaphores;
          mqueues = store.mqueues;
          bytes = store.bytes;
          scheduler_lock = store.scheduler_lock;
          none_new = store.none_new;
        },
      )

-- ===== src/Tests/Messages.antt =====
-- Message queues.
use e_os_aarch64_hal.Base.{◌≡◌, refl, ◌%◌, ◌^◌, ◌-◌, inl, inr, [], ◌∷◌, arith}
use e_os_aarch64_hal.Base.Run.{ok}
use e_os_aarch64_hal.Kernel.{Kernel}
use e_os_aarch64_hal.Sync.{returned}
use e_os_aarch64_hal.Comm.{put_message, get_message, init_mqueue, start_send}
use e_os_aarch64_hal.Comm.Copy.{read}
use e_os_aarch64_hal.Comm.Ring.{Holds, Filled, put_message-Holds, get_message-Holds}
use e_os_aarch64_hal.Comm.Init.{start_send-init_mqueue}
use e_os_aarch64_hal.Tests.States.{start_state}

-- A queue of three slots of two bytes; the last slot holds the one message.
abbrev loaded : Kernel
loaded = record start_state {
  mqueues = λ mq. record {
    queue_size = 3;
    msg_size = 2;
    queue_start = 1000;
    front = 2;
    rear = 0;
    queue_type = 0;
  };
  bytes = λ a. a % 256;
}

loaded-Holds : Holds (loaded.mqueues 9) loaded.bytes ((236 ∷ 237 ∷ []) ∷ [])
unfolding Filled read
loaded-Holds = record {
  small = omega arith;
  front = omega arith;
  room = omega arith;
  rear = refl;
  filled = (refl, refl);
}

put_message-Holds_example :
    Holds
      ((put_message 9 2000 loaded).mqueues 9)
      (put_message 9 2000 loaded).bytes
      ((236 ∷ 237 ∷ []) ∷ read 2 2000 loaded.bytes ∷ [])
put_message-Holds_example =
    put_message-Holds loaded 9 2000 ((236 ∷ 237 ∷ []) ∷ []) loaded-Holds (omega arith)
      (inl (omega arith))

get_message-Holds_example :
    Holds ((get_message 9 2000 loaded).mqueues 9) (get_message 9 2000 loaded).bytes []
    × (read 2 2000 (get_message 9 2000 loaded).bytes ≡ 236 ∷ 237 ∷ [])
get_message-Holds_example =
    get_message-Holds loaded 9 2000 (236 ∷ 237 ∷ []) [] loaded-Holds (inl (omega arith))

start_send-init_mqueue_example :
    let k1 = init_mqueue 9 1000 200 2 0 start_state in
    start_send 0 9 2000 (2 ^ 32 - 1) k1 ≡ ok (returned 0 k1)
start_send-init_mqueue_example =
    start_send-init_mqueue start_state 0 9 1000 200 2 0 2000 (2 ^ 32 - 1) (omega arith)
      (omega arith) (omega arith) (omega arith) (inr (omega arith)) (omega arith)

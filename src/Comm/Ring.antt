-- ===== src/Comm/Ring.antt =====
-- The ring of slots in the buffer of a message queue holds a list of messages, oldest first.
use e_os_aarch64_hal.Base.{
  eq-cases, true, ℕ, zero, suc, ◌+◌, ◌-◌, ◌*◌, ◌≤◌, ◌<◌, ◌^◌, ◌≡◌, ◌≢◌, refl, sym, ◌∙◌, subst, inl,
  inr, List, [], ◌∷◌, ◌++◌, length, length-append, arith, ◌==◌, ltb, if◌then◌else◌,
}
use e_os_aarch64_hal.Kernel.{Mqueue, Kernel}
use e_os_aarch64_hal.Comm.{copy, slot, advance, put_message, get_message}
use e_os_aarch64_hal.Comm.Copy.{read, read_same, Apart, read-copy, read-copy-Apart}

-- The index in the ring of a position that counts on past the end, by less than a turn.
abbrev pub place : ℕ → ℕ → ℕ
place size f = if ltb f size then f else f - size

-- The messages stand in consecutive slots from position `f` on.
unfoldable pub Filled : Mqueue → (ℕ → ℕ) → ℕ → List (List ℕ) → Type 0
Filled q b f [] = f ≡ f
Filled q b f (m ∷ ms) =
    (read q.msg_size (slot q (place q.queue_size f)) b ≡ m) × Filled q b (f + 1) ms

-- The buffer of `q` holds the messages of the list.
pub record Holds (q : Mqueue) (b : ℕ → ℕ) (ms : List (List ℕ)) : Type 0 where
  pub small : q.queue_size < 2 ^ 16
  pub front : q.front < q.queue_size
  pub room : length ms ≤ q.queue_size
  pub rear : q.rear ≡ place q.queue_size (q.front + length ms)
  pub filled : Filled q b q.front ms

mul-lt : (m i j : ℕ) → i < j → m * i + m ≤ m * j
mul-lt zero i j lt = omega arith
mul-lt (suc m) i j lt = omega (arith, mul-lt m i j lt)

-- Two slots are apart.
slot-Apart : (q : Mqueue) (i j : ℕ) → i ≢ j → Apart (slot q i) q.msg_size (slot q j) q.msg_size
slot-Apart q i j ne = ground (arith, mul-lt q.msg_size i j, mul-lt q.msg_size j i)

-- A slot lies in the buffer.
pub slot-within :
    (q : Mqueue) (i : ℕ)
    → i < q.queue_size
    → slot q i + q.msg_size ≤ q.queue_start + q.msg_size * q.queue_size
slot-within q i lt = ground (arith, mul-lt q.msg_size i q.queue_size lt)

-- Filling a slot that is none of the messages' leaves them alone.
Filled-put :
    (q : Mqueue) (b : ℕ → ℕ) (src f r : ℕ) (ms : List (List ℕ))
    → f + length ms ≤ r
    → r < f + q.queue_size
    → r < q.queue_size + q.queue_size
    → Filled q b f ms
    → Filled q (copy q.msg_size (slot q (place q.queue_size r)) src b) f ms
unfolding Filled
Filled-put q b src f r [] le lt turn filled = refl
Filled-put q b src f r (m ∷ ms) le lt turn (first, rest) = (
  read-copy-Apart q.msg_size (slot q (place q.queue_size f)) q.msg_size
        (slot q (place q.queue_size r)) src b
        (slot-Apart q (place q.queue_size f) (place q.queue_size r) (ground arith))
      ∙ first,
  Filled-put q b src (f + 1) r ms (ground arith) (ground arith) turn rest,
)

-- A write outside the buffer leaves the messages alone.
Filled-Apart :
    (q : Mqueue) (b : ℕ → ℕ) (dest src n f : ℕ) (ms : List (List ℕ))
    → Apart q.queue_start (q.msg_size * q.queue_size) dest n
    → f + length ms ≤ q.queue_size + q.queue_size
    → Filled q b f ms
    → Filled q (copy n dest src b) f ms
unfolding Filled
Filled-Apart q b dest src n f [] out le filled = refl
Filled-Apart q b dest src n f (m ∷ ms) out le (first, rest) = (
  read-copy-Apart q.msg_size (slot q (place q.queue_size f)) n dest src b
        (ground (arith, slot-within q (place q.queue_size f) (ground arith)))
      ∙ first,
  Filled-Apart q b dest src n (f + 1) ms out (ground arith) rest,
)

-- A position and the one a turn later are the same slot.
Filled-turn :
    (q : Mqueue) (b : ℕ → ℕ) (f : ℕ) (ms : List (List ℕ))
    → f + length ms ≤ q.queue_size
    → Filled q b (q.queue_size + f) ms
    → Filled q b f ms
unfolding Filled
Filled-turn q b f [] le filled = refl
Filled-turn q b f (m ∷ ms) le (first, rest) =
    let same : place q.queue_size (q.queue_size + f) ≡ place q.queue_size f = ground arith in
    let next : q.queue_size + f + 1 ≡ q.queue_size + (f + 1) = omega arith in
    (
      subst (λ i. read q.msg_size (slot q i) b ≡ m) same first,
      Filled-turn q b (f + 1) ms (ground arith) (subst (λ i. Filled q b i ms) next rest),
    )

Filled-append :
    (q : Mqueue) (b : ℕ → ℕ) (f : ℕ) (ms : List (List ℕ)) (m : List ℕ)
    → Filled q b f ms
    → read q.msg_size (slot q (place q.queue_size (f + length ms))) b ≡ m
    → Filled q b f (ms ++ m ∷ [])
unfolding Filled
Filled-append q b f [] m filled last =
    let e : f + 0 ≡ f = omega arith in
    (subst (λ i. read q.msg_size (slot q (place q.queue_size i)) b ≡ m) e last, refl)
Filled-append q b f (x ∷ ms) m (first, rest) last =
    let e : f + length (x ∷ ms) ≡ f + 1 + length ms = omega arith in
    (
      first,
      Filled-append q b (f + 1) ms m rest
          (subst (λ i. read q.msg_size (slot q (place q.queue_size i)) b ≡ m) e last),
    )

-- Moving an index of the queue leaves the slots where they are.
Filled-index :
    (q : Mqueue) (front rear : ℕ) (b : ℕ → ℕ) (f : ℕ) (ms : List (List ℕ))
    → Filled q b f ms
    → Filled (record q { front = front; rear = rear }) b f ms
unfolding Filled
Filled-index q front rear b f [] filled = refl
Filled-index q front rear b f (m ∷ ms) (first, rest) =
    (first, Filled-index q front rear b (f + 1) ms rest)

open_Filled :
    (q : Mqueue) (b : ℕ → ℕ) (f : ℕ) (m : List ℕ) (ms : List (List ℕ))
    → Filled q b f (m ∷ ms)
    → (read q.msg_size (slot q (place q.queue_size f)) b ≡ m) × Filled q b (f + 1) ms
unfolding Filled
open_Filled q b f m ms filled = filled

-- The messages from the second position on, from the index moved on.
Filled-next :
    (q : Mqueue) (b : ℕ → ℕ) (ms : List (List ℕ))
    → q.front < q.queue_size
    → suc (length ms) ≤ q.queue_size
    → q.queue_size < 2 ^ 16
    → Filled q b (q.front + 1) ms
    → Filled q b (advance q.queue_size q.front) ms
Filled-next q b ms front room small rest = elim (eq-cases (q.front + 1) q.queue_size) [
  | inl e ↦
      let wraps : advance q.queue_size q.front ≡ 0 = ground arith in
      let turn : q.front + 1 ≡ q.queue_size + 0 = omega arith in
      subst (λ i. Filled q b i ms) (sym wraps)
        (Filled-turn q b 0 ms (omega arith) (subst (λ i. Filled q b i ms) turn rest))
  | inr e ↦
      let moves : advance q.queue_size q.front ≡ q.front + 1 = ground arith in
      subst (λ i. Filled q b i ms) (sym moves) rest
]

-- Sending to a queue with a free slot, from a buffer apart from the queue's, puts the message behind
-- the others.
pub put_message-Holds :
    (k : Kernel) (mq message : ℕ) (ms : List (List ℕ))
    → let q = k.mqueues mq in
      Holds q k.bytes ms
      → length ms < q.queue_size
      → Apart q.queue_start (q.msg_size * q.queue_size) message q.msg_size
      → Holds
          ((put_message mq message k).mqueues mq)
          (put_message mq message k).bytes
          (ms ++ read q.msg_size message k.bytes ∷ [])
unfolding put_message
put_message-Holds k mq message ms h room out =
    let q = k.mqueues mq in
    let m = read q.msg_size message k.bytes in
    let last = place q.queue_size (q.front + length ms) in
    let small = h.small in
    let front = h.front in
    let b = copy q.msg_size (slot q last) message k.bytes in
    let inside : last < q.queue_size = ground arith in
    let far : Apart (slot q last) q.msg_size message q.msg_size =
      ground (arith, slot-within q last inside) in
    let more : length (ms ++ m ∷ []) ≡ length ms + 1 = omega (arith, length-append ms (m ∷ [])) in
    let old =
      Filled-put q k.bytes message q.front (q.front + length ms) ms (omega arith) (omega arith)
        (omega arith) h.filled in
    let all =
      Filled-append q b q.front ms m old (read-copy q.msg_size (slot q last) message k.bytes far) in
    let same : (mq == mq) ≡ true = ground arith in
    record {
      small = ground arith;
      front = ground arith;
      room = ground arith;
      rear = ground (arith, h.rear);
      filled =
          let stored =
            Filled-index q q.front (advance q.queue_size q.rear) b q.front (ms ++ m ∷ []) all in
          let e : last ≡ q.rear = sym h.rear in
          let at_rear =
            subst
              (λ i.
                Filled (record q { rear = advance q.queue_size q.rear })
                  (copy q.msg_size (slot q i) message k.bytes) q.front (ms ++ m ∷ []))
              e stored in
          rw same at_rear;
    }

-- Receiving from a queue that holds a message, into a buffer apart from the queue's, takes the oldest
-- one out and leaves its bytes in the buffer.
pub get_message-Holds :
    (k : Kernel) (mq message : ℕ) (m : List ℕ) (ms : List (List ℕ))
    → let q = k.mqueues mq in
      Holds q k.bytes (m ∷ ms)
      → Apart q.queue_start (q.msg_size * q.queue_size) message q.msg_size
      → Holds ((get_message mq message k).mqueues mq) (get_message mq message k).bytes ms
        × (read q.msg_size message (get_message mq message k).bytes ≡ m)
unfolding get_message
get_message-Holds k mq message m ms h out =
    let q = k.mqueues mq in
    let next = advance q.queue_size q.front in
    let small = h.small in
    let front = h.front in
    let room = h.room in
    let same : (mq == mq) ≡ true = ground arith in
    let b = copy q.msg_size message (slot q q.front) k.bytes in
    let (first, rest) = open_Filled q k.bytes q.front m ms h.filled in
    let here : place q.queue_size q.front ≡ q.front = ground arith in
    let far : Apart message q.msg_size (slot q q.front) q.msg_size =
      ground (arith, slot-within q q.front front) in
    let kept =
      Filled-Apart q k.bytes message (slot q q.front) q.msg_size (q.front + 1) ms out (omega arith)
        rest in
    let read_it = read-copy q.msg_size message (slot q q.front) k.bytes far in
    (
      record {
        small = ground arith;
        front = ground arith;
        room = ground arith;
        rear = ground (arith, h.rear);
        filled =
            rw same
              (Filled-index q next q.rear b next ms (Filled-next q b ms front room small kept));
      },
      read_it ∙ subst (λ i. read q.msg_size (slot q i) k.bytes ≡ m) here first,
    )

Filled-same :
    (q : Mqueue) (b c : ℕ → ℕ) (f : ℕ) (ms : List (List ℕ))
    → ((a : ℕ) → q.queue_start ≤ a → a < q.queue_start + q.msg_size * q.queue_size → c a ≡ b a)
    → f + length ms ≤ q.queue_size + q.queue_size
    → Filled q b f ms
    → Filled q c f ms
unfolding Filled
Filled-same q b c f [] same le filled = refl
Filled-same q b c f (m ∷ ms) same le (first, rest) =
    let i = place q.queue_size f in
    let inside = slot-within q i (ground arith) in
    let low : q.queue_start ≤ slot q i = omega arith in
    (
      read_same q.msg_size (slot q i) (slot q i) c b
            (λ j lt. same (slot q i + j) (omega arith) (omega arith))
          ∙ first,
      Filled-same q b c (f + 1) ms same (ground arith) rest,
    )

-- Only the bytes of the buffer matter.
pub Holds-same :
    (q : Mqueue) (b c : ℕ → ℕ) (ms : List (List ℕ))
    → ((a : ℕ) → q.queue_start ≤ a → a < q.queue_start + q.msg_size * q.queue_size → c a ≡ b a)
    → Holds q b ms
    → Holds q c ms
Holds-same q b c ms same h = record {
  small = h.small;
  front = h.front;
  room = h.room;
  rear = h.rear;
  filled = Filled-same q b c q.front ms same (omega (arith, h.front, h.room)) h.filled;
}

-- ===== src/Hal/Uart/Line/Sent.antt =====
-- What goes out over the line.
use e_os_aarch64_hal.Base.{
  ℕ, zero, suc, ◌+◌, ◌-◌, ◌%◌, ◌≤◌, ◌<◌, ◌≡◌, ◌≢◌, refl, ap, sym, subst, ◌∙◌, arith, bit_and, ◌==◌,
  eq-cases, Bool-cases, inl, inr, if◌then◌else◌, List, [], ◌∷◌, ◌++◌, append_assoc, append-nil,
  some,
}
use e_os_aarch64_hal.Base.Run.{Run, ok, ◌>>=◌}
use e_os_aarch64_hal.Hal.Device.{Device}
use e_os_aarch64_hal.Hal.Uart.Line.{
  uartdr, uartfr, fr_txff, wait_room, send_byte, putc, put_bytes, puts,
}

-- The bytes of a text on the line, as writes to the data register.
abbrev pub on_line : List ℕ → List (ℕ × ℕ)
on_line [] = []
on_line (c ∷ s) =
    if c == b'\n'
    then (uartdr, b'\r') ∷ (uartdr, c % 256) ∷ on_line s
    else (uartdr, c % 256) ∷ on_line s

-- The output goes out in time: the flag that the transmitter is full clears within so many reads.
abbrev pub Drains : (ℕ → ℕ → ℕ) → ℕ → Type 0
Drains answer within =
    (n : ℕ) → (m : ℕ) × (m < within) × (bit_and (answer uartfr (n + m)) fr_txff ≡ 0)

-- Some reads later, the writes are appended.
record Wrote (d : Device) (ws : List (ℕ × ℕ)) (r : Run Device) : Type 0 where
  pub after : Device
  pub returns : r ≡ ok after
  pub written : after.written ≡ d.written ++ ws

module _ (answer : ℕ → ℕ → ℕ) where
  wait_room-Wrote :
      (fuel m : ℕ) (d : Device)
      → m < fuel
      → bit_and (answer uartfr (d.reads + m)) fr_txff ≡ 0
      → Wrote d [] (wait_room answer fuel d)
  unfolding wait_room
  wait_room-Wrote zero m d lt e = absurd (omega arith)
  wait_room-Wrote (suc fuel) m d lt e =
      elim (eq-cases (bit_and (answer uartfr d.reads) fr_txff) 0) [
        | inl now ↦ record {
          after = record d { reads = d.reads + 1 };
          returns = rw now refl;
          written = sym (append-nil d.written);
        }
        | inr busy ↦ elim (eq-cases m 0) [
          | inl z ↦
              let here : d.reads + m ≡ d.reads = omega arith in
              absurd (ground (arith, ap (λ n. bit_and (answer uartfr n) fr_txff) here))
          | inr s ↦
              let d1 = record d { reads = d.reads + 1 } in
              let some_left : m ≢ 0 = ground arith in
              let next : d1.reads + (m - 1) ≡ d.reads + m = omega (arith, some_left) in
              let w =
                wait_room-Wrote fuel (m - 1) d1 (omega arith)
                  (ap (λ n. bit_and (answer uartfr n) fr_txff) next ∙ e) in
              record { after = w.after; returns = rw busy w.returns; written = w.written }
        ]
      ]

  Wrote-then :
      (d : Device) (ws vs : List (ℕ × ℕ)) (r : Run Device) (f : Device → Run Device)
      → Wrote d ws r
      → ((d1 : Device) → Wrote d1 vs (f d1))
      → Wrote d (ws ++ vs) (r >>= f)
  Wrote-then d ws vs r f w g =
      let v = g w.after in
      record {
        after = v.after;
        returns = ap (λ (q : Run Device). q >>= f) w.returns ∙ v.returns;
        written =
            v.written
            ∙ (ap (λ (l : List (ℕ × ℕ)). l ++ vs) w.written ∙ append_assoc d.written ws vs);
      }

  module _ (fuel within : ℕ) (drains : Drains answer within) (enough : within ≤ fuel) where
    send_byte-Wrote : (c : ℕ) (d : Device) → Wrote d ((uartdr, c) ∷ []) (send_byte answer fuel c d)
    unfolding send_byte
    send_byte-Wrote c d =
        let (m, lt, clear) = drains d.reads in
        Wrote-then d [] ((uartdr, c) ∷ []) _ _ (wait_room-Wrote fuel m d (omega arith) clear) (λ d1.
          record {
            after = record d1 { written = d1.written ++ (uartdr, c) ∷ [] };
            returns = refl;
            written = refl;
          })

    putc-Wrote : (c : ℕ) (d : Device) → Wrote d (on_line (c ∷ [])) (putc answer fuel c d)
    unfolding putc
    putc-Wrote c d = elim (Bool-cases (c == b'\n')) [
      | inl e ↦ rw e (
          Wrote-then d ((uartdr, b'\r') ∷ []) ((uartdr, c % 256) ∷ []) _ _ (send_byte-Wrote b'\r' d)
            (send_byte-Wrote (c % 256)))
      | inr e ↦ rw e (send_byte-Wrote (c % 256) d)
    ]

    on_line-cons : (c : ℕ) (s : List ℕ) → on_line (c ∷ []) ++ on_line s ≡ on_line (c ∷ s)
    on_line-cons c s = elim (Bool-cases (c == b'\n')) [ inl e ↦ rw e refl | inr e ↦ rw e refl ]

    put_bytes-Wrote : (s : List ℕ) (d : Device) → Wrote d (on_line s) (put_bytes answer fuel s d)
    unfolding put_bytes
    put_bytes-Wrote [] d = record {
      after = d;
      returns = refl;
      written = sym (append-nil d.written);
    }
    put_bytes-Wrote (c ∷ s) d =
        subst (λ ws. Wrote d ws (putc answer fuel c d >>= put_bytes answer fuel s))
          (on_line-cons c s)
          (Wrote-then d (on_line (c ∷ [])) (on_line s) _ _ (putc-Wrote c d) (put_bytes-Wrote s))

    -- If the transmitter makes room within as many reads of its flags as there is fuel, then
    -- `early_uart_puts` comes to an end, and what it has written is the text to the data register, byte
    -- for byte, with a carriage return in front of every line feed.
    pub puts-sends :
        (s : List ℕ) (d : Device)
        → (after : Device) × (puts answer fuel (some s) d ≡ ok after)
          × (after.written ≡ d.written ++ on_line s)
    unfolding puts
    puts-sends s d = let w = put_bytes-Wrote s d in (w.after, w.returns, w.written)

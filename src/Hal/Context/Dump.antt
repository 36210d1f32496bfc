-- ===== src/Hal/Context/Dump.antt =====
-- What the dumps of a context print: `print_context` of eos_aarch64/hal/aarch64/context.c and
-- `dump_context_struct` of eos_aarch64/hal/aarch64/test.c, as the bytes that they hand to the UART.
use e_os_aarch64_hal.Base.{
  ℕ, zero, suc, ◌+◌, ◌-◌, ◌/◌, ◌%◌, ◌^◌, ◌≤◌, ◌≡◌, refl, inl, inr, Bool-cases, List, [], ◌∷◌, ◌++◌,
  ◌==◌, arith, ltb, if◌then◌else◌, some,
}
use e_os_aarch64_hal.Base.Run.{Run, ok, ◌>>=◌}
use e_os_aarch64_hal.NodeList.{null}
use e_os_aarch64_hal.Print.{codes}
use e_os_aarch64_hal.Print.Format.{word}
use e_os_aarch64_hal.Hal.Context.{Context, context_at}
use e_os_aarch64_hal.Hal.Device.{Device}
use e_os_aarch64_hal.Hal.Uart.Line.{puts}
use e_os_aarch64_hal.Hal.Uart.Serial.{put_hex, serial_directive, serial_loop, serial_bytes}
use e_os_aarch64_hal.Hal.Uart.Serial.Pieces.{in_hex, put_hex-in_hex}

-- One after the other.
infixr 30 ◌then◌
abbrev ◌then◌ : Run (List ℕ) → Run (List ℕ) → Run (List ℕ)
a then b = a >>= λ s. b >>= λ t. ok (s ++ t)

-- `for (i = 0; i < 31; i++)`, with the rounds that are left.
unfoldable pub context_registers : ℕ → Context → Run (List ℕ)
context_registers zero c = ok []
context_registers (suc left) c =
    let i = 30 - left in
    serial_bytes (codes "x%d = 0x%lx\n") (word i ∷ word (c.x i) ∷ []) then context_registers left c

unfoldable pub context_bytes : ℕ → (ℕ → ℕ) → Run (List ℕ)
context_bytes ctx_addr words =
    let c = context_at words ctx_addr in
    serial_bytes (codes "[ctx] base=0x%lx\n") (word ctx_addr ∷ [])
    then (if ctx_addr == null
        then ok (codes "Invalid context address\n")
        else (ok (codes "[Context dump]\n")
            then context_registers 31 c
            then serial_bytes (codes "SP_EL0  = 0x%lx\n") (word c.sp ∷ [])
            then serial_bytes (codes "ELR_EL1 = 0x%lx\n") (word c.elr_el1 ∷ [])
            then serial_bytes (codes "SPSR_EL1= 0x%lx\n") (word c.spsr_el1 ∷ [])
            then serial_bytes (codes "=======================\n") []))

-- An `int` as an `int64u_t`.
abbrev pub widened : ℕ → ℕ
widened i = if ltb i (2 ^ 31) then i else i + 2 ^ 64 - 2 ^ 32

-- `if (i < 10) … else …`: the number of a register.
abbrev pub register_number : ℕ → List ℕ
register_number i = if ltb i 10 then (48 + i) ∷ [] else (48 + i / 10) ∷ (48 + i % 10) ∷ []

unfoldable pub struct_registers : ℕ → Context → Run (List ℕ)
struct_registers zero c = ok []
struct_registers (suc left) c =
    let i = 30 - left in
    ok (codes "x")
    then ok (register_number i)
    then ok (codes "  = 0x")
    then put_hex (c.x i) 8
    then ok (codes "\n")
    then struct_registers left c

unfoldable pub struct_bytes : (tag id sp : ℕ) → (ℕ → ℕ) → Run (List ℕ)
struct_bytes tag id sp words =
    let c = context_at words sp in
    ok (codes "[CTX] ")
    then serial_bytes (codes "%d\n") (word ((tag + 1) % 2 ^ 32) ∷ [])
    then ok (codes " task")
    then put_hex (widened id) 1
    then ok (codes " base=")
    then put_hex sp 8
    then ok (codes "\n")
    then struct_registers 31 c
    then serial_bytes (codes "SP(EL1) = 0x%lx\n") (word c.sp ∷ [])
    then serial_bytes (codes "ELR_EL1 = 0x%lx\n") (word c.elr_el1 ∷ [])
    then serial_bytes (codes "SPSR_EL1= 0x%lx\n") (word c.spsr_el1 ∷ [])

module _ (answer : ℕ → ℕ → ℕ) (fuel : ℕ) where
  unfoldable pub print_context : ℕ → (ℕ → ℕ) → Device → Run Device
  print_context ctx_addr words d =
      context_bytes ctx_addr words >>= λ out. puts answer fuel (some out) d

  unfoldable pub dump_context_struct : (tag id sp : ℕ) → (ℕ → ℕ) → Device → Run Device
  dump_context_struct tag id sp words d =
      struct_bytes tag id sp words >>= λ out. puts answer fuel (some out) d

  pub debug_restore_context : (sp task_id : ℕ) → (ℕ → ℕ) → Device → Run Device
  debug_restore_context sp task_id words d = dump_context_struct task_id task_id sp words d

-- The bytes come to an end, without a fault.
abbrev pub Prints : Run (List ℕ) → Type 0
Prints r = (out : List ℕ) × (r ≡ ok out)

then-Prints : (a b : Run (List ℕ)) → Prints a → Prints b → Prints (a then b)
then-Prints a b (s, e) (t, f) = (s ++ t, rw (e, f) refl)

put_hex-Prints : (val width : ℕ) → width ≤ 32 → Prints (put_hex val width)
put_hex-Prints val width small = (in_hex val width, put_hex-in_hex val width small)

registers-Prints : (left : ℕ) (c : Context) → Prints (context_registers left c)
unfolding context_registers serial_bytes serial_loop serial_directive
registers-Prints zero c = ([], refl)
registers-Prints (suc left) c =
    then-Prints _ _ (rw (put_hex-in_hex (c.x (30 - left)) 16 (omega arith)) (_, refl))
      (registers-Prints left c)

base_line : (w : ℕ) → Prints (serial_bytes (codes "[ctx] base=0x%lx\n") (word w ∷ []))
unfolding serial_bytes serial_loop serial_directive
base_line w = rw (put_hex-in_hex w 16 (omega arith)) (_, refl)

sp_line : (w : ℕ) → Prints (serial_bytes (codes "SP_EL0  = 0x%lx\n") (word w ∷ []))
unfolding serial_bytes serial_loop serial_directive
sp_line w = rw (put_hex-in_hex w 16 (omega arith)) (_, refl)

elr_line : (w : ℕ) → Prints (serial_bytes (codes "ELR_EL1 = 0x%lx\n") (word w ∷ []))
unfolding serial_bytes serial_loop serial_directive
elr_line w = rw (put_hex-in_hex w 16 (omega arith)) (_, refl)

spsr_line : (w : ℕ) → Prints (serial_bytes (codes "SPSR_EL1= 0x%lx\n") (word w ∷ []))
unfolding serial_bytes serial_loop serial_directive
spsr_line w = rw (put_hex-in_hex w 16 (omega arith)) (_, refl)

last_line : Prints (serial_bytes (codes "=======================\n") [])
unfolding serial_bytes serial_loop serial_directive
last_line = (_, refl)

-- A dump of any context comes to an end; NULL is told apart.
pub context_bytes-Prints : (ctx_addr : ℕ) (words : ℕ → ℕ) → Prints (context_bytes ctx_addr words)
unfolding context_bytes
context_bytes-Prints ctx_addr words =
    let c = context_at words ctx_addr in
    elim (Bool-cases (ctx_addr == null)) [
      | inl e ↦ rw e (then-Prints _ _ (base_line ctx_addr) (_, refl))
      | inr e ↦ rw e (
          then-Prints _ _ (base_line ctx_addr) (
            then-Prints _ _ (codes "[Context dump]\n", refl)
              (then-Prints _ _ (registers-Prints 31 c) (
                then-Prints _ _ (sp_line c.sp) (
                  then-Prints _ _ (elr_line c.elr_el1)
                    (then-Prints _ _ (spsr_line c.spsr_el1) last_line))))))
    ]

struct_registers-Prints : (left : ℕ) (c : Context) → Prints (struct_registers left c)
unfolding struct_registers
struct_registers-Prints zero c = ([], refl)
struct_registers-Prints (suc left) c =
    then-Prints _ _ (codes "x", refl)
      (then-Prints _ _ (register_number (30 - left), refl)
        (then-Prints _ _ (codes "  = 0x", refl)
          (then-Prints _ _ (put_hex-Prints (c.x (30 - left)) 8 (omega arith))
            (then-Prints _ _ (codes "\n", refl) (struct_registers-Prints left c)))))

struct_line : (w : ℕ) → Prints (serial_bytes (codes "SP(EL1) = 0x%lx\n") (word w ∷ []))
unfolding serial_bytes serial_loop serial_directive
struct_line w = rw (put_hex-in_hex w 16 (omega arith)) (_, refl)

tag_line : (w : ℕ) → Prints (serial_bytes (codes "%d\n") (word w ∷ []))
unfolding serial_bytes serial_loop serial_directive
tag_line w = (_, refl)

pub struct_bytes-Prints : (tag id sp : ℕ) (words : ℕ → ℕ) → Prints (struct_bytes tag id sp words)
unfolding struct_bytes
struct_bytes-Prints tag id sp words =
    let c = context_at words sp in
    then-Prints _ _ (codes "[CTX] ", refl)
      (then-Prints _ _ (tag_line ((tag + 1) % 2 ^ 32)) (
        then-Prints _ _ (codes " task", refl)
          (then-Prints _ _ (put_hex-Prints (widened id) 1 (omega arith)) (
            then-Prints _ _ (codes " base=", refl)
              (then-Prints _ _ (put_hex-Prints sp 8 (omega arith)) (
                then-Prints _ _ (codes "\n", refl)
                  (then-Prints _ _ (struct_registers-Prints 31 c) (
                    then-Prints _ _ (struct_line c.sp)
                      (then-Prints _ _ (elr_line c.elr_el1) (spsr_line c.spsr_el1))))))))))

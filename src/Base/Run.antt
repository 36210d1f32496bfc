-- ===== src/Base/Run.antt =====
-- What a call of the kernel comes to: a result, a fault (a read through NULL), or a loop that does
-- not end within the fuel.
pub data Run {ℓ} (A : Type ℓ) : Type ℓ where
  ok : A → Run A
  fault : Run A
  hang : Run A

infixl 5 ◌>>=◌
abbrev pub ◌>>=◌ {ℓ κ} : {S : Type ℓ} {T : Type κ} → Run S → (S → Run T) → Run T
hang >>= next = hang
fault >>= next = fault
ok s >>= next = next s

-- ===== src/Memory.antt =====
-- The shared mapping and the commands that run on it (src/shmem/common.h): a mapping holds one
-- word for each field, under the field's address, and a command returns, fails an `assert`, waits
-- for another process, or has used up its fuel.
use libkrossbar.Prelude.{ℕ, ◌+◌, ◌-◌, ◌*◌, ◌/◌, ◌%◌, ◌^◌, Bool, ◌==◌, if◌then◌else◌}

-- Words under the addresses of the fields that hold them.
abbrev pub Memory : Type 0
Memory = ℕ → ℕ

unfoldable pub write : Memory → ℕ → ℕ → Memory
write m p v a = if a == p then v else m a

-- `aborted` is a failed assertion, `blocked` a wait for a lock that this process cannot release.
pub data Run (A : Type 0) : Type 0 where
  ok : A → Memory → Run A
  aborted : Run A
  blocked : Run A
  out_of_fuel : Run A

abbrev pub Cmd : Type 0 → Type 0
Cmd A = Memory → Run A

abbrev pub pure : {A : Type 0} → A → Cmd A
pure = ok

module _ {A B : Type 0} where
  abbrev pub and_then : Run A → (A → Cmd B) → Run B
  and_then (ok a m) k = k a m
  and_then aborted k = aborted
  and_then blocked k = blocked
  and_then out_of_fuel k = out_of_fuel

  infixl 5 ◌>>=◌ ◌>>◌
  abbrev pub ◌>>=◌ : Cmd A → (A → Cmd B) → Cmd B
  c >>= k = λ m. and_then (c m) k

  abbrev pub ◌>>◌ : Cmd A → Cmd B → Cmd B
  c >> d = c >>= λ _. d

abbrev pub load : ℕ → Cmd ℕ
load p m = ok (m p) m

abbrev pub store : ℕ → ℕ → Cmd (Unit {0})
store p v m = ok tt (write m p v)

abbrev pub assert : Bool → Cmd (Unit {0})
assert b m = if b then ok tt m else aborted

-- `size_t` and `uint64_t` arithmetic.
abbrev pub size_mod : ℕ
size_mod = 2 ^ 64

abbrev pub add_size : ℕ → ℕ → ℕ
add_size a b = (a + b) % size_mod

abbrev pub sub_size : ℕ → ℕ → ℕ
sub_size a b = (a + (size_mod - b % size_mod)) % size_mod

abbrev pub null : ℕ
null = 0

abbrev pub null_offset : ℕ
null_offset = 2 ^ 64 - 1

abbrev pub alignment : ℕ
alignment = 8

-- `((size) + (ALIGNMENT - 1)) & ~(ALIGNMENT - 1)`: the low three bits are cleared.
abbrev pub align : ℕ → ℕ
align size = add_size size (alignment - 1) / alignment * alignment

-- A 32-bit field in the low half of its word: the high half is padding that a store leaves alone.
abbrev pub low_half : ℕ → ℕ
low_half w = w % 2 ^ 32

abbrev pub with_low_half : ℕ → ℕ → ℕ
with_low_half w v = w / 2 ^ 32 * 2 ^ 32 + v % 2 ^ 32

abbrev pub load_u32 : ℕ → Cmd ℕ
load_u32 p m = ok (low_half (m p)) m

abbrev pub store_u32 : ℕ → ℕ → Cmd (Unit {0})
store_u32 p v m = ok tt (write m p (with_low_half (m p) v))

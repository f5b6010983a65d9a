-- ===== src/Base/Fields.antt =====
-- Little-endian fields of a byte buffer: `*(uint16_t *)(buf + a)` and `*(uint32_t *)(buf + a)`.
use Prim.Native.Nat.{ℕ, ◌+◌, ◌*◌, ◌/◌, ◌%◌, ◌^◌, ◌≤◌, ◌<◌}
use mathlib.Core.Path.{◌≡◌}
use mathlib.Core.Logic.{◌⊎◌}
use native.Mathlib.Omega.{arith}
use blue_star_os.Base.Tests.{◌==◌, if◌then◌else◌}
use blue_star_os.Base.Buffers.{Bytes}

unfoldable pub load16 : Bytes → ℕ → ℕ
load16 m a = m a + m (a + 1) * 2 ^ 8

unfoldable pub load32 : Bytes → ℕ → ℕ
load32 m a = m a + m (a + 1) * 2 ^ 8 + m (a + 2) * 2 ^ 16 + m (a + 3) * 2 ^ 24

unfoldable pub store16 : Bytes → ℕ → ℕ → Bytes
store16 m a v x = if x == a then v % 2 ^ 8 else if x == a + 1 then v / 2 ^ 8 % 2 ^ 8 else m x

unfoldable pub store32 : Bytes → ℕ → ℕ → Bytes
store32 m a v x =
    if x == a
    then v % 2 ^ 8
    else if x == a + 1
    then v / 2 ^ 8 % 2 ^ 8
    else if x == a + 2
    then v / 2 ^ 16 % 2 ^ 8
    else if x == a + 3
    then v / 2 ^ 24 % 2 ^ 8
    else m x

pub load16-store16 : (m : Bytes) (a v : ℕ) → v < 2 ^ 16 → load16 (store16 m a v) a ≡ v
unfolding load16 store16
load16-store16 m a v h = ground arith

pub load32-store32 : (m : Bytes) (a v : ℕ) → v < 2 ^ 32 → load32 (store32 m a v) a ≡ v
unfolding load32 store32
load32-store32 m a v h = ground arith

pub store32_out : (m : Bytes) (a v x : ℕ) → (x < a) ⊎ (a + 4 ≤ x) → store32 m a v x ≡ m x
unfolding store32
store32_out m a v x h = ground arith

pub load32_cong :
    (m n : Bytes) (a : ℕ) → ((x : ℕ) → a ≤ x → x < a + 4 → m x ≡ n x) → load32 m a ≡ load32 n a
unfolding load32
load32_cong m n a h = omega (
  arith,
  h a (omega arith) (omega arith),
  h (a + 1) (omega arith) (omega arith),
  h (a + 2) (omega arith) (omega arith),
  h (a + 3) (omega arith) (omega arith),
)

pub load32-lt : (m : Bytes) (a : ℕ) → ((x : ℕ) → m x < 256) → load32 m a < 2 ^ 32
unfolding load32
load32-lt m a h = omega (arith, h a, h (a + 1), h (a + 2), h (a + 3))

pub load32-store32_ne :
    (m : Bytes) (a b v : ℕ) → (b + 4 ≤ a) ⊎ (a + 4 ≤ b) → load32 (store32 m a v) b ≡ load32 m b
unfolding load32 store32
load32-store32_ne m a b v h = ground arith

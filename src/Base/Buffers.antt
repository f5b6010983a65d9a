-- ===== src/Base/Buffers.antt =====
-- Byte memory: a buffer, or all of memory, is a function from an offset or an address to a byte.
use Prim.Native.Nat.{ℕ, ◌+◌, ◌-◌, ◌≤◌, ◌<◌}
use mathlib.Core.Path.{◌≡◌, ap}
use mathlib.Core.Logic.{◌≢◌, ◌⊎◌}
use mathlib.Core.Bool.{◌&&◌, true}
use native.Mathlib.Omega.{arith}
use blue_star_os.Base.Tests.{leb, ltb, ◌==◌, if◌then◌else◌}

abbrev pub Bytes : Type 0
Bytes = ℕ → ℕ

unfoldable pub store : Bytes → ℕ → ℕ → Bytes
store m a v x = if x == a then v else m x

-- `n` bytes of `src` from `from` on, written at `a`; `memcpy` of disjoint ranges.
unfoldable pub blit : Bytes → ℕ → Bytes → ℕ → ℕ → Bytes
blit m a src from n x = if leb a x && ltb x (a + n) then src (from + (x - a)) else m x

-- `n` bytes equal to `v`, written at `a`; `memset`.
unfoldable pub fill : Bytes → ℕ → ℕ → ℕ → Bytes
fill m a v n x = if leb a x && ltb x (a + n) then v else m x

pub store_at : (m : Bytes) (a v : ℕ) → store m a v a ≡ v
unfolding store
store_at m a v = ground arith

pub store_ne : (m : Bytes) (a v x : ℕ) → x ≢ a → store m a v x ≡ m x
unfolding store
store_ne m a v x h = ground arith

pub fill_in : (m : Bytes) (a v n x : ℕ) → a ≤ x → x < a + n → fill m a v n x ≡ v
unfolding fill
fill_in m a v n x h k = ground arith

pub fill_out : (m : Bytes) (a v n x : ℕ) → ((x < a) ⊎ (a + n ≤ x)) → fill m a v n x ≡ m x
unfolding fill
fill_out m a v n x h = ground arith

pub blit_in :
    (m : Bytes) (a : ℕ) (src : Bytes) (from n i : ℕ)
    → i < n
    → blit m a src from n (a + i) ≡ src (from + i)
unfolding blit
blit_in m a src from n i h =
    let inside : (leb a (a + i) && ltb (a + i) (a + n)) ≡ true = ground arith in
    rw inside (ap src (omega arith))

pub blit_out :
    (m : Bytes) (a : ℕ) (src : Bytes) (from n x : ℕ)
    → (x < a) ⊎ (a + n ≤ x)
    → blit m a src from n x ≡ m x
unfolding blit
blit_out m a src from n x h = ground arith

-- ===== src/Pmm/Bits.antt =====
-- The bit macros of kernel/pmm.c on a bitmap of bytes, page by page.
use blue_star_os.Base.{
  ℕ, ◌/◌, ◌%◌, ◌<◌, ◌≡◌, refl, Bool, true, false, ◌||◌, not, bit_and, bit_or, arith, ◌==◌,
  if◌then◌else◌, u8, not32, ◌<<<◌, Bytes, store, all_below, all_below_at,
}
use blue_star_os.Pmm.{test_bit, set_bit, clear_bit}

abbrev pub IsBytes : Bytes → Type 0
IsBytes m = (x : ℕ) → m x < 256

abbrev pub agree : Bool → Bool → Bool
agree true b = b
agree false b = not b

pub agree_eq : (a b : Bool) → agree a b ≡ true → a ≡ b
agree_eq a b h = ground arith

-- Bit `k` of a byte.
abbrev pub bit : ℕ → ℕ → Bool
bit b k = not (bit_and b (1 <<< k) == 0)

set_table :
    all_below 256 (λ b.
      all_below 8
        (λ j. all_below 8 (λ k. agree (bit (u8 (bit_or b (1 <<< j))) k) ((k == j) || bit b k))))
    ≡ true
unfolding all_below
set_table = refl

clear_table :
    all_below 256 (λ b. all_below 8 (λ j.
      all_below 8 (λ k.
        agree (bit (u8 (bit_and b (not32 (1 <<< j)))) k) (if k == j then false else bit b k))))
    ≡ true
unfolding all_below
clear_table = refl

full_table : all_below 8 (bit 255) ≡ true
unfolding all_below
full_table = refl

set_byte :
    (b j k : ℕ) → b < 256 → j < 8 → k < 8 → bit (u8 (bit_or b (1 <<< j))) k ≡ ((k == j) || bit b k)
set_byte b j k hb hj hk =
    agree_eq _ _ (all_below_at 8 _ k (all_below_at 8 _ j (all_below_at 256 _ b set_table hb) hj) hk)

clear_byte :
    (b j k : ℕ)
    → b < 256
    → j < 8
    → k < 8
    → bit (u8 (bit_and b (not32 (1 <<< j)))) k ≡ (if k == j then false else bit b k)
clear_byte b j k hb hj hk =
    agree_eq _ _
      (all_below_at 8 _ k (all_below_at 8 _ j (all_below_at 256 _ b clear_table hb) hj) hk)

-- Every page of a byte 0xFF is in use.
pub test_bit_full : (m : Bytes) (i : ℕ) → m (i / 8) ≡ 255 → test_bit m i ≡ true
unfolding test_bit
test_bit_full m i e = rw e (all_below_at 8 _ (i % 8) full_table (omega arith))

pub test_bit-set_bit :
    (m : Bytes) (i j : ℕ) → IsBytes m → test_bit (set_bit m i) j ≡ ((j == i) || test_bit m j)
unfolding test_bit set_bit store
test_bit-set_bit m i j b =
    ground (arith, set_byte (m (i / 8)) (i % 8) (j % 8) (b (i / 8)) (omega arith) (omega arith))

pub test_bit-clear_bit :
    (m : Bytes) (i j : ℕ)
    → IsBytes m
    → test_bit (clear_bit m i) j ≡ (if j == i then false else test_bit m j)
unfolding test_bit clear_bit store
test_bit-clear_bit m i j b =
    ground (arith, clear_byte (m (i / 8)) (i % 8) (j % 8) (b (i / 8)) (omega arith) (omega arith))

pub set_bit-IsBytes : (m : Bytes) (i : ℕ) → IsBytes m → IsBytes (set_bit m i)
unfolding set_bit store
set_bit-IsBytes m i b x = ground (arith, b x)

pub clear_bit-IsBytes : (m : Bytes) (i : ℕ) → IsBytes m → IsBytes (clear_bit m i)
unfolding clear_bit store
clear_bit-IsBytes m i b x = ground (arith, b x)

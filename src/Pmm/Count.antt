-- ===== src/Pmm/Count.antt =====
-- The count of free pages against the bitmap of kernel/pmm.c.
use blue_star_os.Base.{
  ℕ, zero, suc, ◌+◌, ◌^◌, ◌≤◌, ◌<◌, ◌≡◌, refl, true, false, arith, if◌then◌else◌, Bytes,
}
use blue_star_os.Pmm.{State, test_bit, set_bit, clear_bit, claim}
use blue_star_os.Pmm.Bits.{IsBytes, test_bit-set_bit, test_bit-clear_bit, set_bit-IsBytes}

-- How many of the pages below `n` are free.
unfoldable pub count_free : Bytes → ℕ → ℕ
count_free m zero = 0
count_free m (suc n) = (if test_bit m n then 0 else 1) + count_free m n

-- The bytes are bytes, the memory fits 64-bit addresses, and `free_pages` is the bitmap's count.
pub record IsWellFormed (s : State) : Type 0 where
  pub bytes : IsBytes s.bitmap
  pub small : s.total_pages ≤ 2 ^ 52
  pub counted : s.free_pages ≡ count_free s.bitmap s.total_pages

pub count_free-le : (m : Bytes) (n : ℕ) → count_free m n ≤ n
unfolding count_free
count_free-le m zero = omega arith
count_free-le m (suc n) = ground (arith, count_free-le m n)

pub count_free-pos : (m : Bytes) (n i : ℕ) → i < n → test_bit m i ≡ false → 1 ≤ count_free m n
unfolding count_free
count_free-pos m zero i h f = absurd (omega arith)
count_free-pos m (suc n) i h f = ground (arith, count_free-pos m n i)

count_free-set_bit_out :
    (m : Bytes) (n i : ℕ) → IsBytes m → n ≤ i → count_free (set_bit m i) n ≡ count_free m n
unfolding count_free
count_free-set_bit_out m zero i b h = refl
count_free-set_bit_out m (suc n) i b h =
    ground (arith, count_free-set_bit_out m n i b, test_bit-set_bit m i n b)

count_free-set_bit :
    (m : Bytes) (n i : ℕ)
    → IsBytes m
    → i < n
    → test_bit m i ≡ false
    → count_free m n ≡ suc (count_free (set_bit m i) n)
unfolding count_free
count_free-set_bit m zero i b h f = absurd (omega arith)
count_free-set_bit m (suc n) i b h f =
    ground
      (arith, count_free-set_bit m n i b, count_free-set_bit_out m n i b, test_bit-set_bit m i n b)

count_free-clear_bit_out :
    (m : Bytes) (n i : ℕ) → IsBytes m → n ≤ i → count_free (clear_bit m i) n ≡ count_free m n
unfolding count_free
count_free-clear_bit_out m zero i b h = refl
count_free-clear_bit_out m (suc n) i b h =
    ground (arith, count_free-clear_bit_out m n i b, test_bit-clear_bit m i n b)

pub count_free-clear_bit :
    (m : Bytes) (n i : ℕ)
    → IsBytes m
    → i < n
    → test_bit m i ≡ true
    → count_free (clear_bit m i) n ≡ suc (count_free m n)
unfolding count_free
count_free-clear_bit m zero i b h f = absurd (omega arith)
count_free-clear_bit m (suc n) i b h f = ground (
  arith,
  count_free-clear_bit m n i b,
  count_free-clear_bit_out m n i b,
  test_bit-clear_bit m i n b,
)

-- Claiming a free page keeps the count right.
pub claim-IsWellFormed :
    (s : State) (page : ℕ)
    → page < s.total_pages
    → test_bit s.bitmap page ≡ false
    → IsWellFormed s
    → IsWellFormed (claim s page)
unfolding claim
claim-IsWellFormed s page h f w = record {
  bytes = set_bit-IsBytes s.bitmap page w.bytes;
  small = w.small;
  counted = omega (
    arith,
    w.counted,
    w.small,
    count_free-le s.bitmap s.total_pages,
    count_free-set_bit s.bitmap s.total_pages page w.bytes h f,
  );
}

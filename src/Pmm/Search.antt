-- ===== src/Pmm/Search.antt =====
-- The search of `pmm_alloc_page` against a plain scan of the pages in order.
use blue_star_os.Base.{
  ℕ, zero, suc, ◌+◌, ◌-◌, ◌*◌, ◌/◌, ◌≤◌, ◌<◌, ◌≡◌, refl, ap, ◌∙◌, Bool, true, false, ◌&&◌, inl, inr,
  not, Option, none, some, arith, if◌then◌else◌, u64, Bool-cases,
}
use blue_star_os.Pmm.{
  State, kernel_pages, test_bit, is_address_valid, free_in_byte, scan_bytes, scan_bits, find_page,
}
use blue_star_os.Pmm.Bits.{test_bit_full}

-- A page that may be handed out: free, at an address that the allocator takes for valid.
unfoldable pub usable : State → ℕ → Bool
usable s page = not (test_bit s.bitmap page) && is_address_valid (u64 (page * 4096))

-- The first usable page among `n` pages from `i` on.
pub first_usable : State → ℕ → ℕ → Option ℕ
first_usable s zero i = none
first_usable s (suc n) i =
    let rest = first_usable s n (i + 1) in if usable s i then some i else rest

abbrev or_else : Option ℕ → Option ℕ → Option ℕ
or_else none o = o
or_else (some a) o = some a

first_usable-add :
    (s : State) (n k i : ℕ)
    → first_usable s (n + k) i ≡ or_else (first_usable s n i) (first_usable s k (i + n))
unfolding first_usable
first_usable-add s zero k i = ground arith
first_usable-add s (suc n) k i =
    let out : suc n + k ≡ suc (n + k) = omega arith in
    let shift : i + suc n ≡ i + 1 + n = omega arith in
    rw (out, shift) (ground (arith, first_usable-add s n k (i + 1)))

first_usable-none :
    (s : State) (n i : ℕ)
    → ((p : ℕ) → i ≤ p → p < i + n → usable s p ≡ false)
    → first_usable s n i ≡ none
unfolding first_usable
first_usable-none s zero i h = refl
first_usable-none s (suc n) i h =
    ground (arith, h i, first_usable-none s n (i + 1) (λ p a b. h p (omega arith) (omega arith)))

scan_bits_lem : (s : State) (n i : ℕ) → scan_bits s n i ≡ first_usable s n i
unfolding scan_bits first_usable usable
scan_bits_lem s zero i = refl
scan_bits_lem s (suc n) i = ground (arith, scan_bits_lem s n (i + 1))

free_in_byte_lem :
    (s : State) (i n j : ℕ)
    → i * 8 + j + n ≤ s.total_pages
    → free_in_byte s i n j ≡ first_usable s n (i * 8 + j)
unfolding free_in_byte first_usable usable
free_in_byte_lem s i zero j h = refl
free_in_byte_lem s i (suc n) j h = ground (arith, free_in_byte_lem s i n (j + 1))

-- A byte 0xFF holds no usable page, so the byte scan may pass over it.
full_byte : (s : State) (i : ℕ) → s.bitmap i ≡ 255 → first_usable s 8 (i * 8) ≡ none
unfolding usable
full_byte s i e = first_usable-none s 8 (i * 8) λ p a b.
    let same : p / 8 ≡ i = omega arith in rw (test_bit_full s.bitmap p (ap s.bitmap same ∙ e))

scan_bytes_lem :
    (s : State) (n i : ℕ)
    → (i + n) * 8 ≤ s.total_pages
    → scan_bytes s n i ≡ first_usable s (n * 8) (i * 8)
unfolding scan_bytes first_usable
scan_bytes_lem s zero i h = refl
scan_bytes_lem s (suc n) i h =
    let split : suc n * 8 ≡ 8 + n * 8 = omega arith in
    let next : i * 8 + 8 ≡ (i + 1) * 8 = omega arith in
    rw (split, first_usable-add s 8 (n * 8) (i * 8), next)
      (ground (arith, full_byte s i, free_in_byte_lem s i 8 0, scan_bytes_lem s n (i + 1)))

-- In a memory of 16 MB or more the search of pmm_alloc_page by bytes finds what a scan of every
-- page from the 16 MB mark on finds.
pub find_page-first_usable :
    (s : State)
    → kernel_pages ≤ s.total_pages
    → find_page s ≡ first_usable s (s.total_pages - kernel_pages) kernel_pages
unfolding find_page
find_page-first_usable s h =
    let whole = s.total_pages / 8 - 512 in
    let left = s.total_pages - s.total_pages / 8 * 8 in
    let split : s.total_pages - kernel_pages ≡ whole * 8 + left = omega arith in
    let meet : 4096 + whole * 8 ≡ s.total_pages / 8 * 8 = omega arith in
    rw (split, first_usable-add s (whole * 8) left 4096, meet)
      (ground (arith, scan_bytes_lem s whole 512, scan_bits_lem s left (s.total_pages / 8 * 8)))

-- `page` is the first usable page in [lo, hi).
pub record IsFirst (s : State) (lo hi page : ℕ) : Type 0 where
  pub above : lo ≤ page
  pub below : page < hi
  pub is_usable : usable s page ≡ true
  pub skipped : (q : ℕ) → lo ≤ q → q < page → usable s q ≡ false

pub first_usable-some :
    (s : State) (n i : ℕ) {page : ℕ} → first_usable s n i ≡ some page → IsFirst s i (i + n) page
unfolding first_usable
first_usable-some s zero i h = cc
first_usable-some s (suc n) i {page} h = elim (Bool-cases (usable s i)) [
  | inl u ↦ record {
    above = ground arith;
    below = ground arith;
    is_usable = ground arith;
    skipped = λ q a b. ground arith;
  }
  | inr u ↦
      let r : IsFirst s (i + 1) (i + 1 + n) page = first_usable-some s n (i + 1) (rw u at h) in
      record {
        above = omega (arith, r.above);
        below = omega (arith, r.below);
        is_usable = r.is_usable;
        skipped = λ q a b. ground (arith, r.skipped q);
      }
]

pub first_usable-eq-none :
    (s : State) (n i : ℕ)
    → first_usable s n i ≡ none
    → (q : ℕ) → i ≤ q
    → q < i + n
    → usable s q ≡ false
unfolding first_usable
first_usable-eq-none s zero i h q a b = absurd (omega arith)
first_usable-eq-none s (suc n) i h q a b = elim (Bool-cases (usable s i)) [
  | inl u ↦ let taken : some i ≡ none = rw u at h in cc
  | inr u ↦ let later = first_usable-eq-none s n (i + 1) (rw u at h) in ground (arith, later q)
]

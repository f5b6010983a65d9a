-- ===== src/Pmm/Map.antt =====
-- What `pmm_init` of kernel/pmm.c takes out of the memory map: where memory ends, and the region of
-- the bitmap.
use blue_star_os.Base.{
  ℕ, zero, suc, ◌+◌, ◌*◌, ◌%◌, ◌^◌, ◌≤◌, ◌<◌, ◌≡◌, refl, sym, false, ◌&&◌, ◌⊎◌, inl, inr, arith,
  ◌==◌, ltb, leb, Bool-cases, u64,
}
use native.Mathlib.Decide.{ℕ_discrete}
use blue_star_os.Pmm.{Descriptor, highest, bitmap_region}

-- The first address behind a region.
abbrev pub region_end : Descriptor → ℕ
region_end d = (d.physical_start + d.number_of_pages * 4096) % 2 ^ 64

-- `top` is the highest end of the regions from `i` on, `n` of them, or `low` if that is higher.
pub record IsTop (mmap : ℕ → Descriptor) (n i low top : ℕ) : Type 0 where
  pub above : (j : ℕ) → i ≤ j → j < i + n → region_end (mmap j) ≤ top
  pub not_below : low ≤ top
  pub reached : (top ≡ low) ⊎ ((j : ℕ) × (i ≤ j) × (j < i + n) × (region_end (mmap j) ≡ top))

at_most : {a b : ℕ} → ltb a b ≡ false → b ≤ a
at_most h = ground arith

u64_sum : (a b : ℕ) → u64 (a + u64 b) ≡ (a + b) % 2 ^ 64
u64_sum a b = omega arith

pub highest-IsTop :
    (mmap : ℕ → Descriptor) (n i low : ℕ) → IsTop mmap n i low (highest mmap n i low)
unfolding highest
highest-IsTop mmap zero i low = record {
  above = λ j h k. absurd (omega arith);
  not_below = omega arith;
  reached = inl refl;
}
highest-IsTop mmap (suc n) i low =
    let e = region_end (mmap i) in
    let same = u64_sum (mmap i).physical_start ((mmap i).number_of_pages * 4096) in
    rw same (elim (Bool-cases (ltb low e)) [
      | inl up ↦
          let rest = highest-IsTop mmap n (i + 1) e in
          rw up (record {
            above = λ j h k. elim (ℕ_discrete j i) [
              | yes here ↦ rw here rest.not_below
              | no other ↦ rest.above j (omega (arith, h, other)) (omega (arith, k))
            ];
            not_below = ground (arith, rest.not_below);
            reached = elim rest.reached [
              | inl at ↦ inr (i, omega arith, omega arith, sym at)
              | inr (j, l, h, at) ↦ inr (j, omega arith, omega arith, at)
            ];
          })
      | inr stay ↦
          let rest = highest-IsTop mmap n (i + 1) low in
          rw stay (record {
            above = λ j h k. elim (ℕ_discrete j i) [
              | yes here ↦ rw here (omega (arith, rest.not_below, at_most stay))
              | no other ↦ rest.above j (omega (arith, h, other)) (omega (arith, k))
            ];
            not_below = rest.not_below;
            reached = elim rest.reached [
              | inl at ↦ inl at
              | inr (j, l, h, at) ↦ inr (j, omega arith, omega arith, at)
            ];
          })
    ])

-- The region of the bitmap: the address 0, or the start of a conventional region from 16 MB on
-- that has room.
pub record IsRegion (d : Descriptor) (size start : ℕ) : Type 0 where
  pub conventional : d.kind ≡ 7
  pub room : size ≤ d.number_of_pages * 4096 % 2 ^ 64
  pub high : 0x1000000 ≤ start
  pub at_start : d.physical_start ≡ start

pub bitmap_region-IsRegion :
    (mmap : ℕ → Descriptor) (size n i : ℕ)
    → (bitmap_region mmap size n i ≡ 0)
      ⊎ ((j : ℕ) × (i ≤ j) × (j < i + n) × IsRegion (mmap j) size (bitmap_region mmap size n i))
unfolding bitmap_region
bitmap_region-IsRegion mmap size zero i = inl refl
bitmap_region-IsRegion mmap size (suc n) i =
    elim (Bool-cases (
      (((mmap i).kind == 7) && leb size (u64 ((mmap i).number_of_pages * 4096)))
      && leb 0x1000000 (mmap i).physical_start)) [
        | inl here ↦ rw here (
            inr (
              i,
              omega arith,
              omega arith,
              record {
                conventional = ground arith;
                room = ground arith;
                high = ground arith;
                at_start = refl;
              },
            ))
        | inr past ↦ rw past (elim (bitmap_region-IsRegion mmap size n (i + 1)) [
          | inl none ↦ inl none
          | inr (j, low, high, r) ↦ inr (j, omega arith, omega arith, r)
        ])
      ]

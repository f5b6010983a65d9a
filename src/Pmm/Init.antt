-- ===== src/Pmm/Init.antt =====
-- `pmm_init` of kernel/pmm.c: what it frees of a region, and what it keeps.
use blue_star_os.Base.{
  ℕ, zero, suc, ◌+◌, ◌-◌, ◌*◌, ◌/◌, ◌%◌, ◌^◌, ◌≤◌, ◌<◌, ◌≡◌, refl, ◌∙◌, ◌≢◌, true, false, ◌||◌,
  ◌&&◌, not, ◌⊎◌, inl, inr, arith, ◌==◌, ltb, leb, if◌then◌else◌, Bool-cases, u8, u64, sub64, not32,
  ◌<<<◌, ◌>>>◌, bit_and, Bytes, store, fill, all_below, all_below_at,
}
use blue_star_os.Pmm.{
  State, Descriptor, test_bit, release_head, release_body, release_tail, release_range,
  release_region, release_all,
}
use blue_star_os.Pmm.Bits.{IsBytes, bit, agree, agree_eq}

low_table :
    all_below 256 (λ b. all_below 8 (λ e. all_below 8 (λ k.
      agree
        (bit (u8 (bit_and b (not32 (0xFF >>> (8 - e))))) k)
        (if ltb k e then false else bit b k))))
    ≡ true
unfolding all_below
low_table = refl

high_table :
    all_below 256 (λ b. all_below 8 (λ e. all_below 8 (λ k.
      agree
        (bit (u8 (bit_and b (not32 (u8 (0xFF <<< e))))) k)
        (if leb e k then false else bit b k))))
    ≡ true
unfolding all_below
high_table = refl

low_byte :
    (b e k : ℕ)
    → b < 256
    → e < 8
    → k < 8
    → bit (u8 (bit_and b (not32 (0xFF >>> (8 - e))))) k ≡ (if ltb k e then false else bit b k)
low_byte b e k hb he hk =
    agree_eq _ _ (all_below_at 8 _ k (all_below_at 8 _ e (all_below_at 256 _ b low_table hb) he) hk)

high_byte :
    (b e k : ℕ)
    → b < 256
    → e < 8
    → k < 8
    → bit (u8 (bit_and b (not32 (u8 (0xFF <<< e))))) k ≡ (if leb e k then false else bit b k)
high_byte b e k hb he hk =
    agree_eq _ _
      (all_below_at 8 _ k (all_below_at 8 _ e (all_below_at 256 _ b high_table hb) he) hk)

zero_table : all_below 8 (λ k. not (bit 0 k)) ≡ true
unfolding all_below
zero_table = refl

zero_bit : (k : ℕ) → k < 8 → bit 0 k ≡ false
zero_bit k h = let off = all_below_at 8 _ k zero_table h in ground arith

head_bit :
    (m : Bytes) (start q : ℕ)
    → IsBytes m
    → test_bit (release_head m start) q ≡ (
        if not (start % 8 == 0) && ((q / 8 == start / 8) && leb (start % 8) (q % 8))
        then false
        else test_bit m q)
unfolding release_head test_bit store
head_bit m start q b = ground (
  arith,
  high_byte (m (start / 8)) (start % 8) (q % 8) (b (start / 8)) (omega arith) (omega arith),
)

body_bit :
    (m : Bytes) (lo hi q : ℕ)
    → test_bit (release_body m lo hi) q
      ≡ (if leb lo (q / 8) && ltb (q / 8) hi then false else test_bit m q)
unfolding release_body test_bit fill
body_bit m lo hi q = ground (arith, zero_bit (q % 8) (omega arith))

tail_bit :
    (m : Bytes) (lo end byte q : ℕ)
    → IsBytes m
    → test_bit (release_tail m lo end byte) q ≡ (
        if (byte == sub64 lo 1) && ((q / 8 == byte) && ltb (q % 8) (end % 8))
        then false
        else test_bit m q)
unfolding release_tail test_bit store
tail_bit m lo end byte q b =
    ground (arith, low_byte (m byte) (end % 8) (q % 8) (b byte) (omega arith) (omega arith))

head-IsBytes : (m : Bytes) (start : ℕ) → IsBytes m → IsBytes (release_head m start)
unfolding release_head store
head-IsBytes m start b x = ground (arith, b x)

body-IsBytes : (m : Bytes) (lo hi : ℕ) → IsBytes m → IsBytes (release_body m lo hi)
unfolding release_body fill
body-IsBytes m lo hi b x = ground (arith, b x)

tail-IsBytes : (m : Bytes) (lo end byte : ℕ) → IsBytes m → IsBytes (release_tail m lo end byte)
unfolding release_tail store
tail-IsBytes m lo end byte b x = ground (arith, b x)

release_range_bit :
    (m : Bytes) (start end q : ℕ)
    → IsBytes m
    → let last = (end - 1) / 8 in
      let first = if start % 8 == 0 then start / 8 else start / 8 + 1 in
      test_bit (release_range m start end) q ≡ (
        if (last == sub64 first 1) && ((q / 8 == last) && ltb (q % 8) (end % 8))
        then false
        else if leb first (q / 8) && ltb (q / 8) last
        then false
        else if not (start % 8 == 0) && ((q / 8 == start / 8) && leb (start % 8) (q % 8))
        then false
        else test_bit m q)
unfolding release_range
release_range_bit m start end q b =
    let last = (end - 1) / 8 in
    let first = if start % 8 == 0 then start / 8 else start / 8 + 1 in
    let head = head-IsBytes m start b in
    rw (
      tail_bit (release_body (release_head m start) first last) first end last q
          (body-IsBytes (release_head m start) first last head),
      body_bit (release_head m start) first last q,
      head_bit m start q b,
    )

-- A region that starts at a byte of the bitmap, or reaches into a later byte than its first: its
-- pages become free up to the byte that holds its last page, and no other page changes. So the
-- pages of the region in that last byte stay in use.
pub release_range_lost :
    (m : Bytes) (start end q : ℕ)
    → IsBytes m
    → start < end
    → end ≤ 2 ^ 52
    → (start % 8 ≡ 0) ⊎ (start / 8 < (end - 1) / 8)
    → test_bit (release_range m start end) q
      ≡ (if leb start q && ltb q ((end - 1) / 8 * 8) then false else test_bit m q)
release_range_lost m start end q b lt small apart =
    rw (release_range_bit m start end q b) (ground arith)

-- A region inside one byte of the bitmap that starts after the byte's first page and ends before
-- its last: all eight pages of the byte become free, those outside the region too.
pub release_range_spill :
    (m : Bytes) (start end q : ℕ)
    → IsBytes m
    → start < end
    → end ≤ 2 ^ 52
    → start % 8 ≢ 0
    → end % 8 ≢ 0
    → start / 8 ≡ (end - 1) / 8
    → q / 8 ≡ start / 8
    → test_bit (release_range m start end) q ≡ false
release_range_spill m start end q b lt small s e one in_byte =
    rw (release_range_bit m start end q b) (ground arith)

release_range-IsBytes :
    (m : Bytes) (start end : ℕ) → IsBytes m → IsBytes (release_range m start end)
unfolding release_range
release_range-IsBytes m start end b =
    tail-IsBytes _ _ _ _ (body-IsBytes _ _ _ (head-IsBytes m start b))

release_region-IsBytes :
    (d : Descriptor) (s : State) → IsBytes s.bitmap → IsBytes (release_region d s).bitmap
unfolding release_region
release_region-IsBytes d s b =
    let start = d.physical_start / 4096 in
    let raw = u64 (start + d.number_of_pages) in
    let end = if ltb s.total_pages raw then s.total_pages else raw in
    elim (Bool-cases (((d.kind == 7) || (d.kind == 3) || (d.kind == 4)) && ltb start end)) [
      | inl e ↦ rw (e, release_region) (release_range-IsBytes s.bitmap start end b)
      | inr e ↦ rw (e, release_region) b
    ]

-- What the loop over the regions leaves alone.
pub record Kept (s t : State) : Type 0 where
  pub bytes : IsBytes t.bitmap
  pub total : t.total_pages ≡ s.total_pages
  pub size : t.bitmap_size ≡ s.bitmap_size
  pub place : t.bitmap_addr ≡ s.bitmap_addr

release_region-Kept : (d : Descriptor) (s : State) → IsBytes s.bitmap → Kept s (release_region d s)
release_region-Kept d s b = record {
  bytes = release_region-IsBytes d s b;
  total = unfold release_region in ground arith;
  size = unfold release_region in ground arith;
  place = unfold release_region in ground arith;
}

pub release_all-Kept :
    (mmap : ℕ → Descriptor) (n i : ℕ) (s : State)
    → IsBytes s.bitmap
    → Kept s (release_all mmap n i s)
unfolding release_all
release_all-Kept mmap zero i s b = record { bytes = b; total = refl; size = refl; place = refl }
release_all-Kept mmap (suc n) i s b =
    let k = release_region-Kept (mmap i) s b in
    let r = release_all-Kept mmap n (i + 1) (release_region (mmap i) s) k.bytes in
    record {
      bytes = r.bytes;
      total = r.total ∙ k.total;
      size = r.size ∙ k.size;
      place = r.place ∙ k.place;
    }

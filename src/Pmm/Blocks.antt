-- ===== src/Pmm/Blocks.antt =====
-- `pmm_alloc_blocks` of kernel/pmm.c: the run that it finds, and the marks that it sets.
use blue_star_os.Base.{
  ℕ, ◌+◌, ◌-◌, ◌*◌, ◌/◌, ◌%◌, ◌^◌, ◌≤◌, ◌<◌, ◌≡◌, refl, ◌∙◌, ◌≢◌, true, false, ◌||◌, ◌&&◌, not, ◌⊎◌,
  inl, inr, some, arith, ◌==◌, ltb, leb, if◌then◌else◌, Bool-cases, u8, u64, sub64, ◌<<<◌, ◌>>>◌,
  bit_or, Bytes, store, fill, all_below, all_below_at,
}
use blue_star_os.Pmm.{
  State, kernel_pages, test_bit, find_run, mark_head, mark_body, mark_tail, mark_range,
  pmm_alloc_blocks,
}
use blue_star_os.Pmm.Bits.{IsBytes, bit, agree, agree_eq}
use blue_star_os.Pmm.Runs.{IsRun, find_run-bitmap, find_run_complete}

low_table :
    all_below 256 (λ b. all_below 8 (λ e.
      all_below 8 (λ k. agree (bit (u8 (bit_or b (0xFF >>> (8 - e)))) k) (ltb k e || bit b k))))
    ≡ true
unfolding all_below
low_table = refl

high_table :
    all_below 256 (λ b. all_below 8 (λ e.
      all_below 8 (λ k. agree (bit (u8 (bit_or b (u8 (0xFF <<< e)))) k) (leb e k || bit b k))))
    ≡ true
unfolding all_below
high_table = refl

low_byte :
    (b e k : ℕ)
    → b < 256
    → e < 8
    → k < 8
    → bit (u8 (bit_or b (0xFF >>> (8 - e)))) k ≡ (ltb k e || bit b k)
low_byte b e k hb he hk =
    agree_eq _ _ (all_below_at 8 _ k (all_below_at 8 _ e (all_below_at 256 _ b low_table hb) he) hk)

high_byte :
    (b e k : ℕ)
    → b < 256
    → e < 8
    → k < 8
    → bit (u8 (bit_or b (u8 (0xFF <<< e)))) k ≡ (leb e k || bit b k)
high_byte b e k hb he hk =
    agree_eq _ _
      (all_below_at 8 _ k (all_below_at 8 _ e (all_below_at 256 _ b high_table hb) he) hk)

full_byte_table : all_below 8 (bit 255) ≡ true
unfolding all_below
full_byte_table = refl

full_bit : (k : ℕ) → k < 8 → bit 255 k ≡ true
full_bit k h = all_below_at 8 _ k full_byte_table h

head_bit :
    (m : Bytes) (start q : ℕ)
    → IsBytes m
    → test_bit (mark_head m start) q ≡ (
        (not (start % 8 == 0) && ((q / 8 == start / 8) && leb (start % 8) (q % 8))) || test_bit m q)
unfolding mark_head test_bit store
head_bit m start q b = ground (
  arith,
  high_byte (m (start / 8)) (start % 8) (q % 8) (b (start / 8)) (omega arith) (omega arith),
)

body_bit :
    (m : Bytes) (lo hi q : ℕ)
    → test_bit (mark_body m lo hi) q ≡ ((leb lo (q / 8) && ltb (q / 8) hi) || test_bit m q)
unfolding mark_body test_bit fill
body_bit m lo hi q = ground (arith, full_bit (q % 8) (omega arith))

tail_bit :
    (m : Bytes) (end byte q : ℕ)
    → IsBytes m
    → test_bit (mark_tail m end byte) q
      ≡ (((q / 8 == byte) && ltb (q % 8) (end % 8)) || test_bit m q)
unfolding mark_tail test_bit store
tail_bit m end byte q b =
    ground (arith, low_byte (m byte) (end % 8) (q % 8) (b byte) (omega arith) (omega arith))

head-IsBytes : (m : Bytes) (start : ℕ) → IsBytes m → IsBytes (mark_head m start)
unfolding mark_head store
head-IsBytes m start b x = ground (arith, b x)

body-IsBytes : (m : Bytes) (lo hi : ℕ) → IsBytes m → IsBytes (mark_body m lo hi)
unfolding mark_body fill
body-IsBytes m lo hi b x = ground (arith, b x)

-- The bits that the code sets, whatever the block: those of the block's pages in the first and the
-- whole bytes, those below the end in the last byte, and in the first byte all above the start.
mark_range_bit :
    (m : Bytes) (start count q : ℕ)
    → IsBytes m
    → let end = start + count in
      let last = (end - 1) / 8 in
      test_bit (mark_range m start count) q ≡ (
        ((q / 8 == last) && ltb (q % 8) (end % 8))
        || ((leb (if start % 8 == 0 then start / 8 else start / 8 + 1) (q / 8) && ltb (q / 8) last)
            || ((not (start % 8 == 0) && ((q / 8 == start / 8) && leb (start % 8) (q % 8)))
                || test_bit m q)))
unfolding mark_range
mark_range_bit m start count q b =
    let lo = if start % 8 == 0 then start / 8 else start / 8 + 1 in
    let last = (start + count - 1) / 8 in
    let head = head-IsBytes m start b in
    rw (
      tail_bit (mark_body (mark_head m start) lo last) (start + count) last q
          (body-IsBytes (mark_head m start) lo last head),
      body_bit (mark_head m start) lo last q,
      head_bit m start q b,
    )

-- For a block that starts and ends as the code expects (it ends inside a byte, and starts at a
-- byte or in an earlier byte), exactly the pages of the block become used.
pub mark_range_exact :
    (m : Bytes) (start count q : ℕ)
    → IsBytes m
    → 0 < count
    → (start + count) % 8 ≢ 0
    → (start % 8 ≡ 0) ⊎ (start / 8 < (start + count) / 8)
    → test_bit (mark_range m start count) q
      ≡ ((leb start q && ltb q (start + count)) || test_bit m q)
mark_range_exact m start count q b pos inside apart =
    rw (mark_range_bit m start count q b) (ground arith)

-- Either the address of a run of `count` free pages at or above 16 MB and inside memory, and the
-- count falls by `count`; or null and the same state, where `count` is 0, more than `free_pages`,
-- or no such run exists.
abbrev pub BlocksSpec : ℕ → State → ℕ × State → Type 0
BlocksSpec count s (addr, s') =
    ((page : ℕ) × (addr ≡ page * 4096)
      × IsRun s page count
      × (kernel_pages ≤ page)
      × (page + count ≤ s.total_pages)
      × (s'.free_pages + count ≡ s.free_pages)
      × (s'.bitmap ≡ mark_range s.bitmap page count))
    ⊎ ((addr ≡ 0)
        × (s' ≡ s)
        × ((count ≡ 0)
            ⊎ ((s.free_pages < count)
                ⊎ ((page : ℕ)
                    → kernel_pages ≤ page
                    → page + count ≤ s.total_pages
                    → ¬ IsRun s page count))))

-- In a memory from 16 MB to 2 ^ 52 pages, pmm_alloc_blocks returns the address of a run of that
-- many free pages at or above 16 MB whenever there is one and free_pages allows it, and then marks
-- the pages of that run as mark_range does and takes the count off free_pages; else it returns
-- null and changes nothing.
pub pmm_alloc_blocks-BlocksSpec :
    (count : ℕ) (s : State)
    → kernel_pages ≤ s.total_pages
    → s.total_pages ≤ 2 ^ 52
    → s.free_pages < 2 ^ 64
    → BlocksSpec count s (pmm_alloc_blocks count s)
unfolding pmm_alloc_blocks
pmm_alloc_blocks-BlocksSpec count s big small fits =
    elim (Bool-cases ((count == 0) || ltb s.free_pages count)) [
      | inl refused ↦
          rw (refused, pmm_alloc_blocks)
            (inr (
              refl,
              refl,
              elim (Bool-cases (count == 0)) [
                | inl z ↦ inl (ground arith)
                | inr nz ↦ inr (inl (ground arith))
              ],
            ))
      | inr asked ↦
          elim (find_run_complete s count kernel_pages (s.total_pages - kernel_pages)
            (ground arith)) [
              | inl (page, e, run, lo, hi) ↦
                  rw (asked, e, pmm_alloc_blocks)
                    (inl (page, ground arith, run, lo, omega arith, ground arith, refl))
              | inr (e, gone) ↦
                  rw (asked, e, pmm_alloc_blocks)
                    (inr (refl, refl, inr (inr λ page a b. gone page a (omega arith))))
            ]
    ]

-- A block that ends at a byte's end and does not begin inside its last byte: none of the pages of
-- that byte is marked.
pub mark_range_lost :
    (m : Bytes) (start count q : ℕ)
    → IsBytes m
    → 0 < count
    → (start + count) % 8 ≡ 0
    → (start % 8 ≡ 0) ⊎ (start / 8 < (start + count - 1) / 8)
    → q / 8 ≡ (start + count - 1) / 8
    → test_bit (mark_range m start count) q ≡ test_bit m q
mark_range_lost m start count q b pos whole apart last =
    rw (mark_range_bit m start count q b) (ground arith)

mark_one_byte : (m : Bytes) (start : ℕ) → start % 8 ≡ 0 → mark_range m start 8 ≡ m
unfolding mark_range mark_head mark_body mark_tail
mark_one_byte m start e = ground arith

alloc_hit :
    (s : State) (page : ℕ)
    → find_run s 8 (s.total_pages - kernel_pages) kernel_pages 0 0 ≡ some page
    → page % 8 ≡ 0
    → 8 ≤ s.free_pages
    → pmm_alloc_blocks 8 s
      ≡ (u64 (page * 4096), record s { bitmap = s.bitmap; free_pages = sub64 s.free_pages 8 })
unfolding pmm_alloc_blocks
alloc_hit s page e aligned enough =
    let open_gate : ltb s.free_pages 8 ≡ false = ground arith in
    rw (open_gate, e, mark_one_byte s.bitmap page aligned)

-- Two requests for eight pages in a row, where the first free run of eight starts at a multiple of
-- eight pages and sixteen pages are counted free: the first marks nothing, and the second gets the
-- same block.
pub pmm_alloc_blocks_twice :
    (s : State) (page : ℕ)
    → find_run s 8 (s.total_pages - kernel_pages) kernel_pages 0 0 ≡ some page
    → page % 8 ≡ 0
    → 16 ≤ s.free_pages
    → s.free_pages < 2 ^ 64
    → let (addr, s') = pmm_alloc_blocks 8 s in
      (addr ≡ u64 (page * 4096)) × (s'.bitmap ≡ s.bitmap) × ((pmm_alloc_blocks 8 s').0 ≡ addr)
pmm_alloc_blocks_twice s page e aligned enough fits =
    let s' : State = record s { free_pages = sub64 s.free_pages 8 } in
    let again = find_run-bitmap s' s 8 (s.total_pages - kernel_pages) kernel_pages 0 0 refl ∙ e in
    rw (alloc_hit s page e aligned (omega arith))
      (refl, refl, rw (alloc_hit s' page again aligned (omega arith)))

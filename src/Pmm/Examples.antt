-- ===== src/Pmm/Examples.antt =====
-- Small memories for kernel/pmm.c: tests, and the theorems at them.
use blue_star_os.Base.{
  ℕ, zero, suc, ◌+◌, ◌-◌, ◌*◌, ◌≡◌, refl, false, ◌&&◌, some, arith, ltb, leb, if◌then◌else◌, u64,
  Bytes, store, fill,
}
use blue_star_os.Pmm.{
  State, Descriptor, kernel_pages, test_bit, set_bit, is_address_valid, claim, highest,
  bitmap_region, release_head, release_body, release_tail, release_range, release_region,
  release_all, protect_one, protect, pmm_init, free_in_byte, scan_bytes, find_page, pmm_alloc_page,
  find_run, pmm_alloc_blocks, pmm_free_page, pmm_free_blocks,
}
use mathlib.Core.Option
use blue_star_os.Pmm.Bits.{IsBytes}
use blue_star_os.Pmm.Count.{IsWellFormed, count_free}
use blue_star_os.Pmm.Search.{usable, first_usable, find_page-first_usable}
use blue_star_os.Pmm.Page.{AllocSpec, Allocated, claim-Allocated, pmm_alloc_page-AllocSpec}
use blue_star_os.Pmm.Release.{
  releasable, Freed, pmm_free_page-Freed, pmm_free_page_undo, pmm_free_blocks-pages,
}
use blue_star_os.Pmm.Blocks.{BlocksSpec, pmm_alloc_blocks-BlocksSpec, pmm_alloc_blocks_twice}
use blue_star_os.Pmm.Guard.{IsGuarded, pmm_init-guards}

-- 4112 pages: the first 16 MB in use, the sixteen pages above free.
abbrev small_bitmap : Bytes
small_bitmap = fill (λ _. 0) 0 0xFF 512

abbrev small : State
small = record {
  bitmap_addr = 0x1000000;
  bitmap = small_bitmap;
  total_pages = 4112;
  free_pages = 16;
  bitmap_size = 514;
}

small-IsBytes : IsBytes small_bitmap
unfolding fill
small-IsBytes x = ground arith

small-IsWellFormed : IsWellFormed small
unfolding fill count_free test_bit
small-IsWellFormed = record { bytes = small-IsBytes; small = omega arith; counted = refl }

first_page : (pmm_alloc_page small).0 ≡ 0x1000000
unfolding fill pmm_alloc_page find_page scan_bytes free_in_byte test_bit is_address_valid
first_page = refl

find_page-first_usable_example :
    find_page small ≡ first_usable small (4112 - kernel_pages) kernel_pages
find_page-first_usable_example = find_page-first_usable small (omega arith)

pmm_alloc_page-AllocSpec_example : AllocSpec small (pmm_alloc_page small)
pmm_alloc_page-AllocSpec_example = pmm_alloc_page-AllocSpec small (omega arith) small-IsWellFormed

pmm_free_page-Freed_example : Freed small 4096 (pmm_free_page 0x1000123 small)
pmm_free_page-Freed_example = pmm_free_page-Freed 0x1000123 small small-IsWellFormed

small-Allocated : Allocated small 4096 (claim small 4096)
unfolding fill test_bit is_address_valid usable
small-Allocated = claim-Allocated small 4096 small-IsWellFormed (record {
  above = omega arith;
  below = omega arith;
  is_usable = refl;
  skipped = λ q a b. absurd (omega arith);
})

pmm_free_page_undo_example :
    let t = pmm_free_page (4096 * 4096) (claim small 4096) in
    ((q : ℕ) → test_bit t.bitmap q ≡ test_bit small_bitmap q) × (t.free_pages ≡ 16)
pmm_free_page_undo_example =
    pmm_free_page_undo small (claim small 4096) 4096 small-IsWellFormed small-Allocated

pmm_free_blocks-pages_example :
    let t = pmm_free_blocks 0x1000000 4 small in
    IsWellFormed t
    × ((q : ℕ)
        → test_bit t.bitmap q ≡ (
            if releasable small q && (leb 4096 q && ltb q (4096 + 4))
            then false
            else test_bit small_bitmap q))
pmm_free_blocks-pages_example =
    pmm_free_blocks-pages 0x1000000 4 small small-IsWellFormed (omega arith)

pmm_alloc_blocks-BlocksSpec_example : BlocksSpec 5 small (pmm_alloc_blocks 5 small)
pmm_alloc_blocks-BlocksSpec_example =
    pmm_alloc_blocks-BlocksSpec 5 small (omega arith) (omega arith) (omega arith)

small_run : find_run small 8 (4112 - kernel_pages) kernel_pages 0 0 ≡ some 4096
unfolding fill find_run test_bit
small_run = refl

pmm_alloc_blocks_twice_example :
    let (addr, s') = pmm_alloc_blocks 8 small in
    (addr ≡ u64 (4096 * 4096)) × (s'.bitmap ≡ small_bitmap) × ((pmm_alloc_blocks 8 s').0 ≡ addr)
pmm_alloc_blocks_twice_example =
    pmm_alloc_blocks_twice small 4096 small_run (omega arith) (omega arith) (omega arith)

-- Firmware that reports 20 MB: the first megabyte in use, the rest free.
abbrev firmware : ℕ → Descriptor
firmware zero = record { kind = 1; physical_start = 0; number_of_pages = 256 }
firmware (suc _) = record { kind = 7; physical_start = 0x1000000; number_of_pages = 1024 }

pmm_init-guards_example :
    (s : State) × (pmm_init firmware 80 40 ≡ some s) × IsGuarded firmware 80 40 s
pmm_init-guards_example = pmm_init-guards firmware 80 40 (omega arith)

-- Of 1024 free pages counted, the last byte of the region stays in use, and the bitmap takes one
-- page.
init_counts :
    Option.map {B = ℕ × ℕ}
      (λ (s : State). (s.free_pages, count_free s.bitmap s.total_pages))
      (pmm_init firmware 80 40)
    ≡ some (1023, 1015)
unfolding pmm_init highest bitmap_region release_all release_region release_range release_head
    release_body release_tail protect protect_one claim set_bit test_bit store fill count_free
init_counts = refl

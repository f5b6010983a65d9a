-- ===== src/Pmm.antt =====
-- kernel/pmm.c: the physical page allocator, a bitmap with one bit for each 4 KiB page (set: in
-- use) and a count of free pages. The static variables are the record `State`. The bitmap's bytes
-- are a memory of their own: what else shares its page is not modelled. Each loop is counted, and
-- recurs on the rounds that are left.

pub mod Bits
pub mod Count
pub mod Search
pub mod Page
pub mod Release
pub mod Runs
pub mod Blocks
pub mod Map
pub mod Init
pub mod Guard
mod Examples
use blue_star_os.Base.{
  ℕ, zero, suc, ◌+◌, ◌-◌, ◌*◌, ◌/◌, ◌%◌, ◌^◌, bit_and, bit_or, Bool, true, false, ◌&&◌, ◌||◌, not,
  Option, none, some, ltb, leb, ◌==◌, if◌then◌else◌, u8, u64, sub64, not32, ◌<<<◌, ◌>>>◌, Bytes,
  store, fill,
}

pub record State : Type 0 where
  pub bitmap_addr : ℕ
  pub bitmap : Bytes
  pub total_pages : ℕ
  pub free_pages : ℕ
  pub bitmap_size : ℕ

-- `efi_mem_desc_t`, less the fields that the allocator does not read.
pub record Descriptor : Type 0 where
  pub kind : ℕ
  pub physical_start : ℕ
  pub number_of_pages : ℕ

-- 0x1000000 / 4096.
abbrev pub kernel_pages : ℕ
kernel_pages = 4096

-- TEST_BIT, SET_BIT and CLEAR_BIT on the bytes of a bitmap.
pub test_bit : Bytes → ℕ → Bool
test_bit m i = not (bit_and (m (i / 8)) (1 <<< (i % 8)) == 0)

pub set_bit : Bytes → ℕ → Bytes
set_bit m i = store m (i / 8) (u8 (bit_or (m (i / 8)) (1 <<< (i % 8))))

pub clear_bit : Bytes → ℕ → Bytes
clear_bit m i = store m (i / 8) (u8 (bit_and (m (i / 8)) (not32 (1 <<< (i % 8)))))

pub is_address_valid : ℕ → Bool
is_address_valid addr =
    if addr == 0 || addr == 2 ^ 64 - 1
    then false
    else if ltb 0x0000008000000000 addr
    then false
    else true

-- `SET_BIT(page); free_pages--`.
pub claim : State → ℕ → State
claim s page = record s { bitmap = set_bit s.bitmap page; free_pages = sub64 s.free_pages 1 }

-- pmm_init: the end of memory, and the first region that can hold the bitmap (0: none).
pub highest : (ℕ → Descriptor) → ℕ → ℕ → ℕ → ℕ
highest mmap zero i max_addr = max_addr
highest mmap (suc left) i max_addr =
    let end = u64 ((mmap i).physical_start + u64 ((mmap i).number_of_pages * 4096)) in
    highest mmap left (i + 1) (if ltb max_addr end then end else max_addr)

pub bitmap_region : (ℕ → Descriptor) → ℕ → ℕ → ℕ → ℕ
bitmap_region mmap size zero i = 0
bitmap_region mmap size (suc left) i =
    let d = mmap i in
    let rest = bitmap_region mmap size left (i + 1) in
    if (d.kind == 7) && leb size (u64 (d.number_of_pages * 4096)) && leb 0x1000000 d.physical_start
    then d.physical_start
    else rest

-- pmm_init: frees the pages [start_page, end_page), whole bytes at a time: the bits of a first byte
-- that is not whole, the whole bytes, and the bits of a last one.
pub release_head : Bytes → ℕ → Bytes
release_head m start_page =
    let mask = u8 (0xFF <<< (start_page % 8)) in
    if start_page % 8 == 0
    then m
    else store m (start_page / 8) (u8 (bit_and (m (start_page / 8)) (not32 mask)))

pub release_body : Bytes → ℕ → ℕ → Bytes
release_body m start_byte end_byte =
    if ltb start_byte end_byte then fill m start_byte 0 (end_byte - start_byte) else m

pub release_tail : Bytes → ℕ → ℕ → ℕ → Bytes
release_tail m start_byte end_page end_byte =
    let mask = 0xFF >>> (8 - end_page % 8) in
    if (end_byte == sub64 start_byte 1) && not (end_page % 8 == 0)
    then store m end_byte (u8 (bit_and (m end_byte) (not32 mask)))
    else m

pub release_range : Bytes → ℕ → ℕ → Bytes
release_range m start_page end_page =
    let end_byte = (end_page - 1) / 8 in
    let start_byte = if start_page % 8 == 0 then start_page / 8 else start_page / 8 + 1 in
    release_tail (release_body (release_head m start_page) start_byte end_byte) start_byte end_page
      end_byte

pub release_region : Descriptor → State → State
release_region d s =
    let start_page = d.physical_start / 4096 in
    let raw_end = u64 (start_page + d.number_of_pages) in
    let end_page = if ltb s.total_pages raw_end then s.total_pages else raw_end in
    if ((d.kind == 7) || (d.kind == 3) || (d.kind == 4)) && ltb start_page end_page
    then record s {
      bitmap = release_range s.bitmap start_page end_page;
      free_pages = u64 (s.free_pages + (end_page - start_page));
    }
    else s

pub release_all : (ℕ → Descriptor) → ℕ → ℕ → State → State
release_all mmap zero i s = s
release_all mmap (suc left) i s = release_all mmap left (i + 1) (release_region (mmap i) s)

-- Marks a page as used if it is inside memory and still free.
pub protect_one : ℕ → State → State
protect_one i s = if ltb i s.total_pages && not (test_bit s.bitmap i) then claim s i else s

-- Marks `left` pages from `i` on.
pub protect : ℕ → ℕ → State → State
protect zero i s = s
protect (suc left) i s = protect left (i + 1) (protect_one i s)

-- `none`: a descriptor size of zero, for which the code stops in an endless loop.
pub pmm_init : (ℕ → Descriptor) → ℕ → ℕ → Option State
pmm_init mmap mmap_size desc_size =
    let desc_count = mmap_size / desc_size in
    let total_pages = highest mmap desc_count 0 0 / 4096 in
    let bitmap_size = (total_pages + 7) / 8 in
    let bitmap = bitmap_region mmap bitmap_size desc_count 0 in
    let all_used : State = record {
      bitmap_addr = bitmap;
      bitmap = fill (λ _. 0) 0 0xFF bitmap_size;
      total_pages = total_pages;
      free_pages = 0;
      bitmap_size = bitmap_size;
    } in
    let released = release_all mmap desc_count 0 all_used in
    let guarded = protect kernel_pages 0 released in
    if desc_size == 0
    then none
    else some (protect ((bitmap_size + 4095) / 4096) (bitmap / 4096) guarded)

-- pmm_alloc_page: the scan of one byte's bits, the scan of bytes, and the scan of the bits left.
pub free_in_byte : State → ℕ → ℕ → ℕ → Option ℕ
free_in_byte s i zero j = none
free_in_byte s i (suc left) j =
    let page = i * 8 + j in
    let rest = free_in_byte s i left (j + 1) in
    if leb s.total_pages page
    then none
    else if not (test_bit s.bitmap page) && is_address_valid (u64 (page * 4096))
    then some page
    else rest

pub scan_bytes : State → ℕ → ℕ → Option ℕ
scan_bytes s zero i = none
scan_bytes s (suc left) i =
    let rest = scan_bytes s left (i + 1) in
    if s.bitmap i == 0xFF
    then rest
    else elim (free_in_byte s i 8 0) [ some page ↦ some page | none ↦ rest ]

pub scan_bits : State → ℕ → ℕ → Option ℕ
scan_bits s zero i = none
scan_bits s (suc left) i =
    let rest = scan_bits s left (i + 1) in
    if not (test_bit s.bitmap i) && is_address_valid (u64 (i * 4096)) then some i else rest

pub find_page : State → Option ℕ
find_page s =
    let last_byte = s.total_pages / 8 in
    elim (scan_bytes s (last_byte - kernel_pages / 8) (kernel_pages / 8)) [
      | some page ↦ some page
      | none ↦ scan_bits s (s.total_pages - last_byte * 8) (last_byte * 8)
    ]

-- A null pointer is 0.
pub pmm_alloc_page : State → ℕ × State
pmm_alloc_page s = elim (find_page s) [
  | some page ↦ (u64 (page * 4096), claim s page)
  | none ↦ (0, s)
]

-- The second component of the state is physical memory.
pub pmm_alloc_zpage : State → Bytes → ℕ × State × Bytes
pmm_alloc_zpage s memory =
    let (addr, s') = pmm_alloc_page s in
    (addr, s', if addr == 0 then memory else fill memory addr 0 4096)

-- pmm_alloc_blocks: marks the pages [start_index, start_index + count), whole bytes at a time: the
-- bits of a first byte that is not whole, the whole bytes, and the bits of a last one.
pub mark_head : Bytes → ℕ → Bytes
mark_head m start_index =
    let mask = u8 (0xFF <<< (start_index % 8)) in
    if start_index % 8 == 0
    then m
    else store m (start_index / 8) (u8 (bit_or (m (start_index / 8)) mask))

pub mark_body : Bytes → ℕ → ℕ → Bytes
mark_body m start_byte end_byte =
    if ltb start_byte end_byte then fill m start_byte 0xFF (end_byte - start_byte) else m

pub mark_tail : Bytes → ℕ → ℕ → Bytes
mark_tail m end_index end_byte =
    let mask = 0xFF >>> (8 - end_index % 8) in
    if end_index % 8 == 0 then m else store m end_byte (u8 (bit_or (m end_byte) mask))

pub mark_range : Bytes → ℕ → ℕ → Bytes
mark_range m start_index count =
    let end_index = start_index + count in
    let end_byte = (end_index - 1) / 8 in
    let start_byte = if start_index % 8 == 0 then start_index / 8 else start_index / 8 + 1 in
    mark_tail (mark_body (mark_head m start_index) start_byte end_byte) end_index end_byte

-- The first page of the first run of `count` free pages at `i` or above; `consecutive` free pages
-- end at `i`, the first of them `start_index`.
pub find_run : State → ℕ → ℕ → ℕ → ℕ → ℕ → Option ℕ
find_run s count zero i consecutive start_index = none
find_run s count (suc left) i consecutive start_index =
    let taken = test_bit s.bitmap i in
    let first = if consecutive == 0 then i else start_index in
    let rest =
      find_run s count left (i + 1) (if taken then 0 else consecutive + 1)
        (if taken then start_index else first) in
    if not taken && (consecutive + 1 == count) then some first else rest

pub pmm_alloc_blocks : ℕ → State → ℕ × State
pmm_alloc_blocks count s =
    if (count == 0) || ltb s.free_pages count
    then (0, s)
    else elim (find_run s count (s.total_pages - kernel_pages) kernel_pages 0 0) [
      | none ↦ (0, s)
      | some start_index ↦ (
        u64 (start_index * 4096),
        record s {
          bitmap = mark_range s.bitmap start_index count;
          free_pages = sub64 s.free_pages count;
        },
      )
    ]

pub pmm_free_page : ℕ → State → State
pmm_free_page addr s =
    let page_index = addr / 4096 in
    if leb kernel_pages page_index && ltb page_index s.total_pages && test_bit s.bitmap page_index
    then record s { bitmap = clear_bit s.bitmap page_index; free_pages = u64 (s.free_pages + 1) }
    else s

pub free_loop : ℕ → ℕ → State → State
free_loop zero i s = s
free_loop (suc left) i s = free_loop left (i + 1) (pmm_free_page (u64 (i * 4096)) s)

pub pmm_free_blocks : ℕ → ℕ → State → State
pmm_free_blocks addr count s = free_loop count (addr / 4096) s

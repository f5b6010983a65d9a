-- ===== src/Heap.antt =====
-- kernel/memory.c: the kernel heap, which only grows. `heap_used` and the bytes of memory are the
-- record `Heap`; the lines that the functions print on the serial port are left out.
mod Blocks
mod Examples
use blue_star_os.Base.{
  ℕ, ◌+◌, ◌-◌, ◌*◌, ◌/◌, ◌^◌, ltb, ◌==◌, if◌then◌else◌, u32, Bytes, fill, load32, store32,
}

abbrev pub heap_base : ℕ
heap_base = 0x2000000

-- 32 MB.
abbrev pub heap_size : ℕ
heap_size = 32 * 1024 * 1024

abbrev pub alloc_magic : ℕ
alloc_magic = 0xDEADBEEF

pub record Heap : Type 0 where
  pub used : ℕ
  pub memory : Bytes

mem_init : Heap → Heap
mem_init h = record h { used = 0 }

-- What an allocation takes: the request and its header, rounded up to a multiple of eight by
-- `(total_size + 7) & ~7`, in 32 bits.
pub total_size : ℕ → ℕ
total_size size = u32 (u32 (size + 8) + 7) / 8 * 8

-- A null pointer is 0. The header is the size and the magic word.
pub kmalloc : ℕ → Heap → ℕ × Heap
kmalloc size h =
    let info = heap_base + h.used in
    if size == 0
    then (0, h)
    else if ltb heap_size (u32 (h.used + total_size size))
    then (0, h)
    else (
      info + 8,
      record {
        used = u32 (h.used + total_size size);
        memory = store32 (store32 h.memory info size) (info + 4) alloc_magic;
      },
    )

pub kfree : ℕ → Heap → Heap
kfree ptr h =
    let info = ptr - 8 in
    if ptr == 0
    then h
    else if load32 h.memory (info + 4) == alloc_magic
    then record h { memory = fill h.memory ptr 0 (load32 h.memory info) }
    else h

-- `mem_info`: what it prints, in bytes, and the usage in per cent.
pub record Info : Type 0 where
  pub used_bytes : ℕ
  pub free_bytes : ℕ
  pub usage : ℕ

mem_info : Heap → Info
mem_info h = record {
  used_bytes = h.used;
  free_bytes = u32 (heap_size + 2 ^ 32 - h.used);
  usage = u32 (h.used * 100) / heap_size;
}

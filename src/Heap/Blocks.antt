-- ===== src/Heap/Blocks.antt =====
-- The blocks of kernel/memory.c: placement, headers, and requests near the end of the word.
use blue_star_os.Base.{
  ℕ, ◌+◌, ◌-◌, ◌*◌, ◌/◌, ◌%◌, ◌^◌, ◌≤◌, ◌<◌, ◌≡◌, refl, ◌≢◌, false, ◌⊎◌, inl, inr, arith, ◌==◌, ltb,
  u32, Bytes, fill, load32, store32, load32-store32, store32_out, load32_cong, ◌∙◌, ap, fun_ext,
  fill_in, fill_out,
}
use native.Mathlib.Decide.{dec_lt}
use blue_star_os.Heap.{Heap, heap_base, heap_size, alloc_magic, total_size, kmalloc, kfree}

pub record IsHeap (h : Heap) : Type 0 where
  pub within : h.used ≤ heap_size
  pub aligned : h.used % 8 ≡ 0

-- A block at `ptr` with room for `size` bytes, whose header says so.
pub record IsBlock (m : Bytes) (ptr size : ℕ) : Type 0 where
  pub aligned : ptr % 8 ≡ 0
  pub above : heap_base + 8 ≤ ptr
  pub size_word : load32 m (ptr - 8) ≡ size
  pub magic_word : load32 m (ptr - 4) ≡ alloc_magic

pub record Placed (size : ℕ) (h : Heap) (ptr : ℕ) (h' : Heap) : Type 0 where
  pub block : IsBlock h'.memory ptr size
  pub after : heap_base + h.used + 8 ≡ ptr
  pub room : ptr + size ≤ heap_base + h'.used
  pub still : IsHeap h'
  pub elsewhere : (x : ℕ) → (x < heap_base + h.used) ⊎ (ptr ≤ x) → h'.memory x ≡ h.memory x

header :
    (m : Bytes) (info size : ℕ)
    → size < 2 ^ 32
    → let m' = store32 (store32 m info size) (info + 4) alloc_magic in
      (load32 m' info ≡ size) × (load32 m' (info + 4) ≡ alloc_magic)
header m info size h = (
  load32_cong _ (store32 m info size) info
        (λ x a b. store32_out (store32 m info size) (info + 4) alloc_magic x (omega arith))
      ∙ load32-store32 m info size h,
  load32-store32 (store32 m info size) (info + 4) alloc_magic (omega arith),
)

abbrev need : ℕ → ℕ
need size = (size + 15) / 8 * 8

total_size-need : (size : ℕ) → size < 2 ^ 32 → total_size size ≡ u32 (need size)
unfolding total_size
total_size-need size h = omega arith

kmalloc_fits :
    (size : ℕ) (h : Heap)
    → 0 < size
    → size < 2 ^ 32
    → u32 (h.used + need size) ≤ heap_size
    → kmalloc size h ≡ (
      heap_base + h.used + 8,
      record {
        used = u32 (h.used + need size);
        memory =
            store32
              (store32 h.memory (heap_base + h.used) size)
              (heap_base + h.used + 4)
              alloc_magic;
      },
    )
unfolding kmalloc
kmalloc_fits size h pos word fits =
    let asked : (size == 0) ≡ false = ground arith in
    let sum : u32 (h.used + total_size size) ≡ u32 (h.used + need size) =
      omega (arith, total_size-need size word) in
    let room : ltb heap_size (u32 (h.used + need size)) ≡ false = ground arith in
    rw (asked, sum, room)

kmalloc_null :
    (size : ℕ) (h : Heap)
    → size < 2 ^ 32
    → (size ≡ 0) ⊎ (heap_size < u32 (h.used + need size))
    → kmalloc size h ≡ (0, h)
unfolding kmalloc
kmalloc_null size h word why =
    let sum : u32 (h.used + total_size size) ≡ u32 (h.used + need size) =
      omega (arith, total_size-need size word) in
    rw sum (ground arith)

served :
    (size : ℕ) (h : Heap)
    → ((size ≡ 0) ⊎ (heap_size < h.used + need size))
      ⊎ ((0 < size) × (h.used + need size ≤ heap_size))
served size h = elim (dec_lt 0 size) [
  | no z ↦ inl (inl (omega arith))
  | yes pos ↦ elim (dec_lt heap_size (h.used + need size)) [
    | yes big ↦ inl (inr big)
    | no fits ↦ inr (pos, omega arith)
  ]
]

-- A request that does not carry the end of the heap around 32 bits is served at that end: the
-- block is 8-aligned, stands behind a header with the size and the magic word, lies below the new
-- end and inside the heap, and only the header is written. It gets null, and changes nothing,
-- exactly when it is empty or does not fit.
pub kmalloc-Placed :
    (size : ℕ) (h : Heap)
    → IsHeap h
    → h.used + size + 16 ≤ 2 ^ 32
    → let (ptr, h') = kmalloc size h in
      ((0 < size) × (h.used + (size + 15) / 8 * 8 ≤ heap_size) × Placed size h ptr h')
      ⊎ (((size ≡ 0) ⊎ (heap_size < h.used + (size + 15) / 8 * 8)) × (ptr ≡ 0) × (h' ≡ h))
kmalloc-Placed size h v small = elim (served size h) [
  | inl (inl z) ↦ rw (kmalloc_null size h (omega arith) (inl z)) (inr (inl z, refl, refl))
  | inl (inr big) ↦
      rw (kmalloc_null size h (omega arith) (inr (omega arith))) (inr (inr big, refl, refl))
  | inr (pos, fits) ↦
      let whole : u32 (h.used + need size) ≡ h.used + (size + 15) / 8 * 8 = omega arith in
      let info : heap_base + h.used + 8 - 8 ≡ heap_base + h.used = omega arith in
      let magic : heap_base + h.used + 8 - 4 ≡ heap_base + h.used + 4 = omega arith in
      let words = header h.memory (heap_base + h.used) size (omega arith) in
      rw (kmalloc_fits size h pos (omega arith) (rw whole fits)) (
        inl (
          pos,
          fits,
          record {
            block = record {
              aligned = omega (arith, v.aligned);
              above = omega arith;
              size_word = rw info words.0;
              magic_word = rw magic words.1;
            };
            after = refl;
            room = omega (arith, whole);
            still = record {
              within = omega (arith, whole);
              aligned = omega (arith, whole, v.aligned);
            };
            elsewhere = λ x out.
                store32_out (store32 h.memory (heap_base + h.used) size) (heap_base + h.used + 4)
                  alloc_magic x (omega arith)
                ∙ store32_out h.memory (heap_base + h.used) size x (omega arith);
          },
        ))
]

-- The sum is kept in 32 bits: a request that carries the heap's end around gets a block, and the
-- end moves by at most eight bytes up, or down, into blocks handed out before.
pub kmalloc_wraps :
    (size : ℕ) (h : Heap)
    → IsHeap h
    → 0 < size
    → size < 2 ^ 32
    → 2 ^ 32 ≤ h.used + (size + 15) / 8 * 8
    → h.used + 8 ≤ heap_size
    → let (ptr, h') = kmalloc size h in
      (ptr ≡ heap_base + h.used + 8)
      × (h'.used + 2 ^ 32 ≡ h.used + (size + 15) / 8 * 8)
      × (h'.used ≤ h.used + 8)
kmalloc_wraps size h v pos word around room =
    let back : u32 (h.used + need size) + 2 ^ 32 ≡ h.used + (size + 15) / 8 * 8 = omega arith in
    rw (kmalloc_fits size h pos word (omega (arith, back))) (refl, back, omega (arith, back))

kfree_block :
    (ptr size : ℕ) (h : Heap)
    → IsBlock h.memory ptr size
    → kfree ptr h ≡ record h { memory = fill h.memory ptr 0 size }
unfolding kfree
kfree_block ptr size h b =
    let place : ptr - 8 + 4 ≡ ptr - 4 = omega (arith, b.above) in
    let real : (ptr == 0) ≡ false = ground (arith, b.above) in
    rw (real, place, b.magic_word, b.size_word)

fill-IsBlock :
    (m : Bytes) (ptr size : ℕ) → IsBlock m ptr size → IsBlock (fill m ptr 0 size) ptr size
fill-IsBlock m ptr size b = record {
  aligned = b.aligned;
  above = b.above;
  size_word =
      load32_cong _ m (ptr - 8) (λ x lo hi. fill_out m ptr 0 size x (omega (arith, b.above)))
      ∙ b.size_word;
  magic_word =
      load32_cong _ m (ptr - 4) (λ x lo hi. fill_out m ptr 0 size x (omega (arith, b.above)))
      ∙ b.magic_word;
}

fill-fill : (m : Bytes) (a n : ℕ) → fill (fill m a 0 n) a 0 n ≡ fill m a 0 n
unfolding fill
fill-fill m a n = fun_ext λ x. ground arith

-- `kfree` of a block zeroes exactly its bytes: the header, all other memory and `heap_used` stay,
-- so the space is not used again, and freeing it once more has the same effect.
pub kfree_lem :
    (ptr size : ℕ) (h : Heap)
    → IsBlock h.memory ptr size
    → let h' = kfree ptr h in
      ((x : ℕ) → ptr ≤ x → x < ptr + size → h'.memory x ≡ 0)
      × ((x : ℕ) → (x < ptr) ⊎ (ptr + size ≤ x) → h'.memory x ≡ h.memory x)
      × (h'.used ≡ h.used)
      × IsBlock h'.memory ptr size
      × (kfree ptr h' ≡ h')
kfree_lem ptr size h b =
    let freed : Heap = record h { memory = fill h.memory ptr 0 size } in
    let still = fill-IsBlock h.memory ptr size b in
    rw (kfree_block ptr size h b) (
      λ x lo hi. fill_in h.memory ptr 0 size x lo hi,
      λ x out. fill_out h.memory ptr 0 size x out,
      refl,
      still,
      kfree_block ptr size freed still
          ∙ ap (λ (m : Bytes). record h { memory = m }) (fill-fill h.memory ptr size),
    )

-- At any other pointer, null or without the magic word in front, `kfree` does nothing.
kfree_foreign :
    (ptr : ℕ) (h : Heap)
    → (ptr ≡ 0) ⊎ (load32 h.memory (ptr - 8 + 4) ≢ alloc_magic)
    → kfree ptr h ≡ h
unfolding kfree
kfree_foreign ptr h why = ground arith

-- ===== src/Heap/Examples.antt =====
-- The heap of kernel/memory.c at small requests: tests, and the theorems there.
use blue_star_os.Base.{ℕ, ◌+◌, ◌*◌, ◌/◌, ◌≤◌, ◌<◌, ◌≡◌, refl, ◌⊎◌, arith, load32, store32}
use blue_star_os.Heap.{Heap, heap_size, total_size, kmalloc}
use blue_star_os.Heap.Blocks.{IsHeap, IsBlock, Placed, kmalloc-Placed}

abbrev fresh : Heap
fresh = record { used = 0; memory = λ _. 0xAA }

fresh-IsHeap : IsHeap fresh
fresh-IsHeap = omega arith

two_blocks :
    let (p, h) = kmalloc 20 fresh in
    let (q, g) = kmalloc 3 h in (p ≡ 0x2000008) × (q ≡ 0x2000028) × (g.used ≡ 48)
unfolding kmalloc total_size
two_blocks = (refl, refl, refl)

kmalloc-Placed_example :
    let (ptr, h') = kmalloc 20 fresh in
    ((0 < 20) × (0 + (20 + 15) / 8 * 8 ≤ heap_size) × Placed 20 fresh ptr h')
    ⊎ (((◌≡◌ {A = ℕ} 20 0) ⊎ (heap_size < 0 + (20 + 15) / 8 * 8)) × (ptr ≡ 0) × (h' ≡ fresh))
kmalloc-Placed_example = kmalloc-Placed 20 fresh fresh-IsHeap (omega arith)

block : Heap
unfolding kmalloc total_size
block = (kmalloc 20 fresh).1

block-IsBlock : IsBlock block.memory 0x2000008 20
unfolding block kmalloc total_size load32 store32
block-IsBlock = record { aligned = refl; above = omega arith; size_word = refl; magic_word = refl }

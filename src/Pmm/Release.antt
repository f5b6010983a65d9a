-- ===== src/Pmm/Release.antt =====
-- `pmm_free_page` and `pmm_free_blocks` of kernel/pmm.c.
use blue_star_os.Base.{
  ℕ, zero, suc, ◌+◌, ◌*◌, ◌/◌, ◌^◌, ◌≤◌, ◌<◌, ◌≡◌, refl, ◌∙◌, Bool, true, false, inl, inr, arith,
  ◌==◌, ltb, leb, ◌&&◌, if◌then◌else◌, u64, Bool-cases,
}
use blue_star_os.Pmm.{
  State, kernel_pages, test_bit, clear_bit, pmm_free_page, free_loop, pmm_free_blocks,
}
use blue_star_os.Pmm.Bits.{test_bit-clear_bit, clear_bit-IsBytes}
use blue_star_os.Pmm.Count.{IsWellFormed, count_free-clear_bit, count_free-le}
use blue_star_os.Pmm.Page.{Allocated, free_of_usable}

-- The pages that `pmm_free_page` will release.
pub releasable : State → ℕ → Bool
releasable s p = leb kernel_pages p && ltb p s.total_pages

released : State → ℕ → State
released s p = record s { bitmap = clear_bit s.bitmap p; free_pages = u64 (s.free_pages + 1) }

released-IsWellFormed :
    (s : State) (p : ℕ)
    → IsWellFormed s
    → p < s.total_pages
    → test_bit s.bitmap p ≡ true
    → IsWellFormed (released s p)
unfolding released
released-IsWellFormed s p w below taken = record {
  bytes = clear_bit-IsBytes s.bitmap p w.bytes;
  small = w.small;
  counted = omega (
    arith,
    w.counted,
    w.small,
    count_free-le s.bitmap s.total_pages,
    count_free-clear_bit s.bitmap s.total_pages p w.bytes below taken,
  );
}

free_page_busy :
    (addr : ℕ) (s : State)
    → releasable s (addr / 4096) ≡ true
    → test_bit s.bitmap (addr / 4096) ≡ true
    → pmm_free_page addr s ≡ released s (addr / 4096)
unfolding pmm_free_page released releasable
free_page_busy addr s r t = ground arith

free_page_idle :
    (addr : ℕ) (s : State)
    → (releasable s (addr / 4096) && test_bit s.bitmap (addr / 4096)) ≡ false
    → pmm_free_page addr s ≡ s
unfolding pmm_free_page releasable
free_page_idle addr s i = ground arith

-- What `pmm_free_page` does to the state, `p` the page of the address.
pub record Freed (s : State) (p : ℕ) (s' : State) : Type 0 where
  pub pages :
      (q : ℕ)
      → test_bit s'.bitmap q ≡ (if releasable s p && (q == p) then false else test_bit s.bitmap q)
  pub well_formed : IsWellFormed s'
  pub count :
      s'.free_pages
      ≡ (if releasable s p && test_bit s.bitmap p then s.free_pages + 1 else s.free_pages)
  pub same_memory : s'.total_pages ≡ s.total_pages

idle-Freed :
    (s : State) (p : ℕ)
    → IsWellFormed s
    → (releasable s p && test_bit s.bitmap p) ≡ false
    → Freed s p s
idle-Freed s p w i = record {
  pages = λ q. ground arith;
  well_formed = w;
  count = rw i;
  same_memory = refl;
}

busy-Freed :
    (s : State) (p : ℕ)
    → IsWellFormed s
    → releasable s p ≡ true
    → test_bit s.bitmap p ≡ true
    → Freed s p (released s p)
unfolding released
busy-Freed s p w r t = record {
  pages = λ q. ground (arith, test_bit-clear_bit s.bitmap p q w.bytes);
  well_formed = released-IsWellFormed s p w (unfold releasable in ground arith) t;
  count = ground (arith, w.counted, w.small, count_free-le s.bitmap s.total_pages);
  same_memory = refl;
}

-- At every address, where the count agrees with the bitmap: the page that holds it becomes free if
-- it is at or above 16 MB and inside memory, every other page stays, and free_pages stays the
-- count and rises by one exactly when such a page was in use.
pub pmm_free_page-Freed :
    (addr : ℕ) (s : State) → IsWellFormed s → Freed s (addr / 4096) (pmm_free_page addr s)
pmm_free_page-Freed addr s w =
    elim (Bool-cases (releasable s (addr / 4096) && test_bit s.bitmap (addr / 4096))) [
      | inl b ↦
          let r : releasable s (addr / 4096) ≡ true = ground arith in
          let t : test_bit s.bitmap (addr / 4096) ≡ true = ground arith in
          rw (free_page_busy addr s r t) (busy-Freed s (addr / 4096) w r t)
      | inr i ↦ rw (free_page_idle addr s i) (idle-Freed s (addr / 4096) w i)
    ]

-- Freeing an allocated page at its address gives every page the state it had before the
-- allocation, and the count too.
pub pmm_free_page_undo :
    (s s' : State) (page : ℕ)
    → IsWellFormed s
    → Allocated s page s'
    → let t = pmm_free_page (page * 4096) s' in
      ((q : ℕ) → test_bit t.bitmap q ≡ test_bit s.bitmap q) × (t.free_pages ≡ s.free_pages)
pmm_free_page_undo s s' page w a =
    let here : page * 4096 / 4096 ≡ page = omega arith in
    let freed = (rw here at (pmm_free_page-Freed (page * 4096) s' a.well_formed)) in
    let r : releasable s' page ≡ true = unfold releasable in ground arith in
    (
      λ q. ground (arith, freed.pages q, a.others q, free_of_usable s page a.first.is_usable),
      ground (arith, freed.count),
    )

-- The loop of `pmm_free_blocks`: the pages of the block in its range are freed, no other changes.
free_loop-pages :
    (n i : ℕ) (s : State)
    → IsWellFormed s
    → i + n ≤ 2 ^ 52
    → let t = free_loop n i s in
      IsWellFormed t
      × (t.total_pages ≡ s.total_pages)
      × ((q : ℕ)
          → test_bit t.bitmap q
            ≡ (if releasable s q && (leb i q && ltb q (i + n)) then false else test_bit s.bitmap q))
unfolding free_loop releasable
free_loop-pages zero i s w h = (w, refl, λ q. ground arith)
free_loop-pages (suc n) i s w h =
    let whole : u64 (i * 4096) / 4096 ≡ i = omega arith in
    let first : Freed s i (pmm_free_page (u64 (i * 4096)) s) =
      (rw whole at (pmm_free_page-Freed (u64 (i * 4096)) s w)) in
    let rest =
      free_loop-pages n (i + 1) (pmm_free_page (u64 (i * 4096)) s) first.well_formed
        (omega arith) in
    (
      rest.0,
      rest.1 ∙ first.same_memory,
      λ q. ground (arith, rest.2 q, first.pages q, first.same_memory),
    )

-- For a block that ends at or below page 2 ^ 52, pmm_free_blocks frees every page of it that lies
-- at or above 16 MB and inside memory and no other, and free_pages stays the count of the bitmap.
pub pmm_free_blocks-pages :
    (addr count : ℕ) (s : State)
    → IsWellFormed s
    → addr / 4096 + count ≤ 2 ^ 52
    → let t = pmm_free_blocks addr count s in
      let p = addr / 4096 in
      IsWellFormed t
      × ((q : ℕ)
          → test_bit t.bitmap q ≡ (
              if releasable s q && (leb p q && ltb q (p + count))
              then false
              else test_bit s.bitmap q))
unfolding pmm_free_blocks
pmm_free_blocks-pages addr count s w h =
    let all = free_loop-pages count (addr / 4096) s w h in (all.0, all.2)

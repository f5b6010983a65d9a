-- ===== src/Pmm/Page.antt =====
-- `pmm_alloc_page` and `pmm_alloc_zpage` of kernel/pmm.c.
use blue_star_os.Base.{
  ℕ, sym, ◌∙◌, ◌+◌, ◌-◌, ◌*◌, ◌≤◌, ◌<◌, ◌≡◌, refl, ◌≢◌, true, false, ◌⊎◌, inl, inr, arith,
  Option-cases, Bytes, fill,
}
use blue_star_os.Pmm.{
  State, kernel_pages, test_bit, claim, find_page, pmm_alloc_page, pmm_alloc_zpage,
}
use blue_star_os.Pmm.Bits.{test_bit-set_bit}
use blue_star_os.Pmm.Count.{IsWellFormed, claim-IsWellFormed, count_free-le, count_free-pos}
use blue_star_os.Pmm.Search.{
  usable, IsFirst, first_usable-some, first_usable-eq-none, find_page-first_usable,
}

-- What a successful allocation of the page `page` does to the state.
pub record Allocated (s : State) (page : ℕ) (s' : State) : Type 0 where
  pub first : IsFirst s kernel_pages s.total_pages page
  pub taken : test_bit s'.bitmap page ≡ true
  pub others : (q : ℕ) → q ≢ page → test_bit s'.bitmap q ≡ test_bit s.bitmap q
  pub counted : s'.free_pages + 1 ≡ s.free_pages
  pub same_memory : s'.total_pages ≡ s.total_pages
  pub well_formed : IsWellFormed s'

-- Either the address is that of the first usable page at or above 16 MB, and exactly that page
-- becomes used; or it is null, nothing changes, and no page at or above 16 MB is usable.
abbrev pub AllocSpec : State → ℕ × State → Type 0
AllocSpec s (addr, s') =
    ((page : ℕ) × (addr ≡ page * 4096) × Allocated s page s')
    ⊎ ((addr ≡ 0)
        × (s' ≡ s)
        × ((q : ℕ) → kernel_pages ≤ q → q < s.total_pages → usable s q ≡ false))

pub free_of_usable : (s : State) (p : ℕ) → usable s p ≡ true → test_bit s.bitmap p ≡ false
unfolding usable
free_of_usable s p h = ground arith

pub claim-Allocated :
    (s : State) (p : ℕ)
    → IsWellFormed s
    → IsFirst s kernel_pages s.total_pages p
    → Allocated s p (claim s p)
unfolding claim
claim-Allocated s p w first =
    let free = free_of_usable s p first.is_usable in
    record {
      first = first;
      taken = ground (arith, test_bit-set_bit s.bitmap p p w.bytes);
      others = λ q ne. ground (arith, test_bit-set_bit s.bitmap p q w.bytes);
      counted = omega (
        arith,
        w.counted,
        w.small,
        count_free-le s.bitmap s.total_pages,
        count_free-pos s.bitmap s.total_pages p first.below free,
      );
      same_memory = refl;
      well_formed = claim-IsWellFormed s p first.below free w;
    }

-- In a memory of at least 16 MB whose count agrees with its bitmap, pmm_alloc_page returns the
-- address of the lowest page at or above 16 MB that is free and at a valid address, and marks
-- exactly that page; free_pages falls by one and stays the count of the bitmap. It returns null,
-- and changes nothing, only when there is no such page.
pub pmm_alloc_page-AllocSpec :
    (s : State) → kernel_pages ≤ s.total_pages → IsWellFormed s → AllocSpec s (pmm_alloc_page s)
unfolding pmm_alloc_page
pmm_alloc_page-AllocSpec s big w = elim (Option-cases (find_page s)) [
  | inl e ↦
      let nothing = sym (find_page-first_usable s big) ∙ e in
      rw (e, pmm_alloc_page)
        (inr (
          refl,
          refl,
          λ q a b.
              first_usable-eq-none s (s.total_pages - kernel_pages) kernel_pages nothing q a
                (omega arith),
        ))
  | inr (p, e) ↦
      let first : IsFirst s kernel_pages s.total_pages p =
        (let reach : kernel_pages + (s.total_pages - kernel_pages) ≡ s.total_pages = omega arith in
          rw reach at (
            first_usable-some s (s.total_pages - kernel_pages) kernel_pages
              (sym (find_page-first_usable s big) ∙ e))) in
      rw (e, pmm_alloc_page)
        (inl (p, omega (arith, first.below, w.small), claim-Allocated s p w first))
]

-- A page is cleared exactly when one is allocated: `pmm_alloc_zpage` has the state and the address
-- of `pmm_alloc_page`, the 4096 bytes at a non-null address read 0, and all other memory is as it
-- was; at a null address all of memory is.
pmm_alloc_zpage_lem :
    (s : State) (memory : Bytes)
    → let (addr, s', memory') = pmm_alloc_zpage s memory in
      ((addr, s') ≡ pmm_alloc_page s)
      × ((x : ℕ) → addr ≢ 0 → addr ≤ x → x < addr + 4096 → memory' x ≡ 0)
      × ((x : ℕ) → (addr ≡ 0) ⊎ ((x < addr) ⊎ (addr + 4096 ≤ x)) → memory' x ≡ memory x)
unfolding pmm_alloc_zpage fill
pmm_alloc_zpage_lem s memory = (refl, λ x ne a b. ground arith, λ x out. ground arith)

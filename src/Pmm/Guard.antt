-- ===== src/Pmm/Guard.antt =====
-- `pmm_init` of kernel/pmm.c: the kernel's pages and the bitmap's own pages stay in use.
use blue_star_os.Base.{
  ℕ, zero, suc, ◌+◌, ◌*◌, ◌/◌, ◌%◌, ◌≤◌, ◌<◌, ◌≡◌, refl, ap, sym, ◌∙◌, Bool, ◌≢◌, true, false, ◌||◌,
  ◌&&◌, not, ◌⊎◌, inl, inr, some, arith, ◌==◌, ltb, leb, Bool-cases, fill,
}
use blue_star_os.Pmm.{
  State, Descriptor, kernel_pages, test_bit, claim, release_all, protect_one, protect, pmm_init,
  bitmap_region, highest,
}
use blue_star_os.Pmm.Bits.{IsBytes, test_bit-set_bit, set_bit-IsBytes}
use blue_star_os.Pmm.Count.{IsWellFormed, claim-IsWellFormed}
use blue_star_os.Pmm.Map.{region_end, IsRegion, highest-IsTop, bitmap_region-IsRegion}
use blue_star_os.Pmm.Init.{Kept, release_all-Kept}

record Protected (s t : State) (i n : ℕ) : Type 0 where
  kept : Kept s t
  pages :
      (q : ℕ)
      → test_bit t.bitmap q
        ≡ ((leb i q && (ltb q (i + n) && ltb q s.total_pages)) || test_bit s.bitmap q)

protect_one-Protected : (i : ℕ) (s : State) → IsBytes s.bitmap → Protected s (protect_one i s) i 1
unfolding protect_one claim
protect_one-Protected i s b = record {
  kept = record {
    bytes = λ x. ground (arith, set_bit-IsBytes s.bitmap i b x, b x);
    total = ground arith;
    size = ground arith;
    place = ground arith;
  };
  pages = λ q. ground (arith, test_bit-set_bit s.bitmap i q b);
}

-- `protect` marks exactly the pages of its range that lie inside memory.
protect-Protected : (n i : ℕ) (s : State) → IsBytes s.bitmap → Protected s (protect n i s) i n
unfolding protect
protect-Protected zero i s b = record {
  kept = record { bytes = b; total = refl; size = refl; place = refl };
  pages = λ q. ground arith;
}
protect-Protected (suc n) i s b =
    let one = protect_one-Protected i s b in
    let rest = protect-Protected n (i + 1) (protect_one i s) one.kept.bytes in
    record {
      kept = record {
        bytes = rest.kept.bytes;
        total = rest.kept.total ∙ one.kept.total;
        size = rest.kept.size ∙ one.kept.size;
        place = rest.kept.place ∙ one.kept.place;
      };
      pages = λ q. ground (arith, rest.pages q, one.pages q, one.kept.total);
    }

-- Marking the kernel's pages, or any others, keeps a count that is right.
protect-IsWellFormed : (n i : ℕ) (s : State) → IsWellFormed s → IsWellFormed (protect n i s)
unfolding protect
protect-IsWellFormed zero i s w = w
protect-IsWellFormed (suc n) i s w =
    protect-IsWellFormed n (i + 1) (protect_one i s) (one (Bool-cases _))
  where
    one :
        ((ltb i s.total_pages && not (test_bit s.bitmap i)) ≡ true)
          ⊎ ((ltb i s.total_pages && not (test_bit s.bitmap i)) ≡ false)
        → IsWellFormed (protect_one i s)
    one (inl e) =
        unfold protect_one in rw e (claim-IsWellFormed s i (ground arith) (ground arith) w)
    one (inr e) = unfold protect_one in rw e w

module _ (mmap : ℕ → Descriptor) (mmap_size desc_size : ℕ) where
  abbrev count : ℕ
  count = mmap_size / desc_size

  abbrev total : ℕ
  total = highest mmap count 0 0 / 4096

  abbrev size : ℕ
  size = (total + 7) / 8

  abbrev place : ℕ
  place = bitmap_region mmap size count 0

  abbrev start : State
  start = record {
    bitmap_addr = place;
    bitmap = fill (λ _. 0) 0 0xFF size;
    total_pages = total;
    free_pages = 0;
    bitmap_size = size;
  }

  start-IsBytes : IsBytes start.bitmap
  unfolding fill
  start-IsBytes x = ground arith

  -- The state after `pmm_init`.
  pub record IsGuarded (s : State) : Type 0 where
    pub bytes : IsBytes s.bitmap
    pub no_end_above :
        (i : ℕ) → i < mmap_size / desc_size → region_end (mmap i) / 4096 ≤ s.total_pages
    pub an_end :
        (s.total_pages ≡ 0)
        ⊎ ((i : ℕ) × (i < mmap_size / desc_size) × (region_end (mmap i) / 4096 ≡ s.total_pages))
    pub a_bit_each : s.total_pages ≤ 8 * s.bitmap_size
    pub no_bit_more : 8 * s.bitmap_size < s.total_pages + 8
    pub region :
        (s.bitmap_addr ≡ 0)
        ⊎ ((i : ℕ) × (i < mmap_size / desc_size) × IsRegion (mmap i) s.bitmap_size s.bitmap_addr)
    pub kernel : (q : ℕ) → q < kernel_pages → q < s.total_pages → test_bit s.bitmap q ≡ true
    pub own :
        (x : ℕ)
        → s.bitmap_addr % 4096 ≡ 0
        → x < s.bitmap_size
        → (s.bitmap_addr + x) / 4096 < s.total_pages
        → test_bit s.bitmap ((s.bitmap_addr + x) / 4096) ≡ true

  -- With a descriptor size other than 0 pmm_init returns. total_pages is the number of whole pages
  -- below the highest end of a region of the map: no region ends above it, and one ends at it, or
  -- it is 0. The bitmap has a bit for each page and fewer than eight more. Its address is 0 or the
  -- start of a conventional region at or above 16 MB with room for it. No page below 16 MB is
  -- free, and, where that address is a multiple of 4096, no page that holds a byte of the bitmap.
  pub pmm_init-guards :
      desc_size ≢ 0 → (s : State) × (pmm_init mmap mmap_size desc_size ≡ some s) × IsGuarded s
  unfolding pmm_init
  pmm_init-guards ne =
      let freed = release_all-Kept mmap count 0 start start-IsBytes in
      let s₁ = release_all mmap count 0 start in
      let kernel = protect-Protected kernel_pages 0 s₁ freed.bytes in
      let s₂ = protect kernel_pages 0 s₁ in
      let own = protect-Protected ((size + 4095) / 4096) (place / 4096) s₂ kernel.kept.bytes in
      let s₃ = protect ((size + 4095) / 4096) (place / 4096) s₂ in
      let nonzero : (desc_size == 0) ≡ false = ground arith in
      let same₂ : s₂.total_pages ≡ total = kernel.kept.total ∙ freed.total in
      let same₃ : s₃.total_pages ≡ total = own.kept.total ∙ same₂ in
      let same_size : s₃.bitmap_size ≡ size = own.kept.size ∙ kernel.kept.size ∙ freed.size in
      let same_place : s₃.bitmap_addr ≡ place = own.kept.place ∙ kernel.kept.place ∙ freed.place in
      let top = highest-IsTop mmap count 0 0 in
      (
        s₃,
        rw nonzero,
        record {
          bytes = own.kept.bytes;
          no_end_above =
              λ i less. omega (arith, top.above i (omega arith) (omega (arith, less)), same₃);
          an_end = elim top.reached [
            | inl zero_top ↦ inl (omega (arith, zero_top, same₃))
            | inr (i, low, less, at) ↦
                inr (i, omega (arith, less), ap (λ a. a / 4096) at ∙ sym same₃)
          ];
          a_bit_each = omega (arith, same₃, same_size);
          no_bit_more = omega (arith, same₃, same_size);
          region =
              rw (same_size, same_place)
                (elim (bitmap_region-IsRegion mmap size count 0) [
                  | inl nothing ↦ inl nothing
                  | inr (i, low, less, there) ↦ inr (i, omega (arith, less), there)
                ]);
          kernel = λ q a b. ground (arith, own.pages q, kernel.pages q, same₂, same₃);
          own = λ x aligned inside b.
              marked ((s₃.bitmap_addr + x) / 4096) s₂.total_pages (place / 4096)
                ((size + 4095) / 4096) _ _ (own.pages ((s₃.bitmap_addr + x) / 4096))
                (omega (arith, same_place, aligned, inside, same_size))
                (omega (arith, same_place, aligned, inside, same_size))
                (omega (arith, b, same₂, same₃));
        },
      )
    where
      marked :
          (q t i n : ℕ) (b c : Bool)
          → b ≡ ((leb i q && (ltb q (i + n) && ltb q t)) || c)
          → i ≤ q
          → q < i + n
          → q < t
          → b ≡ true
      marked q t i n b c e low high small = ground arith

-- ===== src/Pmm/Runs.antt =====
-- The search of `pmm_alloc_blocks` for a run of free pages.
use blue_star_os.Base.{
  ℕ, zero, suc, ◌+◌, ◌≤◌, ◌<◌, ◌≡◌, refl, ◌≢◌, false, inl, inr, some, none, arith, ◌==◌,
  if◌then◌else◌, Bool-cases, Option-cases, ◌⊎◌, ap, Bytes,
}
use blue_star_os.Pmm.{State, test_bit, find_run}

-- The `count` pages from `page` on are free.
abbrev pub IsRun : State → ℕ → ℕ → Type 0
IsRun s page count = (q : ℕ) → page ≤ q → q < page + count → test_bit s.bitmap q ≡ false

module _ (s : State) (count : ℕ) where
  -- What the loop's variables say at page `i`: the last `consecutive` pages are free.
  record Scanning (i consecutive start_index : ℕ) : Type 0 where
    short : consecutive < count
    run_start : consecutive ≢ 0 → start_index + consecutive ≡ i
    run_free : (q : ℕ) → i ≤ q + consecutive → q < i → test_bit s.bitmap q ≡ false

  Scanning-taken : {i c st : ℕ} → Scanning i c st → Scanning (i + 1) 0 st
  Scanning-taken v = record {
    short = omega (arith, v.short);
    run_start = λ ne. absurd (ne refl);
    run_free = λ q a b. absurd (omega arith);
  }

  Scanning-free :
      {i c st : ℕ}
      → Scanning i c st
      → test_bit s.bitmap i ≡ false
      → c + 1 ≢ count
      → Scanning (i + 1) (c + 1) (if c == 0 then i else st)
  Scanning-free {i} {c} {st} v f ne = record {
    short = omega (arith, v.short);
    run_start = λ _. ground (arith, v.run_start);
    run_free = λ q a b. ground (arith, v.run_free q);
  }

  find_run-IsRun :
      (left i c st : ℕ) {page : ℕ}
      → Scanning i c st
      → find_run s count left i c st ≡ some page
      → IsRun s page count × (i ≤ page + c) × (page + count ≤ i + left)
  unfolding find_run
  find_run-IsRun zero i c st v h = cc
  find_run-IsRun (suc left) i c st {page} v h = elim (Bool-cases (test_bit s.bitmap i)) [
    | inl t ↦
        let r = find_run-IsRun left (i + 1) 0 st (Scanning-taken v) (rw t at h) in
        (r.0, omega (arith, r.1), omega (arith, r.2))
    | inr f ↦ elim (Bool-cases (c + 1 == count)) [
      | inl e ↦
          let got : some (if c == 0 then i else st) ≡ some page = rw (f, e) at h in
          let at_start : page + c ≡ i = ground (arith, v.run_start) in
          (λ q a b. ground (arith, v.run_free q), omega arith, ground arith)
      | inr e ↦
          let r =
            find_run-IsRun left (i + 1) (c + 1) (if c == 0 then i else st)
              (Scanning-free v f (ground arith)) (rw (f, e) at h) in
          (r.0, omega (arith, r.1), omega (arith, r.2))
    ]
  ]

  find_run-none :
      (left i c st page : ℕ)
      → c < count
      → find_run s count left i c st ≡ none
      → i ≤ page + c
      → page + count ≤ i + left
      → ¬ IsRun s page count
  unfolding find_run
  find_run-none zero i c st page short h lo hi run = absurd (omega arith)
  find_run-none (suc left) i c st page short h lo hi run = elim (Bool-cases (test_bit s.bitmap i)) [
    | inl t ↦
        find_run-none left (i + 1) 0 st page (omega arith) (rw t at h) (ground (arith, run i))
          (omega arith) run
    | inr f ↦ elim (Bool-cases (c + 1 == count)) [
      | inl e ↦ let found : some (if c == 0 then i else st) ≡ none = rw (f, e) at h in cc
      | inr e ↦
          find_run-none left (i + 1) (c + 1) (if c == 0 then i else st) page (ground arith)
            (rw (f, e) at h) (omega arith) (omega arith) run
    ]
  ]

-- The search finds a run of `count` free pages in [lo, hi), or there is none.
pub find_run_complete :
    (s : State) (count lo left : ℕ)
    → 0 < count
    → ((page : ℕ) × (find_run s count left lo 0 0 ≡ some page)
        × IsRun s page count
        × (lo ≤ page)
        × (page + count ≤ lo + left))
      ⊎ ((find_run s count left lo 0 0 ≡ none)
          × ((page : ℕ) → lo ≤ page → page + count ≤ lo + left → ¬ IsRun s page count))
find_run_complete s count lo left pos = elim (Option-cases (find_run s count left lo 0 0)) [
  | inl e ↦ inr (e, λ page a b. find_run-none s count left lo 0 0 page pos e (omega arith) b)
  | inr (page, e) ↦
      let start : Scanning s count lo 0 0 = record {
        short = pos;
        run_start = λ ne. absurd (ne refl);
        run_free = λ q a b. absurd (omega arith);
      } in
      let r = find_run-IsRun s count left lo 0 0 start e in
      inl (page, e, r.0, omega (arith, r.1), r.2)
]

-- The search reads the bitmap and nothing else of the state.
pub find_run-bitmap :
    (s t : State) (count left i c st : ℕ)
    → s.bitmap ≡ t.bitmap
    → find_run s count left i c st ≡ find_run t count left i c st
unfolding find_run
find_run-bitmap s t count zero i c st e = refl
find_run-bitmap s t count (suc left) i c st e =
    let here : test_bit s.bitmap i ≡ test_bit t.bitmap i = ap (λ (m : Bytes). test_bit m i) e in
    ground (
      arith,
      here,
      find_run-bitmap s t count left (i + 1) 0 st e,
      find_run-bitmap s t count left (i + 1) (c + 1) (if c == 0 then i else st) e,
    )

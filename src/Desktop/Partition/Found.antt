-- ===== src/Desktop/Partition/Found.antt =====
-- What the search for a partition in kernel/kmain.c finds.
use blue_star_os.Base.{
  ℕ, zero, suc, ◌+◌, ◌*◌, ◌^◌, ◌<◌, ◌≡◌, ◌≢◌, refl, ap, sym, ◌∙◌, ◌⊎◌, inl, inr, Bool, true, false,
  none, Option, some, arith, ◌&&◌, if◌then◌else◌, Bool-cases, Option-cases, Bytes, load32,
}
use blue_star_os.Fat32.{Driver}
use blue_star_os.Fat32.Disk.{IsDisk}
use blue_star_os.Desktop.Partition.{
  is_signed, is_fat_type, is_fat_name, type_at, lba_at, scan_entries, check_default,
  detect_fat32_partition,
}

-- The mark at the end of a boot sector.
abbrev pub IsMarked : Bytes → Type 0
IsMarked sector = (sector 510 ≡ 0x55) × (sector 511 ≡ 0xAA)

-- The entry `k` of the table of a first sector: its type and its first sector, a little-endian word.
abbrev pub entry_type : Bytes → ℕ → ℕ
entry_type sector k = sector (450 + 16 * k)

abbrev pub entry_start : Bytes → ℕ → ℕ
entry_start sector k =
    sector (454 + 16 * k)
    + sector (455 + 16 * k) * 2 ^ 8
    + sector (456 + 16 * k) * 2 ^ 16
    + sector (457 + 16 * k) * 2 ^ 24

-- One of the four entries is of type FAT and starts at the sector.
abbrev pub IsNamed : Bytes → ℕ → Type 0
IsNamed sector lba =
    (k : ℕ) × (k < 4)
    × ((entry_type sector k ≡ 0x0B) ⊎ ((entry_type sector k ≡ 0x0C) ⊎ (entry_type sector k ≡ 0x0E)))
    × (entry_start sector k ≡ lba)

is_signed-IsMarked : (sector : Bytes) → is_signed sector ≡ true → IsMarked sector
is_signed-IsMarked sector h = (ground arith, ground arith)

is_fat_type_lem :
    (type : ℕ) → is_fat_type type ≡ true → (type ≡ 0x0B) ⊎ ((type ≡ 0x0C) ⊎ (type ≡ 0x0E))
is_fat_type_lem type h = ground arith

both : {a b : Bool} → a && b ≡ true → (a ≡ true) × (b ≡ true)
both {a = true} h = (refl, h)
both {a = false} h = absurd (ground arith)

-- The first three bytes of the name.
is_fat_name_lem :
    (sector : Bytes)
    → is_fat_name sector ≡ true
    → (sector 0x52 ≡ b'F') × (sector 0x53 ≡ b'A') × (sector 0x54 ≡ b'T')
is_fat_name_lem sector h = (ground arith, ground arith, ground arith)

-- The same of the buffer that the first sector is read into.
InTable : Bytes → ℕ → Type 0
InTable mbr lba = (k : ℕ) × (k < 4) × (is_fat_type (type_at mbr k) ≡ true) × (lba_at mbr k ≡ lba)

InTable-IsNamed :
    (mbr sector : Bytes) (lba : ℕ)
    → ((x : ℕ) → x < 512 → mbr x ≡ sector x)
    → InTable mbr lba
    → IsNamed sector lba
unfolding InTable load32
InTable-IsNamed mbr sector lba same (k, small, type, start) =
    let at : (a x : ℕ) → a ≡ x → x < 512 → mbr a ≡ sector x = λ a x e h. ap mbr e ∙ same x h in
    (
      k,
      small,
      is_fat_type_lem (entry_type sector k) (
          ap is_fat_type (sym (at (446 + k * 16 + 4) (450 + 16 * k) (omega arith) (omega arith)))
          ∙ type),
      omega (
        arith,
        at (446 + k * 16 + 8) (454 + 16 * k) (omega arith) (omega arith),
        at (446 + k * 16 + 8 + 1) (455 + 16 * k) (omega arith) (omega arith),
        at (446 + k * 16 + 8 + 2) (456 + 16 * k) (omega arith) (omega arith),
        at (446 + k * 16 + 8 + 3) (457 + 16 * k) (omega arith) (omega arith),
        start,
      ),
    )

module _ {D : Type 0} ⦃ide : Driver D⦄ (disk : IsDisk ide) where
  Signed : ℕ → D → Type 0
  Signed lba d = is_signed (disk.sector d lba) ≡ true

  is_signed-read :
      (lba : ℕ) (buf : Bytes) (d : D)
      → disk.IsReady d
      → is_signed (ide.read_sectors lba buf d).1 ≡ is_signed (disk.sector d lba)
  is_signed-read lba buf d ready =
      rw
        (
          disk.read_bytes lba buf d 510 ready (omega arith),
          disk.read_bytes lba buf d 511 ready (omega arith),
        )
        refl

  Signed-same :
      (lba : ℕ) (d e : D)
      → ((l x : ℕ) → disk.sector e l x ≡ disk.sector d l x)
      → Signed lba e
      → Signed lba d
  unfolding Signed
  Signed-same lba d e same h = rw (sym (same lba 510), sym (same lba 511)) h

  -- One entry, on a drive that can be read.
  scan_entries_step :
      (n i : ℕ) (mbr stack : Bytes) (d : D)
      → disk.IsReady d
      → scan_entries (suc n) i mbr stack d ≡ (
          let d1 = (ide.read_sectors (lba_at mbr i) stack d).2 in
          if is_fat_type (type_at mbr i)
          then if is_signed (disk.sector d (lba_at mbr i))
            then (some (lba_at mbr i), d1)
            else scan_entries n (i + 1) mbr stack d1
          else scan_entries n (i + 1) mbr stack d)
  unfolding scan_entries
  scan_entries_step n i mbr stack d ready =
      let at = lba_at mbr i in
      rw (disk.read_done at stack d ready, is_signed-read at stack d ready) refl

  -- What a search leaves and finds.
  record Searched (mbr : Bytes) (d : D) (r : Option ℕ × D) : Type 0 where
    ready : disk.IsReady r.1
    same : (l x : ℕ) → disk.sector r.1 l x ≡ disk.sector d l x
    found : (lba : ℕ) → r.0 ≡ some lba → Signed lba d × InTable mbr lba

  Searched-later :
      (mbr : Bytes) (d e : D) (r : Option ℕ × D)
      → ((l x : ℕ) → disk.sector e l x ≡ disk.sector d l x)
      → Searched mbr e r
      → Searched mbr d r
  Searched-later mbr d e r same s = record {
    ready = s.ready;
    same = λ l x. s.same l x ∙ same l x;
    found = λ lba f. let (mark, named) = s.found lba f in (Signed-same lba d e same mark, named);
  }

  scan_entries-Searched :
      (n i : ℕ) (mbr stack : Bytes) (d : D)
      → i + n ≡ 4
      → disk.IsReady d
      → Searched mbr d (scan_entries n i mbr stack d)
  unfolding InTable Signed
  scan_entries-Searched zero i mbr stack d e ready =
      unfold scan_entries in
      record { ready = ready; same = λ l x. refl; found = λ lba f. absurd (ground arith) }
  scan_entries-Searched (suc n) i mbr stack d e ready =
      let at = lba_at mbr i in
      let d1 = (ide.read_sectors at stack d).2 in
      let ready1 = disk.read_ready at stack d ready in
      let same1 : (l x : ℕ) → disk.sector d1 l x ≡ disk.sector d l x =
        λ l x. disk.read_same at stack d l x ready in
      let step = scan_entries_step n i mbr stack d ready in
      elim (Bool-cases (is_fat_type (type_at mbr i))) [
        | inr t ↦ rw (step, t) (scan_entries-Searched n (i + 1) mbr stack d (omega arith) ready)
        | inl t ↦ elim (Bool-cases (is_signed (disk.sector d at))) [
          | inr u ↦
              rw (step, t, u)
                (Searched-later mbr d d1 _ same1
                  (scan_entries-Searched n (i + 1) mbr stack d1 (omega arith) ready1))
          | inl u ↦
              rw (step, t, u)
                (record {
                  ready = ready1;
                  same = same1;
                  found = λ lba f.
                      let same_lba : at ≡ lba =
                        ap (λ o. elim o as (λ _. ℕ) [ none ↦ at | some a ↦ a ]) f in
                      rw (sym same_lba) (u, (i, omega arith, t, refl));
                })
        ]
      ]

  check_default_found :
      (stack : Bytes) (d : D)
      → disk.IsReady d
      → (check_default stack d).0 ≢ 0
      → ((check_default stack d).0 ≡ 2048)
        × Signed 2048 d
        × (disk.sector d 2048 0x52 ≡ b'F')
        × (disk.sector d 2048 0x53 ≡ b'A')
        × (disk.sector d 2048 0x54 ≡ b'T')
  unfolding check_default Signed
  check_default_found stack d ready =
      let sector = (ide.read_sectors 2048 stack d).1 in
      rw (disk.read_done 2048 stack d ready)
        (elim (Bool-cases (is_signed sector && is_fat_name sector)) [
          | inr u ↦ rw u (λ h. absurd (h refl))
          | inl u ↦
              let (mark, name) = both u in
              let (f, a, t) = is_fat_name_lem sector name in
              rw u (λ h. (
                refl,
                sym (is_signed-read 2048 stack d ready) ∙ mark,
                sym (disk.read_bytes 2048 stack d 0x52 ready (omega arith)) ∙ f,
                sym (disk.read_bytes 2048 stack d 0x53 ready (omega arith)) ∙ a,
                sym (disk.read_bytes 2048 stack d 0x54 ready (omega arith)) ∙ t,
              ))
        ])

  -- On a drive that can be read, where a partition is found: the first sector and the first sector
  -- of the partition end in 0x55 0xAA, and one of the four entries of the first sector has type
  -- 0x0B, 0x0C or 0x0E and starts there, or the partition is at 2048 and the bytes of its first
  -- sector from 0x52 on are FAT.
  pub detect_fat32_partition-Found :
      (stack : Bytes) (d : D)
      → disk.IsReady d
      → (detect_fat32_partition stack d).0 ≢ 0
      → IsMarked (disk.sector d 0)
        × IsMarked (disk.sector d (detect_fat32_partition stack d).0)
        × (IsNamed (disk.sector d 0) (detect_fat32_partition stack d).0
            ⊎ (((detect_fat32_partition stack d).0 ≡ 2048)
                × (disk.sector d 2048 0x52 ≡ b'F')
                × (disk.sector d 2048 0x53 ≡ b'A')
                × (disk.sector d 2048 0x54 ≡ b'T')))
  unfolding detect_fat32_partition Signed
  detect_fat32_partition-Found stack d ready =
      let mbr = (ide.read_sectors 0 stack d).1 in
      let d1 = (ide.read_sectors 0 stack d).2 in
      let same1 : (l x : ℕ) → disk.sector d1 l x ≡ disk.sector d l x =
        λ l x. disk.read_same 0 stack d l x ready in
      let found =
        Searched-later mbr d d1 _ same1
          (scan_entries-Searched 4 0 mbr stack d1 refl (disk.read_ready 0 stack d ready)) in
      let d2 = (scan_entries 4 0 mbr stack d1).1 in
      rw (disk.read_done 0 stack d ready) (elim (Bool-cases (is_signed mbr)) [
        | inr u ↦ rw u (λ h. absurd (h refl))
        | inl u ↦
            let first : IsMarked (disk.sector d 0) =
              is_signed-IsMarked (disk.sector d 0) (sym (is_signed-read 0 stack d ready) ∙ u) in
            rw u (elim (Option-cases (scan_entries 4 0 mbr stack d1).0) [
              | inl e ↦ rw e (λ h.
                  let (at, mark, f, a, t) = check_default_found stack d2 found.ready h in
                  rw at (
                    first,
                    is_signed-IsMarked (disk.sector d 2048) (Signed-same 2048 d d2 found.same mark),
                    inr (
                      refl,
                      sym (found.same 2048 0x52) ∙ f,
                      sym (found.same 2048 0x53) ∙ a,
                      sym (found.same 2048 0x54) ∙ t,
                    ),
                  ))
              | inr (lba, e) ↦ rw e (λ h.
                  let (mark, named) = found.found lba e in
                  (
                    first,
                    is_signed-IsMarked (disk.sector d lba) mark,
                    inl (
                        InTable-IsNamed mbr (disk.sector d 0) lba
                          (λ x k. disk.read_bytes 0 stack d x ready k) named),
                  ))
            ])
      ])

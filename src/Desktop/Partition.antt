-- ===== src/Desktop/Partition.antt =====
-- `detect_fat32_partition` of kernel/kmain.c, over the disk driver that the file system uses.
pub mod Found
mod Examples
use blue_star_os.Base.{
  ℕ, zero, suc, ◌+◌, ◌*◌, ◌<◌, ◌≡◌, ◌≢◌, refl, ap, sym, ◌∙◌, ◌⊎◌, inl, inr, Bool, true, false,
  Option, none, some, List, [], ◌∷◌, arith, ◌==◌, ◌&&◌, ◌||◌, not, if◌then◌else◌, Bool-cases, Bytes,
  load32, utf8,
}
use blue_star_os.Fat32.{Driver}
use blue_star_os.Fat32.Disk.{IsDisk}

-- The mark at the end of a boot sector.
abbrev pub is_signed : Bytes → Bool
is_signed sector = (sector 510 == 0x55) && (sector 511 == 0xAA)

abbrev pub is_fat_type : ℕ → Bool
is_fat_type type = (type == 0x0B) || (type == 0x0C) || (type == 0x0E)

-- `strncmp` of the bytes at a place with a text, up to its length.
abbrev starts : Bytes → ℕ → List ℕ → Bool
starts sector at [] = true
starts sector at (c ∷ cs) = (sector at == c) && starts sector (at + 1) cs

abbrev pub is_fat_name : Bytes → Bool
is_fat_name sector = starts sector 0x52 (utf8 "FAT32") || starts sector 0x52 (utf8 "FAT")

-- The type and the start of an entry of the partition table.
abbrev pub type_at : Bytes → ℕ → ℕ
type_at mbr i = mbr (0x1BE + i * 16 + 4)

abbrev pub lba_at : Bytes → ℕ → ℕ
lba_at mbr i = load32 mbr (0x1BE + i * 16 + 8)

module _ {D : Type 0} ⦃ide : Driver D⦄ where
  -- The entries from `i` on, `n` of them: the start of the first with a FAT type whose boot sector is
  -- readable and marked. What a buffer holds before it is read is `stack`.
  scan_entries : ℕ → ℕ → Bytes → Bytes → D → Option ℕ × D
  scan_entries zero i mbr stack d = (none, d)
  scan_entries (suc n) i mbr stack d =
      let (done, sector, d1) = ide.read_sectors (lba_at mbr i) stack d in
      let past_sector = scan_entries n (i + 1) mbr stack d1 in
      let past_entry = scan_entries n (i + 1) mbr stack d in
      if is_fat_type (type_at mbr i)
      then if done && is_signed sector then (some (lba_at mbr i), d1) else past_sector
      else past_entry

  -- The sector 2048, where its name is one of FAT.
  check_default : Bytes → D → ℕ × D
  check_default stack d =
      let (done, sector, d1) = ide.read_sectors 2048 stack d in
      (if done && is_signed sector && is_fat_name sector then 2048 else 0, d1)

  pub detect_fat32_partition : Bytes → D → ℕ × D
  detect_fat32_partition stack d =
      let (done, mbr, d1) = ide.read_sectors 0 stack d in
      let (found, d2) = scan_entries 4 0 mbr stack d1 in
      if not done || not (is_signed mbr)
      then (0, d1)
      else elim found [ some lba ↦ (lba, d2) | none ↦ check_default stack d2 ]

-- ===== src/Fat32/Disk.antt =====
-- A drive that can be read, as kernel/drivers/fs/fat32.c sees it through the driver's call: what the
-- clients of the interface rely on. Ide/Drive fills it with the driver of kernel/drivers/ide.c.
use blue_star_os.Base.{ℕ, ◌+◌, ◌<◌, ◌≡◌, refl, true, u32, Bytes}
use blue_star_os.Fat32.{Driver, Fs, ok, read_sector}

-- Where the drive is ready, a read gives the sector's 512 bytes, and leaves it ready with the same
-- sectors.
pub record IsDisk {D : Type 0} (ide : Driver D) : Type 1 where
  pub IsReady : D → Type 0
  pub sector : D → ℕ → Bytes
  pub read_done :
      (lba : ℕ) (buf : Bytes) (d : D) → IsReady d → (ide.read_sectors lba buf d).0 ≡ true
  pub read_bytes :
      (lba : ℕ) (buf : Bytes) (d : D) (x : ℕ)
      → IsReady d
      → x < 512
      → (ide.read_sectors lba buf d).1 x ≡ sector d lba x
  pub read_ready :
      (lba : ℕ) (buf : Bytes) (d : D) → IsReady d → IsReady (ide.read_sectors lba buf d).2
  pub read_same :
      (lba : ℕ) (buf : Bytes) (d : D) (l x : ℕ)
      → IsReady d
      → sector (ide.read_sectors lba buf d).2 l x ≡ sector d l x

module _ {D : Type 0} ⦃ide : Driver D⦄ (disk : IsDisk ide) where
  -- The byte of a sector of the partition.
  abbrev pub byte_of : Fs D → ℕ → ℕ → ℕ
  byte_of s n x = disk.sector s.drive (u32 (s.partition_start + n)) x

  pub read_sector-bytes :
      (n : ℕ) (buf : Bytes) (s : Fs D)
      → disk.IsReady s.drive
      → (out : Bytes) × (d : D) × (read_sector n buf s ≡ ok (true, out) (record s { drive = d }))
        × ((x : ℕ) → x < 512 → out x ≡ byte_of s n x)
        × disk.IsReady d
        × ((l x : ℕ) → disk.sector d l x ≡ disk.sector s.drive l x)
  unfolding read_sector
  read_sector-bytes n buf s ready =
      let lba = u32 (s.partition_start + n) in
      (
        (ide.read_sectors lba buf s.drive).1,
        (ide.read_sectors lba buf s.drive).2,
        rw (disk.read_done lba buf s.drive ready) refl,
        λ x h. disk.read_bytes lba buf s.drive x ready h,
        disk.read_ready lba buf s.drive ready,
        λ l x. disk.read_same lba buf s.drive l x ready,
      )

-- ===== src/Fat32/Transfer/Places.antt =====
-- The bytes that `fat32_read` of kernel/drivers/fs/fat32.c delivers as those of a file, which is a
-- list of clusters.
use blue_star_os.Base.{
  ℕ, ◌+◌, ◌-◌, ◌*◌, ◌/◌, ◌%◌, ◌^◌, ◌≤◌, ◌<◌, ◌≡◌, refl, ap, ◌∙◌, true, some, arith, List, get_or,
  u32, Bytes,
}
use native.Mathlib.Nat.{
  div-eq_of_lt-le, div-add-mod, mod_def, mod-lt, mod-eq_of_lt, div-lt_iff_lt-mul, mul-le-mul_right,
}
use blue_star_os.Fat32.{Driver, Fs, ok, Handle}
use blue_star_os.Fat32.Disk.{IsDisk, byte_of}
use blue_star_os.Fat32.File.{bytes_per_cluster}
use blue_star_os.Fat32.Transfer.{fat32_read}
use blue_star_os.Fat32.Transfer.Progress.{cleared}
use blue_star_os.Fat32.Transfer.Sector.{InSector, sector_at, offset_at, fat32_read-bytes}

-- A step that stays inside a block of `c`.
div_step : (p i c : ℕ) → p % c + i < c → (p + i) / c ≡ p / c
div_step p i c h =
    div-eq_of_lt-le c (grind (arith, div-add-mod p c)) (grind (arith, div-add-mod p c))

mod_step : (p i c : ℕ) → p % c + i < c → (p + i) % c ≡ p % c + i
mod_step p i c h =
    let same = div_step p i c h in
    mod_def (p + i) c ∙ ap (λ k. p + i - c * k) same ∙ grind (arith, div-add-mod p c)

-- A block of `c` is `n` blocks of `b`: a step inside the small one stays inside the big one.
inside_both : (r i n b : ℕ) → r < n * b → r % b + i < b → r + i < n * b
inside_both r i n b h k =
    let some_bytes : 0 < b = omega (arith, k) in
    let low : r / b < n = (div-lt_iff_lt-mul {k = b} {x = r} {y = n} some_bytes).1 h in
    let room : (r / b + 1) * b ≤ n * b =
      mul-le-mul_right {m = r / b + 1} {n = n} b (omega (arith, low)) in
    grind (arith, room, div-add-mod r b)

-- The byte of a file at a position: of the sector, counted from the start of the partition twice,
-- that holds the position in its cluster.
abbrev pub file_byte : {D : Type 0} ⦃ide : Driver D⦄ → IsDisk ide → Fs D → List ℕ → ℕ → ℕ
file_byte disk s clusters p =
    let per_sector = s.fs_info.bytes_per_sector in
    let per_cluster = s.fs_info.sectors_per_cluster * per_sector in
    byte_of disk s
      (u32 (
        s.partition_start
        + s.fs_info.data_start_sector
        + (get_or clusters (p / per_cluster) 0 - 2) * s.fs_info.sectors_per_cluster
        + p % per_cluster / per_sector))
      (p % per_cluster % per_sector)

module _ {D : Type 0} ⦃ide : Driver D⦄ (disk : IsDisk ide) where
  -- The bytes from the position of the handle on.
  here-file_byte :
      (s : Fs D) (h : Handle) (size : ℕ) (clusters : List ℕ) (i : ℕ)
      → InSector disk s h size
      → s.fs_info.sectors_per_cluster * s.fs_info.bytes_per_sector < 2 ^ 32
      → h.current_cluster
        ≡ get_or clusters
            (h.position / (s.fs_info.sectors_per_cluster * s.fs_info.bytes_per_sector))
            0
      → i < size
      → byte_of disk s (sector_at s h) (offset_at s h + i)
        ≡ file_byte disk s clusters (h.position + i)
  here-file_byte s h size clusters i r small at less =
      let b = s.fs_info.bytes_per_sector in
      let n = s.fs_info.sectors_per_cluster in
      let p = h.position in
      let whole : bytes_per_cluster s.fs_info ≡ n * b = mod-eq_of_lt small in
      let fits : p % (n * b) % b + size ≤ b = rw whole at r.in_sector in
      let room : p % (n * b) % b + i < b = omega (arith, fits, less) in
      let some_bytes : 0 < n * b = rw whole at r.holds.0 in
      let inside : p % (n * b) + i < n * b =
        inside_both (p % (n * b)) i n b (mod-lt p some_bytes) room in
      rw
        (
          whole,
          at,
          div_step p i (n * b) inside,
          mod_step p i (n * b) inside,
          div_step (p % (n * b)) i b room,
          mod_step (p % (n * b)) i b room,
        )
        refl

  -- Under the conditions of the read inside one sector (`InSector`), on a drive that can be read,
  -- for a file as a list of clusters of less than 2 ^ 32 bytes each, where current_cluster is the
  -- cluster of the list that holds the position: the read succeeds and delivers the bytes of the
  -- file from the position on. The byte of a file at a position is the one at the offset of the
  -- position in its sector of its cluster, where clusters are counted from 2 behind
  -- data_start_sector, and the start of the partition twice.
  pub fat32_read-file_byte :
      (size : ℕ) (dest : Bytes) (h : Handle) (s : Fs D) (clusters : List ℕ)
      → InSector disk s h size
      → s.fs_info.sectors_per_cluster * s.fs_info.bytes_per_sector < 2 ^ 32
      → h.current_cluster
        ≡ get_or clusters
            (h.position / (s.fs_info.sectors_per_cluster * s.fs_info.bytes_per_sector))
            0
      → (out : Bytes) × (g : Handle) × (d : D) × (fat32_read (some h) (some dest) size s
          ≡ ok (true, some out, some g) (record (cleared s "") { drive = d }))
        × ((i : ℕ) → i < size → out i ≡ file_byte disk s clusters (h.position + i))
        × ((x : ℕ) → size ≤ x → out x ≡ dest x)
        × (g.position ≡ h.position + size)
  fat32_read-file_byte size dest h s clusters r small at =
      let (out, g, d, done, bytes, rest, moved, ready, same) =
        fat32_read-bytes disk size dest h s r in
      (
        out,
        g,
        d,
        done,
        λ i less. bytes i less ∙ here-file_byte s h size clusters i r small at less,
        rest,
        moved,
      )

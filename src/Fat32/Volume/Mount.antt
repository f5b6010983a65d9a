-- ===== src/Fat32/Volume/Mount.antt =====
-- `fat32_init` of kernel/drivers/fs/fat32.c: what a mount checks, and what a failed one leaves.
use blue_star_os.Base.{
  ℕ, ◌≤◌, ◌<◌, ◌≡◌, refl, ◌≢◌, Bool, true, false, ◌||◌, ◌⊎◌, not, arith, ◌==◌, ltb, Bytes, load16,
  load32,
}
use blue_star_os.Fat32.{Driver, Fs, ok}
use blue_star_os.Fat32.Volume.{boot_info, forced_info, fat32_init}

module _ {D : Type 0} ⦃ide : Driver D⦄ (start : ℕ) (s : Fs D) where
  abbrev reading : Bool × Bytes × D
  reading = ide.read_sectors start (λ _. 0) s.drive

  abbrev boot : Bytes
  boot = reading.1

  -- A boot sector that `fat32_init` takes: 512-byte sectors, a root directory at a cluster from 2
  -- on, and sectors in a cluster.
  abbrev Bootable : Type 0
  Bootable = (reading.0 ≡ true) × (load16 boot 11 ≡ 512) × (2 ≤ load32 boot 44) × (boot 13 ≢ 0)

  -- A mount of a readable boot sector with 512-byte sectors, a root cluster from 2 on and sectors in
  -- a cluster succeeds: the file system is mounted, with the geometry of the boot sector but for the
  -- counts, which are constants of the code.
  pub fat32_init_mounted :
      Bootable
      → (t : Fs D) × (fat32_init start s ≡ ok true t)
        × (t.fs_mounted ≡ true)
        × (t.partition_start ≡ start)
        × (t.drive ≡ reading.2)
        × (t.fs_info ≡ forced_info (boot_info boot s.fs_info))
        × (t.fs_readonly ≡ s.fs_readonly)
  unfolding fat32_init boot_info
  fat32_init_mounted (done, size, root, per) =
      let good : (not (load16 boot 11 == 512) || ltb (load32 boot 44) 2) ≡ false = ground arith in
      let some_sectors : (boot 13 == 0) ≡ false = ground arith in
      let after : Fs D = record s {
        drive = reading.2;
        partition_start = start;
        fs_info = forced_info (boot_info boot s.fs_info);
        bpb = record s.bpb { fat_count = 2 };
        fs_mounted = true;
      } in
      (after, rw (done, good, some_sectors), refl, refl, refl, refl, refl)

  -- A mount that fails leaves `fs_mounted` as it was: over a mounted volume, a boot sector with
  -- another sector size or a root cluster below 2 makes the call fail, the volume still counts as
  -- mounted, and its geometry is now that of the refused boot sector.
  pub fat32_init_refused :
      reading.0 ≡ true
      → (load16 boot 11 ≢ 512) ⊎ (load32 boot 44 < 2)
      → (t : Fs D) × (fat32_init start s ≡ ok false t)
        × (t.fs_mounted ≡ s.fs_mounted)
        × (t.fs_info ≡ boot_info boot s.fs_info)
        × (t.partition_start ≡ start)
  unfolding fat32_init boot_info
  fat32_init_refused done bad =
      let refused : (not (load16 boot 11 == 512) || ltb (load32 boot 44) 2) ≡ true = ground arith in
      let after : Fs D = record s {
        drive = reading.2;
        partition_start = start;
        fs_info = boot_info boot s.fs_info;
      } in
      (after, rw (done, refused), refl, refl, refl)

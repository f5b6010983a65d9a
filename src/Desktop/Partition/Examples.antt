-- ===== src/Desktop/Partition/Examples.antt =====
-- The search for a partition in kernel/kmain.c on a drive in memory.
use blue_star_os.Base.{ℕ, ◌≡◌, refl, ◌==◌, if◌then◌else◌, true, Bytes, store, load32, ◌⊎◌, arith}
use blue_star_os.Fat32.{Driver}
use blue_star_os.Fat32.Disk.{IsDisk}
use blue_star_os.Desktop.Partition.{scan_entries, detect_fat32_partition}
use blue_star_os.Desktop.Partition.Found.{IsMarked, IsNamed, detect_fat32_partition-Found}

abbrev Drive : Type 0
Drive = ℕ → Bytes

instance memory_drive : Driver Drive
memory_drive = record {
  read_sectors = λ lba buf d. (true, d lba, d);
  write_sectors = λ lba buf d. (true, λ l x. if l == lba then buf x else d l x);
}

disk : IsDisk memory_drive
unfolding memory_drive
disk = record {
  IsReady = λ d. Unit;
  sector = λ d lba x. d lba x;
  read_done = λ lba buf d r. refl;
  read_bytes = λ lba buf d x r h. refl;
  read_ready = λ lba buf d r. tt;
  read_same = λ lba buf d l x r. refl;
}

abbrev signed_sector : Bytes
signed_sector = store (store (λ _. 0) 510 0x55) 511 0xAA

-- The second entry of the table has a FAT type and starts at sector 63.
abbrev drive : Drive
drive lba =
    if lba == 0
    then store (store signed_sector 0x1D2 0x0C) 0x1D6 63
    else if lba == 63
    then signed_sector
    else λ _. 0

detect_63 : (detect_fat32_partition (λ _. 0) drive).0 ≡ 63
unfolding detect_fat32_partition scan_entries memory_drive load32 store
detect_63 = refl

detect_fat32_partition-Found_example :
    IsMarked (drive 0)
    × IsMarked (drive (detect_fat32_partition (λ _. 0) drive).0)
    × (IsNamed (drive 0) (detect_fat32_partition (λ _. 0) drive).0
        ⊎ (((detect_fat32_partition (λ _. 0) drive).0 ≡ 2048)
            × (drive 2048 0x52 ≡ b'F')
            × (drive 2048 0x53 ≡ b'A')
            × (drive 2048 0x54 ≡ b'T')))
unfolding disk
detect_fat32_partition-Found_example =
    detect_fat32_partition-Found disk (λ _. 0) drive tt (rw detect_63 (λ e. absurd (omega arith)))

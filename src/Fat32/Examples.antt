-- ===== src/Fat32/Examples.antt =====
-- The FAT32 driver of kernel/drivers/fs/fat32.c on a small volume in memory: tests, and the theorems
-- on that volume.
use blue_star_os.Base.{
  Bool, Option, ℕ, ◌≡◌, true, false, some, arith, ◌==◌, if◌then◌else◌, Bytes, List, [], ◌∷◌, ◌++◌,
}
use blue_star_os.Fat32.{Driver, Fs, Handle, closed}
use blue_star_os.Fat32.Names.{dot, name_to_83, format_83_name, toupper}
use blue_star_os.Fat32.Names.Format.{format_83_name-name_to_83}
use blue_star_os.Fat32.Ends.{Ends, Any}
use blue_star_os.Fat32.Transfer.{fat32_read}
use blue_star_os.Fat32.Transfer.Progress.{fat32_read-returns}

-- A drive: the bytes of each sector.
abbrev Drive : Type 0
Drive = ℕ → Bytes

instance memory_drive : Driver Drive
memory_drive = record {
  read_sectors = λ lba buf d. (true, d lba, d);
  write_sectors = λ lba buf d. (true, λ l x. if l == lba then buf x else d l x);
}

abbrev volume : Fs Drive
volume = record {
  drive = λ lba x. 0;
  fs_info = record {
    sectors_per_cluster = 1;
    bytes_per_sector = 512;
    total_sectors = 129024;
    fat_start_sector = 32;
    fat_sectors = 993;
    data_start_sector = 2018;
    root_dir_cluster = 2;
    total_clusters = 127006;
    free_clusters = 100;
    fat_number = 2;
  };
  bpb = record { reserved_sectors = 0; fat_count = 2; fs_info_sector = 0 };
  fs_mounted = true;
  fs_readonly = false;
  partition_start = 2048;
  error_msg = "";
  volume_label = λ _. 0;
}

-- `A.TX`.
abbrev short_name : List ℕ
short_name = b'A' ∷ b'.' ∷ b'T' ∷ b'X' ∷ []

-- The file is open at its start.
abbrev handle : Handle
handle = record closed { first_cluster = 3; current_cluster = 3; file_size = 600; is_open = true }

format_83_name-name_to_83_example :
    format_83_name (name_to_83 ((b'a' ∷ []) ++ dot ∷ b'T' ∷ b'x' ∷ [])) ≡ short_name
unfolding toupper
format_83_name-name_to_83_example =
    format_83_name-name_to_83 (b'a' ∷ []) (b'T' ∷ b'x' ∷ []) (omega arith) (omega arith, tt)
      (omega arith, tt) (omega arith) (omega arith) (omega arith, (omega arith, tt))

fat32_read-returns_example :
    Ends
      (Any {A = Bool × Option Bytes × Option Handle})
      volume
      (fat32_read (some handle) (some (λ _. 0)) 9 volume)
fat32_read-returns_example =
    fat32_read-returns (some handle) (some (λ _. 0)) 9 volume (omega arith, omega arith)

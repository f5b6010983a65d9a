-- ===== src/Fat32.antt =====
-- kernel/drivers/fs/fat32.c: the file system's static variables, the commands over them, and the
-- interface of the disk driver that it calls.
--
-- A command takes the variables and returns its result with the new ones. It may also fault
-- (a division by zero) or use up the fuel of a loop that follows links on the disk.
pub mod Names
pub mod Table
pub mod Disk
pub mod Directory
pub mod Volume
pub mod File
pub mod Transfer
pub mod Position
pub mod Tree
pub mod Lookup
pub mod Guards
pub mod Ends
mod Examples
use Prim.Native.String.{String}
use blue_star_os.Base.{ℕ, ◌+◌, Bool, true, false, Option, some, if◌then◌else◌, u32, Bytes}

-- `ide_read_sectors` and `ide_write_sectors` at one sector: an LBA, the buffer, and whether the
-- call succeeded (returned 0).
pub record Driver (D : Type 0) : Type 0 where
  pub read_sectors : ℕ → Bytes → D → Bool × Bytes × D
  pub write_sectors : ℕ → Bytes → D → Bool × D

-- `fat32_info_t`.
pub record Info : Type 0 where
  pub sectors_per_cluster : ℕ
  pub bytes_per_sector : ℕ
  pub total_sectors : ℕ
  pub fat_start_sector : ℕ
  pub fat_sectors : ℕ
  pub data_start_sector : ℕ
  pub root_dir_cluster : ℕ
  pub total_clusters : ℕ
  pub free_clusters : ℕ
  pub fat_number : ℕ

-- `fat32_bpb_t`, less the fields that the code never reads from `bpb`.
pub record Bpb : Type 0 where
  pub reserved_sectors : ℕ
  pub fat_count : ℕ
  pub fs_info_sector : ℕ

-- The static variables, and the drive behind the driver.
pub record Fs (D : Type 0) : Type 0 where
  pub drive : D
  pub fs_info : Info
  pub bpb : Bpb
  pub fs_mounted : Bool
  pub fs_readonly : Bool
  pub partition_start : ℕ
  pub error_msg : String
  pub volume_label : Bytes

-- `fat32_dir_entry_t`, on the bytes of a sector at an offset: a name of 11 bytes, then fields.
abbrev pub attributes_at : ℕ
attributes_at = 11

abbrev pub cluster_high_at : ℕ
cluster_high_at = 20

abbrev pub cluster_low_at : ℕ
cluster_low_at = 26

abbrev pub file_size_at : ℕ
file_size_at = 28

-- `fat32_handle_t`.
pub record Handle : Type 0 where
  pub first_cluster : ℕ
  pub current_cluster : ℕ
  pub current_offset : ℕ
  pub file_size : ℕ
  pub position : ℕ
  pub is_directory : Bool
  pub is_open : Bool
  pub buffer : Bytes
  pub buffer_sector : ℕ
  pub buffer_dirty : Bool
  pub dir_sector : ℕ
  pub dir_offset : ℕ

-- `memset(handle, 0, sizeof(fat32_handle_t))`.
abbrev pub closed : Handle
closed = record {
  first_cluster = 0;
  current_cluster = 0;
  current_offset = 0;
  file_size = 0;
  position = 0;
  is_directory = false;
  is_open = false;
  buffer = λ _. 0;
  buffer_sector = 0;
  buffer_dirty = false;
  dir_sector = 0;
  dir_offset = 0;
}

pub data Mode : Type 0 where
  file_read file_write file_append file_create : Mode

abbrev pub attr_read_only : ℕ
attr_read_only = 0x01

abbrev pub attr_directory : ℕ
attr_directory = 0x10

abbrev pub attr_archive : ℕ
attr_archive = 0x20

abbrev pub attr_long_name : ℕ
attr_long_name = 0x0F

abbrev pub free_cluster : ℕ
free_cluster = 0

abbrev pub bad_cluster : ℕ
bad_cluster = 0x0FFFFFF7

abbrev pub last_cluster : ℕ
last_cluster = 0x0FFFFFF8

pub data Run (D A : Type 0) : Type 0 where
  ok : A → Fs D → Run D A
  fault : Run D A
  out_of_fuel : Run D A

abbrev pub Cmd : Type 0 → Type 0 → Type 0
Cmd D A = Fs D → Run D A

module _ {D : Type 0} where
  abbrev pub pure : {A : Type 0} → A → Cmd D A
  pure = ok

  abbrev pub and_then : {A B : Type 0} → Run D A → (A → Cmd D B) → Run D B
  and_then (ok a s) k = k a s
  and_then fault k = fault
  and_then out_of_fuel k = out_of_fuel

  infixl 5 ◌>>=◌ ◌>>◌
  abbrev pub ◌>>=◌ : {A B : Type 0} → Cmd D A → (A → Cmd D B) → Cmd D B
  m >>= k = λ s. and_then (m s) k

  abbrev pub ◌>>◌ : {B : Type 0} → Cmd D (Unit {0}) → Cmd D B → Cmd D B
  m >> k = m >>= λ _. k

  abbrev pub get : Cmd D (Fs D)
  get s = ok s s

  abbrev pub modify : (Fs D → Fs D) → Cmd D (Unit {0})
  modify f s = ok tt (f s)

  -- `set_error`: every message of the code is shorter than the 63 bytes that are kept.
  abbrev set_error : String → Cmd D (Unit {0})
  set_error msg = modify λ s. record s { error_msg = msg }

  abbrev pub clear_error : Cmd D (Unit {0})
  clear_error = set_error ""

  -- `set_error(msg); return result;`.
  abbrev pub fail : {A : Type 0} → String → A → Cmd D A
  fail msg result = set_error msg >> pure result

module _ {D : Type 0} ⦃ide : Driver D⦄ where
  -- `read_sector`: the physical sector is counted from the start of the partition.
  pub read_sector : ℕ → Bytes → Cmd D (Bool × Bytes)
  read_sector sector buffer s =
      let (done, out, drive) = ide.read_sectors (u32 (s.partition_start + sector)) buffer s.drive in
      ok (done, out) (record s { drive = drive })

  -- `write_sector`, refused while the file system is read-only.
  pub write_sector : ℕ → Bytes → Cmd D Bool
  write_sector sector buffer s =
      if s.fs_readonly
      then fail "File system is read-only" false s
      else let (done, drive) =
          ide.write_sectors (u32 (s.partition_start + sector)) buffer s.drive in
        ok done (record s { drive = drive })

-- ===== src/Fat32/Guards.antt =====
-- The guards of the public functions of kernel/drivers/fs/fat32.c.
use Prim.Native.String.{String}
use blue_star_os.Base.{ℕ, ◌≡◌, true, false, none, some, Bytes, List}
use blue_star_os.Fat32.{Driver, Fs, Run, ok, Handle, Mode}
use blue_star_os.Fat32.Volume.{fat32_set_volume_label, fat32_get_free_space, fat32_get_total_space}
use blue_star_os.Fat32.File.{fat32_open}
use blue_star_os.Fat32.Transfer.{fat32_read, fat32_write}
use blue_star_os.Fat32.Position.{fat32_seek, fat32_truncate}
use blue_star_os.Fat32.Tree.{
  fat32_create_dir, fat32_remove_dir, fat32_delete_file, fat32_create_file, fat32_rename,
  fat32_copy,
}
use blue_star_os.Fat32.Lookup.{
  fat32_file_exists, fat32_get_file_size, fat32_set_file_attributes, fat32_read_dir,
}

-- The call fails with a message, and the drive and all other variables are as they were.
abbrev Refuses : {D A : Type 0} → Fs D → A → Run D A → Type 0
Refuses {D} s result r = (e : String) × (r ≡ ok result (record s { error_msg = e }))

-- The calls that change files: each fails.
abbrev pub WritersRefuse :
    {D : Type 0} ⦃ide : Driver D⦄ (s : Fs D) (fuel stack size : ℕ) (path other : List ℕ)
    (h : Handle) (buffer : Bytes)
    → Type 0
WritersRefuse s fuel stack size path other h buffer =
    Refuses s false (fat32_create_file fuel stack (some path) s)
    × Refuses s false (fat32_create_dir fuel stack (some path) s)
    × Refuses s false (fat32_delete_file fuel path s)
    × Refuses s false (fat32_remove_dir fuel path s)
    × Refuses s false (fat32_rename fuel path other s)
    × Refuses s false (fat32_copy fuel stack buffer path other s)
    × Refuses s false (fat32_set_file_attributes fuel (some path) size s)
    × Refuses s false (fat32_set_volume_label (some path) s)
    × Refuses s (false, some h) (fat32_write (some h) (some buffer) size s)
    × Refuses s (false, some h) (fat32_truncate fuel (some h) size s)

-- The calls that look at files: each fails, or gives no size.
abbrev pub ReadersRefuse :
    {D : Type 0} ⦃ide : Driver D⦄ (s : Fs D) (fuel stack size : ℕ) (path : List ℕ) (h : Handle)
    (buffer : Bytes) (mode : Mode)
    → Type 0
ReadersRefuse s fuel stack size path h buffer mode =
    Refuses s (false, some h) (fat32_open fuel stack (some path) (some h) mode s)
    × Refuses s (false, some buffer, some h) (fat32_read (some h) (some buffer) size s)
    × Refuses s (false, some h) (fat32_seek (some h) size s)
    × Refuses s (false, none, some h) (fat32_read_dir fuel (some h) true s)
    × Refuses s false (fat32_file_exists fuel (some path) s)
    × Refuses s 0 (fat32_get_file_size fuel (some path) s)
    × (fat32_get_free_space s ≡ ok 0 s)
    × (fat32_get_total_space s ≡ ok 0 s)

module _ {D : Type 0} ⦃ide : Driver D⦄ (s : Fs D) where
  -- While no file system is mounted nothing is opened, read, sought or found, and both sizes are 0.
  pub readers_refuse :
      s.fs_mounted ≡ false
      → (fuel stack size : ℕ) (path : List ℕ) (h : Handle) (buffer : Bytes) (mode : Mode)
      → ReadersRefuse s fuel stack size path h buffer mode
  unfolding fat32_open fat32_read fat32_seek fat32_read_dir fat32_file_exists fat32_get_file_size
      fat32_get_free_space fat32_get_total_space
  readers_refuse off fuel stack size path h buffer mode = (
    ("File system not mounted", rw off),
    ("Invalid parameters", rw off),
    ("Invalid parameters", rw off),
    ("Invalid parameters", rw off),
    ("", rw off),
    ("", rw off),
    rw off,
    rw off,
  )

-- ===== src/Fat32/Tree.antt =====
-- Files and directories by path, of kernel/drivers/fs/fat32.c. A path is the list of its bytes; a
-- null pointer is `none`. `stack` is what the uninitialised `parent_cluster` of a caller holds when
-- `find_directory_entry` has found nothing.
use blue_star_os.Base.{
  ℕ, zero, suc, ◌+◌, ◌/◌, ◌%◌, ◌^◌, bit_and, Bool, true, false, ◌||◌, not, Option, none, some, ◌==◌,
  if◌then◌else◌, Bytes, List, [], ◌∷◌, store, store16, store32,
}
use blue_star_os.Fat32.{
  Driver, Cmd, out_of_fuel, pure, ◌>>=◌, ◌>>◌, get, clear_error, fail, read_sector, write_sector,
  Handle, closed, Mode, attributes_at, cluster_high_at, cluster_low_at, file_size_at,
  attr_directory, attr_archive,
}
use blue_star_os.Fat32.Names.{name_to_83}
use blue_star_os.Fat32.Table.{cluster_to_sector, free_chain, allocate_cluster_chain}
use blue_star_os.Fat32.Directory.{
  entry_cluster, put_name, find_directory_entry, add_directory_entry, clear_cluster,
  remove_directory_entry,
}
use blue_star_os.Fat32.File.{fat32_open}
use blue_star_os.Fat32.Transfer.{fat32_read, fat32_write}
use blue_star_os.Fat32.Position.{fat32_close}

abbrev has_path : Option (List ℕ) → Bool
has_path none = false
has_path (some []) = false
has_path (some (c ∷ cs)) = true

abbrev path_of : Option (List ℕ) → List ℕ
path_of none = []
path_of (some p) = p

-- The cluster and the name that open a `.` or `..` entry of a new directory.
abbrev put_dots : Bytes → ℕ → List ℕ → ℕ → Bytes
put_dots buf offset name cluster =
    let named = store (put_name buf offset name) (offset + attributes_at) attr_directory in
    let high = store16 named (offset + cluster_high_at) (cluster / 2 ^ 16 % 2 ^ 16) in
    let low = store16 high (offset + cluster_low_at) (cluster % 2 ^ 16) in
    store32 low (offset + file_size_at) 0

abbrev dot_name : List ℕ
dot_name = b'.' ∷ 32 ∷ 32 ∷ 32 ∷ 32 ∷ 32 ∷ 32 ∷ 32 ∷ 32 ∷ 32 ∷ 32 ∷ []

abbrev dotdot_name : List ℕ
dotdot_name = b'.' ∷ b'.' ∷ 32 ∷ 32 ∷ 32 ∷ 32 ∷ 32 ∷ 32 ∷ 32 ∷ 32 ∷ 32 ∷ []

module _ {D : Type 0} ⦃ide : Driver D⦄ where
  -- A new chain of one cluster and a directory entry for it; `none` where either fails.
  pub add_new : ℕ → ℕ → List ℕ → ℕ → Cmd D (Option ℕ)
  add_new fuel parent_cluster path attributes = do
    (allocated, first_cluster) ← allocate_cluster_chain fuel 1
    if not allocated then pure none else do
      added ← add_directory_entry fuel parent_cluster (name_to_83 path) attributes first_cluster 0
      if not added
          then (do _ ← free_chain fuel first_cluster; pure none)
          else pure (some first_cluster)

  unfoldable pub fat32_create_dir : ℕ → ℕ → Option (List ℕ) → Cmd D Bool
  fat32_create_dir fuel stack path = do
    clear_error
    s ← get
    if not s.fs_mounted || s.fs_readonly
        then fail "File system not mounted or read-only" false
        else if not (has_path path)
        then fail "Invalid path" false
        else do
          found ← find_directory_entry fuel (path_of path)
          elim found [
            | some _ ↦ fail "Directory already exists" false
            | none ↦ do
              made ← add_new fuel stack (path_of path) attr_directory
              elim made [
                | none ↦ pure false
                | some first_cluster ↦ do
                  t ← get
                  let dots = put_dots (λ _. 0) 0 dot_name first_cluster
                  write_sector (cluster_to_sector first_cluster t)
                      (put_dots dots 32 dotdot_name stack)
              ]
          ]

  -- Frees the chain of an entry, if it has one, and marks the entry as deleted.
  pub remove_entry : ℕ → Bytes → ℕ → ℕ → Cmd D Bool
  remove_entry fuel buf dir_sector dir_offset =
      if entry_cluster buf dir_offset == 0 then remove_directory_entry dir_sector dir_offset else do
        freed ← free_chain fuel (entry_cluster buf dir_offset)
        if not freed then pure false else remove_directory_entry dir_sector dir_offset

  unfoldable pub fat32_remove_dir : ℕ → List ℕ → Cmd D Bool
  fat32_remove_dir fuel path = do
    clear_error
    s ← get
    if not s.fs_mounted || s.fs_readonly
        then fail "File system not mounted or read-only" false
        else do
          found ← find_directory_entry fuel path
          elim found [
            | none ↦ fail "Directory not found" false
            | some (dir_sector, dir_offset, _) ↦ do
              (done, buf) ← read_sector dir_sector (λ _. 0)
              if not done
                  then pure false
                  else if bit_and (buf (dir_offset + attributes_at)) attr_directory == 0
                  then fail "Not a directory" false
                  else remove_entry fuel buf dir_sector dir_offset
          ]

  unfoldable pub fat32_delete_file : ℕ → List ℕ → Cmd D Bool
  fat32_delete_file fuel path = do
    clear_error
    s ← get
    if not s.fs_mounted || s.fs_readonly
        then fail "File system not mounted or read-only" false
        else do
          found ← find_directory_entry fuel path
          elim found [
            | none ↦ fail "File not found" false
            | some (dir_sector, dir_offset, _) ↦ do
              (done, buf) ← read_sector dir_sector (λ _. 0)
              if not done
                  then pure false
                  else if not (bit_and (buf (dir_offset + attributes_at)) attr_directory == 0)
                  then fail "Is a directory, use remove_dir instead" false
                  else remove_entry fuel buf dir_sector dir_offset
          ]

  unfoldable pub fat32_create_file : ℕ → ℕ → Option (List ℕ) → Cmd D Bool
  fat32_create_file fuel stack path = do
    clear_error
    s ← get
    if not s.fs_mounted || s.fs_readonly
        then fail "File system not mounted or read-only" false
        else if not (has_path path)
        then fail "Invalid path" false
        else do
          found ← find_directory_entry fuel (path_of path)
          elim found [
            | some _ ↦ fail "File already exists" false
            | none ↦ do
              made ← add_new fuel stack (path_of path) attr_archive
              elim made [
                | none ↦ pure false
                | some first_cluster ↦ do
                  t ← get
                  clear_cluster t.fs_info.sectors_per_cluster (cluster_to_sector first_cluster t)
              ]
          ]

  unfoldable pub fat32_rename : ℕ → List ℕ → List ℕ → Cmd D Bool
  fat32_rename fuel old_path new_path = do
    clear_error
    s ← get
    if not s.fs_mounted || s.fs_readonly
        then fail "File system not mounted or read-only" false
        else do
          found ← find_directory_entry fuel old_path
          elim found [
            | none ↦ fail "Source file not found" false
            | some (dir_sector, dir_offset, _) ↦ do
              clash ← find_directory_entry fuel new_path
              elim clash [
                | some _ ↦ fail "Destination file already exists" false
                | none ↦ do
                  (done, buf) ← read_sector dir_sector (λ _. 0)
                  if not done
                      then pure false
                      else write_sector dir_sector (put_name buf dir_offset (name_to_83 new_path))
              ]
          ]

  -- The loop of `fat32_copy`: as many rounds as `fat32_read` succeeds. The count handed on is
  -- `position - (position - 512)`, which is 512.
  pub copy_loop :
      ℕ
      → Option Bytes
      → Option Handle
      → Option Handle
      → Cmd D (Bool × Option Handle × Option Handle)
  copy_loop zero buffer source target = λ _. out_of_fuel
  copy_loop (suc fuel) buffer source target = do
    (got, read, source') ← fat32_read source buffer 512
    if not got then pure (true, source', target) else do
      (put, target') ← fat32_write target read 512
      if not put then pure (false, source', target') else copy_loop fuel read source' target'

  -- `buffer` is what the local array holds before the first read.
  unfoldable pub fat32_copy : ℕ → ℕ → Bytes → List ℕ → List ℕ → Cmd D Bool
  fat32_copy fuel stack buffer src_path dst_path = do
    clear_error
    s ← get
    if not s.fs_mounted || s.fs_readonly
        then fail "File system not mounted or read-only" false
        else do
          (opened, source) ← fat32_open fuel stack (some src_path) (some closed) Mode.file_read
          if not opened then pure false else do
            clash ← find_directory_entry fuel dst_path
            elim clash [
              | some _ ↦ do
                _ ← fail "Destination file already exists" tt
                _ ← fat32_close source
                pure false
              | none ↦ do
                (made, target) ←
                    fat32_open fuel stack (some dst_path) (some closed) Mode.file_create
                if not made then (do _ ← fat32_close source; pure false) else do
                  (copied, source', target') ← copy_loop fuel (some buffer) source target
                  _ ← fat32_close source'
                  _ ← fat32_close target'
                  pure copied
            ]

  fat32_move : ℕ → ℕ → Bytes → List ℕ → List ℕ → Cmd D Bool
  fat32_move fuel stack buffer src_path dst_path = do
    renamed ← fat32_rename fuel src_path dst_path
    if renamed then pure true else do
      copied ← fat32_copy fuel stack buffer src_path dst_path
      if copied then fat32_delete_file fuel src_path else pure false

-- ===== src/Fat32/File.antt =====
-- Open files of kernel/drivers/fs/fat32.c. A handle is passed in and returned; a null pointer is
-- `none`. A byte buffer of the caller is passed in and returned too.
use blue_star_os.Base.{
  ℕ, ◌+◌, ◌*◌, bit_and, Bool, true, false, ◌&&◌, not, Option, none, some, ◌==◌, if◌then◌else◌, u32,
  Bytes, List, [], ◌∷◌, load32,
}
use blue_star_os.Fat32.{
  Driver, Info, Cmd, pure, ◌>>=◌, ◌>>◌, get, clear_error, fail, read_sector, Handle, closed, Mode,
  attributes_at, file_size_at, attr_read_only, attr_directory, attr_archive,
}
use blue_star_os.Fat32.Names.{name_to_83}
use blue_star_os.Fat32.Table.{free_chain, allocate_cluster_chain}
use blue_star_os.Fat32.Directory.{entry_cluster, find_directory_entry, add_directory_entry}

abbrev pub bytes_per_cluster : Info → ℕ
bytes_per_cluster i = u32 (i.sectors_per_cluster * i.bytes_per_sector)

abbrev is_root : List ℕ → Bool
is_root [] = true
is_root (c ∷ []) = c == b'/'
is_root (c ∷ (d ∷ cs)) = false

abbrev is_read : Mode → Bool
is_read Mode.file_read = true
is_read _ = false

-- The modes in which `fat32_open` makes a file that is not there.
abbrev creates : Mode → Bool
creates Mode.file_create = true
creates Mode.file_append = true
creates _ = false

-- `memset(handle, 0, …)`, then the fields of the root directory.
abbrev root_handle : ℕ → Handle
root_handle cluster = record closed {
  first_cluster = cluster;
  current_cluster = cluster;
  is_directory = true;
  is_open = true;
}

-- The handle of a directory entry.
abbrev entry_handle : Bytes → ℕ → ℕ → Handle
entry_handle buf dir_sector dir_offset = record closed {
  first_cluster = entry_cluster buf dir_offset;
  current_cluster = entry_cluster buf dir_offset;
  file_size = load32 buf (dir_offset + file_size_at);
  is_directory = not (bit_and (buf (dir_offset + attributes_at)) attr_directory == 0);
  dir_sector = dir_sector;
  dir_offset = dir_offset;
  is_open = true;
}

module _ {D : Type 0} ⦃ide : Driver D⦄ where
  pub open_entry : Mode → ℕ → ℕ → Cmd D (Bool × Handle)
  open_entry mode dir_sector dir_offset = do
    (done, buf) ← read_sector dir_sector (λ _. 0)
    if not done then pure (false, closed) else do
      let handle = entry_handle buf dir_sector dir_offset
      let attributes = buf (dir_offset + attributes_at)
      if is_read mode && not (bit_and attributes attr_read_only == 0)
          then fail "File is read-only" (false, handle)
          else pure (true, handle)

  -- The branch that makes the file. `parent_cluster` is what the caller's variable holds, which the
  -- failed search has not set.
  pub open_new : ℕ → ℕ → List ℕ → Cmd D (Bool × Handle)
  open_new fuel parent_cluster path = do
    (allocated, first_cluster) ← allocate_cluster_chain fuel 1
    if not allocated then pure (false, closed) else do
      added ← add_directory_entry fuel parent_cluster (name_to_83 path) attr_archive first_cluster 0
      if not added then (do _ ← free_chain fuel first_cluster; pure (false, closed)) else do
        let handle : Handle = record closed {
          first_cluster = first_cluster;
          current_cluster = first_cluster;
          is_open = true;
        }
        found ← find_directory_entry fuel path
        elim found [
          | none ↦ pure (false, handle)
          | some (dir_sector, dir_offset, _) ↦
              pure (true, record handle { dir_sector = dir_sector; dir_offset = dir_offset })
        ]

  -- `stack` is what the uninitialised `parent_cluster` holds. A null pointer is `none`; the
  -- handle's old contents do not matter, unless an early return leaves it.
  unfoldable pub fat32_open :
      ℕ → ℕ → Option (List ℕ) → Option Handle → Mode → Cmd D (Bool × Option Handle)
  fat32_open fuel stack path handle mode = do
    clear_error
    s ← get
    if not s.fs_mounted then fail "File system not mounted" (false, handle) else elim path [
      | none ↦ fail "Invalid parameters" (false, handle)
      | some name ↦ elim handle [
        | none ↦ fail "Invalid parameters" (false, none)
        | some _ ↦
            if is_root name
            then (if is_read mode
                then pure (true, some (root_handle s.fs_info.root_dir_cluster))
                else fail "Cannot write to root directory" (false, some closed))
            else do
              found ← find_directory_entry fuel name
              elim found [
                | some (dir_sector, dir_offset, _) ↦ do
                  (done, h) ← open_entry mode dir_sector dir_offset
                  pure (done, some h)
                | none ↦
                    if creates mode
                    then (do (done, h) ← open_new fuel stack name; pure (done, some h))
                    else fail "File not found" (false, some closed)
              ]
      ]
    ]

  fat32_open_root : ℕ → ℕ → Option Handle → Cmd D (Bool × Option Handle)
  fat32_open_root fuel stack handle = fat32_open fuel stack (some (b'/' ∷ [])) handle Mode.file_read

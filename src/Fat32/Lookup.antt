-- ===== src/Fat32/Lookup.antt =====
-- Questions about a path, and reading a directory, of kernel/drivers/fs/fat32.c. An entry that is
-- copied out is its 32 bytes; a null pointer is `none`.
use blue_star_os.Base.{
  ℕ, zero, suc, ◌+◌, ◌-◌, ◌*◌, ◌/◌, ◌%◌, Bool, true, false, ◌&&◌, ◌||◌, not, Option, none, some,
  ltb, leb, ◌==◌, if◌then◌else◌, u32, Bytes, List, load32, store,
}
use blue_star_os.Fat32.{
  Driver, Cmd, fault, out_of_fuel, pure, ◌>>=◌, ◌>>◌, get, clear_error, fail, read_sector,
  write_sector, Handle, attributes_at, file_size_at, last_cluster,
}
use blue_star_os.Fat32.Table.{cluster_to_sector, read_fat_entry}
use blue_star_os.Fat32.Directory.{is_deleted_entry, is_long_name_entry, find_directory_entry}

-- `memcpy(entry, sector_buffer + dir_offset, sizeof(fat32_dir_entry_t))`.
abbrev entry_at : Bytes → ℕ → Bytes
entry_at buf offset i = buf (offset + i)

-- `.` and `..`.
is_dots : Bytes → ℕ → Bool
is_dots buf offset =
    (buf offset == b'.') && ((buf (offset + 1) == 32) || (buf (offset + 1) == b'.'))

-- The loop over one sector: an entry to report, the end of the directory, or nothing here.
pub data Listing : Type 0 where
  entry : ℕ → Listing
  finished : Listing
  nothing : Listing

list_sector : Bytes → ℕ → ℕ → Listing
list_sector buf zero offset = nothing
list_sector buf (suc left) offset =
    let rest = list_sector buf left (offset + 32) in
    if buf offset == 0
    then finished
    else if is_deleted_entry buf offset || is_long_name_entry buf offset
    then rest
    else if is_dots buf offset
    then rest
    else entry offset

module _ {D : Type 0} ⦃ide : Driver D⦄ where
  -- The sector that holds the entry of a path and the entry's offset, where the path is found and
  -- the sector can be read.
  pub entry_sector : ℕ → List ℕ → Cmd D (Option (ℕ × Bytes × ℕ))
  entry_sector fuel path = do
    found ← find_directory_entry fuel path
    elim found [
      | none ↦ pure none
      | some (dir_sector, dir_offset, _) ↦ do
        (done, buf) ← read_sector dir_sector (λ _. 0)
        if not done then pure none else pure (some (dir_sector, buf, dir_offset))
    ]

  fat32_find_file : ℕ → Option (List ℕ) → Option Bytes → Cmd D (Bool × Option Bytes)
  fat32_find_file fuel none out = do clear_error; fail "Invalid parameters" (false, out)
  fat32_find_file fuel (some path) none = do clear_error; fail "Invalid parameters" (false, none)
  fat32_find_file fuel (some path) (some out) = do
    clear_error
    s ← get
    if not s.fs_mounted then fail "Invalid parameters" (false, some out) else do
      found ← entry_sector fuel path
      elim found [
        | none ↦ pure (false, some out)
        | some (_, buf, offset) ↦ pure (true, some (entry_at buf offset))
      ]

  unfoldable pub fat32_file_exists : ℕ → Option (List ℕ) → Cmd D Bool
  fat32_file_exists fuel none = do clear_error; pure false
  fat32_file_exists fuel (some path) = do
    clear_error
    s ← get
    if not s.fs_mounted then pure false else do
      found ← find_directory_entry fuel path
      elim found [ none ↦ pure false | some _ ↦ pure true ]

  unfoldable pub fat32_get_file_size : ℕ → Option (List ℕ) → Cmd D ℕ
  fat32_get_file_size fuel none = do clear_error; pure 0
  fat32_get_file_size fuel (some path) = do
    clear_error
    s ← get
    if not s.fs_mounted then pure 0 else do
      found ← entry_sector fuel path
      elim found [
        | none ↦ pure 0
        | some (_, buf, offset) ↦ pure (load32 buf (offset + file_size_at))
      ]

  fat32_get_file_info : ℕ → Option (List ℕ) → Option Bytes → Cmd D (Bool × Option Bytes)
  fat32_get_file_info fuel none info = do clear_error; pure (false, info)
  fat32_get_file_info fuel (some path) none = do clear_error; pure (false, none)
  fat32_get_file_info fuel (some path) (some info) = do
    clear_error
    s ← get
    if not s.fs_mounted then pure (false, some info) else do
      found ← entry_sector fuel path
      elim found [
        | none ↦ pure (false, some info)
        | some (_, buf, offset) ↦ pure (true, some (entry_at buf offset))
      ]

  unfoldable pub fat32_set_file_attributes : ℕ → Option (List ℕ) → ℕ → Cmd D Bool
  fat32_set_file_attributes fuel none attributes = do
    clear_error
    fail "Invalid parameters or read-only" false
  fat32_set_file_attributes fuel (some path) attributes = do
    clear_error
    s ← get
    if not s.fs_mounted || s.fs_readonly then fail "Invalid parameters or read-only" false else do
      found ← find_directory_entry fuel path
      elim found [
        | none ↦ fail "File not found" false
        | some (dir_sector, dir_offset, _) ↦ do
          (done, buf) ← read_sector dir_sector (λ _. 0)
          if not done
              then pure false
              else write_sector dir_sector (store buf (dir_offset + attributes_at) attributes)
      ]

  -- The loop of `fat32_read_dir`. The sector number is taken before the step to the next cluster.
  pub read_dir_loop : ℕ → Handle → Cmd D (Bool × Option Bytes × Handle)
  read_dir_loop zero h = λ _. out_of_fuel
  read_dir_loop (suc fuel) h =
      if not (ltb h.current_cluster last_cluster) then pure (false, none, h) else do
        s ← get
        let sector = cluster_to_sector h.current_cluster s
        let per = s.fs_info.bytes_per_sector
        if per == 0 then (λ _. fault) else do
          (ended, g) ←
              (if ltb (h.position / per) s.fs_info.sectors_per_cluster then pure (false, h) else do
                cluster ← read_fat_entry h.current_cluster
                let moved : Handle = record h { current_cluster = cluster }
                if leb last_cluster cluster
                    then pure (true, moved)
                    else pure (false, record moved { position = 0 }))
          if ended then pure (false, none, g) else do
            (done, buf) ← read_sector (u32 (sector + g.position / per)) (λ _. 0)
            if not done then fail "Failed to read directory sector" (false, none, g) else do
              let offset = g.position % per
              elim (list_sector buf ((per - offset + 31) / 32) offset) [
                | finished ↦ pure (false, none, g)
                | entry o ↦ pure (
                  true,
                  some (entry_at buf o),
                  record g { position = u32 (g.position / per * per + o + 32) },
                )
                | nothing ↦
                    read_dir_loop fuel (record g { position = u32 ((g.position / per + 1) * per) })
              ]

  -- The handle is returned with the entry; `none` for the entry where nothing is copied out.
  unfoldable pub fat32_read_dir :
      ℕ → Option Handle → Bool → Cmd D (Bool × Option Bytes × Option Handle)
  fat32_read_dir fuel none has_entry = do clear_error; fail "Invalid parameters" (false, none, none)
  fat32_read_dir fuel (some h) has_entry = do
    clear_error
    s ← get
    if (not s.fs_mounted || not has_entry) || not h.is_open
        then fail "Invalid parameters" (false, none, some h)
        else if not h.is_directory
        then fail "Not a directory handle" (false, none, some h)
        else if leb last_cluster h.current_cluster
        then pure (false, none, some h)
        else do (found, out, h') ← read_dir_loop fuel h; pure (found, out, some h')

-- ===== src/Fat32/Position.antt =====
-- Seeking, truncating and closing an open file of kernel/drivers/fs/fat32.c. A handle is passed in
-- and returned; a null pointer is `none`.
use blue_star_os.Base.{
  ℕ, zero, suc, ◌+◌, ◌/◌, Bool, true, false, ◌&&◌, ◌||◌, not, Option, none, some, ltb, ◌==◌,
  if◌then◌else◌, u32, sub32,
}
use blue_star_os.Fat32.{
  Driver, Cmd, fault, pure, ◌>>=◌, ◌>>◌, get, clear_error, fail, Handle, closed, last_cluster,
  free_cluster,
}
use blue_star_os.Fat32.Table.{read_fat_entry, write_fat_entry, free_chain, follow}
use blue_star_os.Fat32.Directory.{update_directory_entry}
use blue_star_os.Fat32.File.{bytes_per_cluster}
use blue_star_os.Fat32.Transfer.{flush}

-- Where a successful seek leaves the handle.
abbrev pub placed : ℕ → ℕ → Handle → Handle
placed cluster position handle = record handle {
  current_cluster = cluster;
  position = position;
  buffer_sector = 0;
  buffer_dirty = false;
}

-- `(size + bytes_per_cluster - 1) / bytes_per_cluster`, in 32 bits.
abbrev clusters_for : ℕ → ℕ → ℕ
clusters_for size per = sub32 (u32 (size + per)) 1 / per

module _ {D : Type 0} ⦃ide : Driver D⦄ where
  pub seek_open : Handle → ℕ → Cmd D (Bool × Handle)
  seek_open h position =
      if ltb h.file_size position && not h.is_directory
      then fail "Seek beyond end of file" (false, h)
      else if position == 0
      then pure (true, placed h.first_cluster 0 h)
      else do
        s ← get
        if (bytes_per_cluster s.fs_info == 0) || (s.fs_info.bytes_per_sector == 0)
            then (λ _. fault)
            else do
              found ← follow (position / bytes_per_cluster s.fs_info) h.first_cluster
              elim found [
                | none ↦ fail "Invalid cluster chain" (false, h)
                | some cluster ↦ pure (true, placed cluster position h)
              ]

  unfoldable pub fat32_seek : Option Handle → ℕ → Cmd D (Bool × Option Handle)
  fat32_seek none position = do clear_error; fail "Invalid parameters" (false, none)
  fat32_seek (some h) position = do
    clear_error
    s ← get
    if not s.fs_mounted || not h.is_open
        then fail "Invalid parameters" (false, some h)
        else do (done, h') ← seek_open h position; pure (done, some h')

  -- Reads `left` links from a cluster, whatever they say: the cluster before the last link, and the
  -- one that it names.
  walk : ℕ → ℕ → ℕ → Cmd D (ℕ × ℕ)
  walk zero prev current = pure (prev, current)
  walk (suc left) prev current = do next ← read_fat_entry current; walk left current next

  -- Ends the chain behind its first `keep` clusters and frees the rest.
  cut_chain : ℕ → ℕ → ℕ → Cmd D Bool
  cut_chain fuel keep first_cluster = do
    (prev, first_to_free) ← walk keep 0 first_cluster
    if prev == 0 then pure true else do
      ended ← write_fat_entry prev last_cluster
      if not ended
          then pure false
          else if ltb first_to_free last_cluster && not (first_to_free == free_cluster)
          then free_chain fuel first_to_free
          else pure true

  pub shrink : ℕ → Handle → ℕ → Cmd D (Bool × Handle)
  shrink fuel h new_size = do
    s ← get
    let per = bytes_per_cluster s.fs_info
    if per == 0 then (λ _. fault) else do
      let old_count = clusters_for h.file_size per
      let new_count = clusters_for new_size per
      cut ←
          (if ltb new_count old_count then cut_chain fuel new_count h.first_cluster else pure true)
      if not cut then pure (false, h) else do
        let sized : Handle = record h {
          file_size = new_size;
          position = if ltb new_size h.position then new_size else h.position;
        }
        done ← update_directory_entry sized
        pure (done, sized)

  unfoldable pub fat32_truncate : ℕ → Option Handle → ℕ → Cmd D (Bool × Option Handle)
  fat32_truncate fuel none new_size = do
    clear_error
    fail "Invalid parameters or read-only" (false, none)
  fat32_truncate fuel (some h) new_size = do
    clear_error
    s ← get
    if (not s.fs_mounted || not h.is_open) || s.fs_readonly
        then fail "Invalid parameters or read-only" (false, some h)
        else if h.is_directory
        then fail "Cannot truncate directory" (false, some h)
        else if new_size == h.file_size
        then pure (true, some h)
        else if ltb h.file_size new_size
        then (do
          let sized : Handle = record h { file_size = new_size }
          done ← update_directory_entry sized
          pure (done, some sized))
        else do (done, h') ← shrink fuel h new_size; pure (done, some h')

  -- A failed write of the buffer or the entry is not reported.
  pub fat32_close : Option Handle → Cmd D (Option Handle)
  fat32_close none = pure none
  fat32_close (some h) = if not h.is_open then pure (some h) else do
    _ ← flush h
    _ ← (if h.dir_sector == 0 then pure false else update_directory_entry h)
    pure (some closed)

-- ===== src/Fat32/Transfer.antt =====
-- Reading and writing an open file of kernel/drivers/fs/fat32.c, one sector's part in each round.
-- The caller's buffer is passed in and returned; a null pointer is `none`.
pub mod Progress
pub mod Sector
pub mod Places
use blue_star_os.Base.{
  ℕ, zero, suc, ◌+◌, ◌-◌, ◌/◌, ◌%◌, Bool, true, false, ◌&&◌, ◌||◌, not, Option, none, some, ltb,
  leb, ◌==◌, if◌then◌else◌, u32, sub32, Bytes, blit, fill,
}
use blue_star_os.Fat32.{
  Driver, Cmd, fault, out_of_fuel, pure, ◌>>=◌, ◌>>◌, get, modify, clear_error, fail, read_sector,
  write_sector, Handle, last_cluster,
}
use blue_star_os.Fat32.Table.{cluster_to_sector, read_fat_entry, write_fat_entry, find_free_cluster}
use blue_star_os.Fat32.File.{bytes_per_cluster}

-- A round returns from the function, or goes on with the bytes done, the buffer and the handle.
pub data Round : Type 0 where
  stop : Bool → Bytes → Handle → Round
  next : ℕ → Bytes → Handle → Round

abbrev smaller : ℕ → ℕ → ℕ
smaller a b = if ltb b a then b else a

-- `handle->buffer_sector = 0` where a sector has been read to its end.
abbrev finish_sector : Bool → Handle → Handle
finish_sector ended handle = if ended then record handle { buffer_sector = 0 } else handle

-- The new position, and the file's size where it grows.
abbrev advance : ℕ → Handle → Handle
advance n handle = record handle { position = u32 (handle.position + n) }

abbrev grow : Handle → Handle
grow handle =
    if ltb handle.file_size handle.position
    then record handle { file_size = handle.position }
    else handle

module _ {D : Type 0} ⦃ide : Driver D⦄ where
  -- At the start of a cluster that is not the file's first: on to the next one. Whether the chain
  -- has ended.
  unfoldable pub next_to_read : ℕ → Handle → Cmd D (Bool × Handle)
  next_to_read cluster_offset handle =
      if (cluster_offset == 0) && ltb 0 handle.position
      then (do
        cluster ← read_fat_entry handle.current_cluster
        pure (leb last_cluster cluster, record handle { current_cluster = cluster }))
      else pure (false, handle)

  load_sector : ℕ → Handle → Cmd D (Bool × Handle)
  load_sector sector handle = if sector == handle.buffer_sector then pure (true, handle) else do
    (done, buffer) ← read_sector sector handle.buffer
    pure (
      done,
      if done
          then record handle { buffer = buffer; buffer_sector = sector }
          else record handle { buffer = buffer },
    )

  read_round : ℕ → ℕ → Bytes → Handle → Cmd D Round
  read_round size bytes_read dest handle = do
    s ← get
    if (bytes_per_cluster s.fs_info == 0) || (s.fs_info.bytes_per_sector == 0)
        then (λ _. fault)
        else do
          let cluster_offset = handle.position % bytes_per_cluster s.fs_info
          let sector_in_cluster = cluster_offset / s.fs_info.bytes_per_sector
          let sector_offset = cluster_offset % s.fs_info.bytes_per_sector
          (ended, h) ← next_to_read cluster_offset handle
          if ended then pure (stop (ltb 0 bytes_read) dest h) else do
            let sector = u32 (cluster_to_sector h.current_cluster s + sector_in_cluster)
            (loaded, g) ← load_sector sector h
            if not loaded then fail "Failed to read sector" (stop false dest g) else do
              let n = smaller (s.fs_info.bytes_per_sector - sector_offset) (size - bytes_read)
              pure (
                  next (bytes_read + n) (blit dest bytes_read g.buffer sector_offset n)
                    (finish_sector (sector_offset + n == s.fs_info.bytes_per_sector) (advance n g)))

  -- Each round reads a byte at least, so `size` rounds are enough.
  pub read_loop : ℕ → ℕ → ℕ → Bytes → Handle → Cmd D (Bool × Bytes × Handle)
  read_loop zero size bytes_read dest handle =
      if ltb bytes_read size then (λ _. out_of_fuel) else pure (ltb 0 bytes_read, dest, handle)
  read_loop (suc fuel) size bytes_read dest handle =
      if not (ltb bytes_read size) then pure (ltb 0 bytes_read, dest, handle) else do
        round ← read_round size bytes_read dest handle
        elim round [
          | stop result out h ↦ pure (result, out, h)
          | next done out h ↦ read_loop fuel size done out h
        ]

  unfoldable pub fat32_read :
      Option Handle → Option Bytes → ℕ → Cmd D (Bool × Option Bytes × Option Handle)
  fat32_read none buffer size = do clear_error; fail "Invalid parameters" (false, buffer, none)
  fat32_read (some h) none size = do clear_error; fail "Invalid parameters" (false, none, some h)
  fat32_read (some h) (some dest) size = do
    clear_error
    s ← get
    if not s.fs_mounted || not h.is_open
        then fail "Invalid parameters" (false, some dest, some h)
        else if h.is_directory
        then fail "Cannot read from directory" (false, some dest, some h)
        else if leb h.file_size h.position
        then pure (false, some dest, some h)
        else do
          let wanted =
              if ltb h.file_size (u32 (h.position + size)) then h.file_size - h.position else size
          (result, out, h') ← read_loop wanted wanted 0 dest h
          pure (result, some out, some h')

  -- As for reading, but at the end of the chain a new cluster is linked in. `some` is the result of
  -- an early return.
  next_to_write : ℕ → Handle → Cmd D (Option Bool × Handle)
  next_to_write cluster_offset handle =
      if not ((cluster_offset == 0) && ltb 0 handle.position) then pure (none, handle) else do
        next_cluster ← read_fat_entry handle.current_cluster
        if not (leb last_cluster next_cluster)
            then pure (none, record handle { current_cluster = next_cluster })
            else do
              new_cluster ← find_free_cluster
              if new_cluster == 0 then fail "No free space" (some false, handle) else do
                linked ← write_fat_entry handle.current_cluster new_cluster
                if not linked then fail "Failed to allocate cluster" (some false, handle) else do
                  marked ← write_fat_entry new_cluster last_cluster
                  if not marked then fail "Failed to allocate cluster" (some false, handle) else do
                    modify λ t. record t {
                      fs_info = record t.fs_info {
                        free_clusters = sub32 t.fs_info.free_clusters 1;
                      };
                    }
                    pure (none, record handle { current_cluster = new_cluster })

  -- `write_sector` of a buffer that was changed.
  pub flush : Handle → Cmd D (Bool × Handle)
  flush handle =
      if not (handle.buffer_dirty && not (handle.buffer_sector == 0))
      then pure (true, handle)
      else do
        written ← write_sector handle.buffer_sector handle.buffer
        pure (written, if written then record handle { buffer_dirty = false } else handle)

  -- Makes the buffer hold the sector to be written: read inside the file, empty behind its end.
  switch_sector : ℕ → ℕ → Handle → Cmd D (Bool × Handle)
  switch_sector bytes_per_sector sector handle =
      if sector == handle.buffer_sector then pure (true, handle) else do
        (flushed, h) ← flush handle
        if not flushed then fail "Failed to write sector" (false, h) else do
          if ltb h.position h.file_size
              then (do
                (done, buffer) ← read_sector sector h.buffer
                if not done
                    then fail "Failed to read sector" (false, record h { buffer = buffer })
                    else pure (true, record h { buffer = buffer; buffer_sector = sector }))
              else pure (
                true,
                record h { buffer = fill h.buffer 0 0 bytes_per_sector; buffer_sector = sector },
              )

  write_round : Bytes → ℕ → ℕ → Handle → Cmd D Round
  write_round src size bytes_written handle = do
    s ← get
    if (bytes_per_cluster s.fs_info == 0) || (s.fs_info.bytes_per_sector == 0)
        then (λ _. fault)
        else do
          let cluster_offset = handle.position % bytes_per_cluster s.fs_info
          let sector_in_cluster = cluster_offset / s.fs_info.bytes_per_sector
          let sector_offset = cluster_offset % s.fs_info.bytes_per_sector
          (early, h) ← next_to_write cluster_offset handle
          elim early [
            | some result ↦ pure (stop result src h)
            | none ↦ do
              let sector = u32 (cluster_to_sector h.current_cluster s + sector_in_cluster)
              (ready, g) ← switch_sector s.fs_info.bytes_per_sector sector h
              if not ready then pure (stop false src g) else do
                let n = smaller (s.fs_info.bytes_per_sector - sector_offset) (size - bytes_written)
                let filled : Handle = record g {
                  buffer = blit g.buffer sector_offset src bytes_written n;
                  buffer_dirty = true;
                }
                pure (next (bytes_written + n) src (grow (advance n filled)))
          ]

  pub write_loop : ℕ → Bytes → ℕ → ℕ → Handle → Cmd D (Bool × Handle)
  write_loop zero src size bytes_written handle =
      if ltb bytes_written size then (λ _. out_of_fuel) else pure (true, handle)
  write_loop (suc fuel) src size bytes_written handle =
      if not (ltb bytes_written size) then pure (true, handle) else do
        round ← write_round src size bytes_written handle
        elim round [
          | stop result _ h ↦ pure (result, h)
          | next done _ h ↦ write_loop fuel src size done h
        ]

  unfoldable pub fat32_write : Option Handle → Option Bytes → ℕ → Cmd D (Bool × Option Handle)
  fat32_write none buffer size = do
    clear_error
    fail "Invalid parameters or read-only" (false, none)
  fat32_write (some h) none size = do
    clear_error
    fail "Invalid parameters or read-only" (false, some h)
  fat32_write (some h) (some src) size = do
    clear_error
    s ← get
    if (not s.fs_mounted || not h.is_open) || s.fs_readonly
        then fail "Invalid parameters or read-only" (false, some h)
        else if h.is_directory
        then fail "Cannot write to directory" (false, some h)
        else do (result, h') ← write_loop size src size 0 h; pure (result, some h')

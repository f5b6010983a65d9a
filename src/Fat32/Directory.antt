-- ===== src/Fat32/Directory.antt =====
-- Directory entries of kernel/drivers/fs/fat32.c: 32 bytes each, sixteen to a sector. A directory
-- is a chain of clusters. The loops over chains take fuel, since links may form a cycle.
use blue_star_os.Base.{
  ℕ, zero, suc, ◌+◌, ◌*◌, ◌/◌, ◌%◌, ◌^◌, bit_and, Bool, true, false, ◌&&◌, ◌||◌, not, Option, none,
  some, ltb, ◌==◌, if◌then◌else◌, u32, Bytes, List, [], ◌∷◌, store, load16, store16, store32,
}
use blue_star_os.Fat32.{
  Driver, Cmd, out_of_fuel, pure, ◌>>=◌, get, read_sector, write_sector, Handle, attributes_at,
  cluster_high_at, cluster_low_at, file_size_at, attr_long_name, last_cluster,
}
use blue_star_os.Fat32.Names.{name_to_83}
use blue_star_os.Fat32.Table.{cluster_to_sector, read_fat_entry, write_fat_entry, find_free_cluster}

pub is_deleted_entry : Bytes → ℕ → Bool
is_deleted_entry buf offset = buf offset == 0xE5

pub is_long_name_entry : Bytes → ℕ → Bool
is_long_name_entry buf offset =
    bit_and (buf (offset + attributes_at)) attr_long_name == attr_long_name

-- The loop that compares the names.
name_matches : Bytes → ℕ → List ℕ → Bool
name_matches buf offset [] = true
name_matches buf offset (c ∷ cs) = (buf offset == c) && name_matches buf (offset + 1) cs

-- `(entry->cluster_high << 16) | entry->cluster_low`.
pub entry_cluster : Bytes → ℕ → ℕ
entry_cluster buf offset =
    load16 buf (offset + cluster_high_at) * 2 ^ 16 + load16 buf (offset + cluster_low_at)

-- How a scan of a sector, or of a cluster, ends: at an entry (its sector and offset), at the end
-- of the directory or a read error, or with nothing found yet.
pub data Scan : Type 0 where
  hit : ℕ → ℕ → Scan
  stop : Scan
  more : Scan

scan_sector : List ℕ → Bytes → ℕ → ℕ → ℕ → Scan
scan_sector name83 buf sector zero offset = more
scan_sector name83 buf sector (suc left) offset =
    let rest = scan_sector name83 buf sector left (offset + 32) in
    if buf offset == 0
    then stop
    else if is_deleted_entry buf offset
    then rest
    else if is_long_name_entry buf offset
    then rest
    else if name_matches buf offset name83
    then hit sector offset
    else rest

-- The first entry of a sector that holds nothing.
scan_unused : Bytes → ℕ → ℕ → Option ℕ
scan_unused buf zero offset = none
scan_unused buf (suc left) offset =
    let rest = scan_unused buf left (offset + 32) in
    if (buf offset == 0) || is_deleted_entry buf offset then some offset else rest

pub put_name : Bytes → ℕ → List ℕ → Bytes
put_name buf offset [] = buf
put_name buf offset (c ∷ cs) = put_name (store buf offset c) (offset + 1) cs

-- The fields that `add_directory_entry` writes.
put_entry : Bytes → ℕ → List ℕ → ℕ → ℕ → ℕ → Bytes
put_entry buf offset name83 attributes first_cluster file_size =
    let named = put_name buf offset name83 in
    let marked = store (store named (offset + attributes_at) attributes) (offset + 12) 0 in
    let created =
      store16 (store16 (store marked (offset + 13) 0) (offset + 14) 0) (offset + 16) 0 in
    let accessed = store16 created (offset + 18) 0 in
    let high = store16 accessed (offset + cluster_high_at) (first_cluster / 2 ^ 16 % 2 ^ 16) in
    let written = store16 (store16 high (offset + 22) 0) (offset + 24) 0 in
    let low = store16 written (offset + cluster_low_at) (first_cluster % 2 ^ 16) in
    store32 low (offset + file_size_at) file_size

module _ {D : Type 0} ⦃ide : Driver D⦄ where
  -- The sectors of one cluster, `left` of them to go.
  scan_cluster : List ℕ → ℕ → ℕ → Cmd D Scan
  scan_cluster name83 zero sector = pure more
  scan_cluster name83 (suc left) sector = do
    (done, buf) ← read_sector sector (λ _. 0)
    if not done then pure stop else elim (scan_sector name83 buf sector 16 0) [
      | hit s o ↦ pure (hit s o)
      | stop ↦ pure stop
      | more ↦ scan_cluster name83 left (u32 (sector + 1))
    ]

  find_entry : ℕ → List ℕ → ℕ → Cmd D (Option (ℕ × ℕ × ℕ))
  find_entry zero name83 current = λ _. out_of_fuel
  find_entry (suc fuel) name83 current = if not (ltb current last_cluster) then pure none else do
    s ← get
    result ← scan_cluster name83 s.fs_info.sectors_per_cluster (cluster_to_sector current s)
    elim result [
      | hit sector offset ↦ pure (some (sector, offset, current))
      | stop ↦ pure none
      | more ↦ do next ← read_fat_entry current; find_entry fuel name83 next
    ]

  -- The entry's sector, its offset and the cluster that it stands in; `none` leaves the three
  -- variables of the caller as they were.
  pub find_directory_entry : ℕ → List ℕ → Cmd D (Option (ℕ × ℕ × ℕ))
  find_directory_entry fuel path = do
    s ← get
    find_entry fuel (name_to_83 path) s.fs_info.root_dir_cluster

  -- Writes the entry at the first unused place of a cluster: `some` is the value returned.
  add_to_cluster : ℕ → ℕ → List ℕ → ℕ → ℕ → ℕ → Cmd D (Option Bool)
  add_to_cluster zero sector name83 attributes first_cluster file_size = pure none
  add_to_cluster (suc left) sector name83 attributes first_cluster file_size = do
    (done, buf) ← read_sector sector (λ _. 0)
    if not done then pure (some false) else elim (scan_unused buf 16 0) [
      | none ↦ add_to_cluster left (u32 (sector + 1)) name83 attributes first_cluster file_size
      | some offset ↦ do
        written ←
            write_sector sector (put_entry buf offset name83 attributes first_cluster file_size)
        pure (some written)
    ]

  -- `write_sector` of empty sectors over a cluster.
  pub clear_cluster : ℕ → ℕ → Cmd D Bool
  clear_cluster zero sector = pure true
  clear_cluster (suc left) sector = do
    written ← write_sector sector (λ _. 0)
    if not written then pure false else clear_cluster left (u32 (sector + 1))

  -- The walk over the directory's clusters, and behind the last one a new cluster.
  pub add_directory_entry : ℕ → ℕ → List ℕ → ℕ → ℕ → ℕ → Cmd D Bool
  add_directory_entry zero current name83 attributes first_cluster file_size = λ _. out_of_fuel
  add_directory_entry (suc fuel) current name83 attributes first_cluster file_size =
      if ltb current last_cluster
      then (do
        s ← get
        result ←
            add_to_cluster s.fs_info.sectors_per_cluster (cluster_to_sector current s) name83
              attributes first_cluster file_size
        elim result [
          | some written ↦ pure written
          | none ↦ do
            next ← read_fat_entry current
            add_directory_entry fuel next name83 attributes first_cluster file_size
        ])
      else do
        new_cluster ← find_free_cluster
        if new_cluster == 0 then pure false else do
          linked ← write_fat_entry current new_cluster
          if not linked then pure false else do
            marked ← write_fat_entry new_cluster last_cluster
            if not marked then pure false else do
              s ← get
              cleared ←
                  clear_cluster s.fs_info.sectors_per_cluster (cluster_to_sector new_cluster s)
              if not cleared
                  then pure false
                  else add_directory_entry fuel new_cluster name83 attributes first_cluster
                      file_size

  pub update_directory_entry : Handle → Cmd D Bool
  update_directory_entry handle = if handle.dir_sector == 0 then pure false else do
    (done, buf) ← read_sector handle.dir_sector (λ _. 0)
    if not done then pure false else do
      let sized = store32 buf (handle.dir_offset + file_size_at) handle.file_size
      let timed = store16 sized (handle.dir_offset + 22) 0
      write_sector handle.dir_sector (store16 timed (handle.dir_offset + 24) 0)

  pub remove_directory_entry : ℕ → ℕ → Cmd D Bool
  remove_directory_entry dir_sector dir_offset = do
    (done, buf) ← read_sector dir_sector (λ _. 0)
    if not done then pure false else write_sector dir_sector (store buf dir_offset 0xE5)

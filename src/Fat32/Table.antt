-- ===== src/Fat32/Table.antt =====
-- The file allocation table of kernel/drivers/fs/fat32.c: one 32-bit entry for each cluster, the
-- search for a free one, and chains of clusters.
pub mod Ends
use blue_star_os.Base.{
  ℕ, zero, suc, ◌+◌, ◌-◌, ◌*◌, ◌/◌, ◌%◌, ◌^◌, Bool, true, false, ◌&&◌, ◌||◌, not, Option, none,
  some, ltb, leb, ◌==◌, if◌then◌else◌, u32, sub32, low_bits, Bytes, load32, store32,
}
use blue_star_os.Fat32.{
  Driver, Fs, Cmd, out_of_fuel, pure, ◌>>=◌, ◌>>◌, get, fail, read_sector, write_sector,
  free_cluster, bad_cluster, last_cluster,
}

-- One more than the highest cluster that the code reads or writes.
abbrev pub cluster_limit : ℕ
cluster_limit = 127006

-- Sectors of one copy of the table.
abbrev pub fat_copy : ℕ
fat_copy = 993

module _ {D : Type 0} where
  unfoldable pub cluster_to_sector : ℕ → Fs D → ℕ
  cluster_to_sector cluster s =
      if ltb cluster 2 || ltb 200000 cluster
      then 0
      else u32 (
          s.partition_start
          + u32 (s.fs_info.data_start_sector + u32 ((cluster - 2) * s.fs_info.sectors_per_cluster)))

  -- `none`: a division by zero.
  sector_to_cluster : ℕ → Fs D → Option ℕ
  sector_to_cluster sector s =
      if ltb sector s.fs_info.data_start_sector
      then some 0
      else if s.fs_info.sectors_per_cluster == 0
      then none
      else some (u32 (2 + (sector - s.fs_info.data_start_sector) / s.fs_info.sectors_per_cluster))

  -- The sector of the table's first copy that holds an entry.
  unfoldable pub fat_sector : ℕ → Fs D → ℕ
  fat_sector cluster s = u32 (s.fs_info.fat_start_sector + u32 (cluster * 4) / 512)

module _ {D : Type 0} ⦃ide : Driver D⦄ where
  pub read_fat_entry : ℕ → Cmd D ℕ
  read_fat_entry cluster =
      if ltb cluster 2 || leb cluster_limit cluster then pure bad_cluster else do
        s ← get
        (done, f_buf) ← read_sector (fat_sector cluster s) (λ _. 0)
        if done
            then pure (low_bits (load32 f_buf (u32 (cluster * 4) % 512)) 28)
            else pure bad_cluster

  -- Writes the entry in both copies of the table.
  pub write_fat_entry : ℕ → ℕ → Cmd D Bool
  write_fat_entry cluster value =
      if ltb cluster 2 || leb cluster_limit cluster then pure false else do
        s ← get
        (done, f_buf) ← read_sector (fat_sector cluster s) (λ _. 0)
        if not done then pure false else do
          let changed = store32 f_buf (u32 (cluster * 4) % 512) (low_bits value 28)
          first ← write_sector (fat_sector cluster s) changed
          if not first
              then pure false
              else write_sector (u32 (fat_sector cluster s + fat_copy)) changed

  -- The loop of `find_free_cluster` at `c`, with `left` clusters to go.
  pub search_free : ℕ → ℕ → Cmd D ℕ
  search_free zero c = pure bad_cluster
  search_free (suc left) c = do
    entry ← read_fat_entry c
    if entry == 0 then pure c else search_free left (c + 1)

  pub find_free_cluster : Cmd D ℕ
  find_free_cluster = search_free (cluster_limit - 3) 3

  -- The loop of `free_cluster_chain`, on fuel since the links may form a cycle.
  pub free_chain : ℕ → ℕ → Cmd D Bool
  free_chain zero cluster = λ _. out_of_fuel
  free_chain (suc fuel) cluster = if not (ltb cluster last_cluster) then pure true else do
    next_cluster ← read_fat_entry cluster
    written ← write_fat_entry cluster free_cluster
    if not written
        then pure false
        else if leb last_cluster next_cluster || (next_cluster == free_cluster)
        then pure true
        else free_chain fuel next_cluster

  -- `if (first_cluster != 0) free_cluster_chain(first_cluster); return false;`.
  pub undo_chain : ℕ → ℕ → Cmd D (Bool × ℕ)
  undo_chain fuel first =
      if first == 0 then pure (false, 0) else do _ ← free_chain fuel first; pure (false, 0)

  -- The loop of `allocate_cluster_chain`: whether it succeeded, and the first cluster.
  pub extend_chain : ℕ → ℕ → Bool → ℕ → ℕ → Cmd D (Bool × ℕ)
  extend_chain fuel zero is_first first prev = pure (true, first)
  extend_chain fuel (suc left) is_first first prev = do
    new_cluster ← find_free_cluster
    if new_cluster == 0 then (do _ ← fail "Not enough free space" tt; undo_chain fuel first) else do
      marked ← write_fat_entry new_cluster last_cluster
      if not marked
          then undo_chain fuel first
          else if is_first
          then extend_chain fuel left false new_cluster new_cluster
          else do
            linked ← write_fat_entry prev new_cluster
            if not linked
                then (do _ ← free_chain fuel first; pure (false, 0))
                else extend_chain fuel left false first new_cluster

  pub allocate_cluster_chain : ℕ → ℕ → Cmd D (Bool × ℕ)
  allocate_cluster_chain fuel count = extend_chain fuel count true 0 0

  -- The loop of `get_cluster_count`.
  pub count_chain : ℕ → ℕ → ℕ → Cmd D ℕ
  count_chain zero count cluster = λ _. out_of_fuel
  count_chain (suc fuel) count cluster =
      if ltb cluster last_cluster && not (cluster == free_cluster)
      then (do next ← read_fat_entry cluster; count_chain fuel (u32 (count + 1)) next)
      else pure count

  pub get_cluster_count : ℕ → ℕ → Cmd D ℕ
  get_cluster_count fuel first_cluster = count_chain fuel 0 first_cluster

  -- Follows `left` links from a cluster; `none` at the end of the chain or a free cluster.
  pub follow : ℕ → ℕ → Cmd D (Option ℕ)
  follow zero cluster = pure (some cluster)
  follow (suc left) cluster = do
    next ← read_fat_entry cluster
    if leb last_cluster next || (next == free_cluster) then pure none else follow left next

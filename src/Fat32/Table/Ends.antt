-- ===== src/Fat32/Table/Ends.antt =====
-- Reading an entry of the table of kernel/drivers/fs/fat32.c returns on any drive.
use blue_star_os.Base.{ℕ, ◌||◌, ltb, leb}
use blue_star_os.Fat32.{Driver, Fs, bad_cluster}
use blue_star_os.Fat32.Ends.{Ends, Any, Ends-ok, Ends-and_then, Ends-if, read_sector-Ends}
use blue_star_os.Fat32.Table.{cluster_limit, fat_sector, read_fat_entry}

module _ {D : Type 0} ⦃ide : Driver D⦄ where
  pub read_fat_entry-Ends : (c : ℕ) (s : Fs D) → Ends (Any {A = ℕ}) s (read_fat_entry c s)
  unfolding read_fat_entry
  read_fat_entry-Ends c s =
      Ends-if s (ltb c 2 || leb cluster_limit c) _ _ (λ _. Ends-ok s bad_cluster tt)
        λ _.
          Ends-and_then s _ (read_sector-Ends (fat_sector c s) (λ _. 0) s) λ (done, buf) t same q.
            Ends-if t done _ _ (λ _. Ends-ok t _ tt) (λ _. Ends-ok t bad_cluster tt)

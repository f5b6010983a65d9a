-- ===== src/Fat32/Volume.antt =====
-- Mounting and the volume as a whole, of kernel/drivers/fs/fat32.c. What is printed on the serial
-- port is left out.
pub mod Mount
use Prim.Native.String.{String}
use blue_star_os.Base.{
  ℕ, zero, suc, ◌+◌, ◌-◌, ◌*◌, ◌/◌, ◌%◌, ◌^◌, Bool, true, false, ◌&&◌, ◌||◌, not, Option, none,
  some, ltb, leb, ◌==◌, if◌then◌else◌, u32, sub32, Bytes, List, [], ◌∷◌, length, get_or, store,
  load16, load32, store32,
}
use blue_star_os.Fat32.{
  Driver, Info, Bpb, Fs, Cmd, ok, fault, pure, ◌>>=◌, ◌>>◌, get, modify, clear_error, fail,
  read_sector, write_sector,
}
use blue_star_os.Fat32.Table.{read_fat_entry, find_free_cluster, follow}

-- The geometry that the boot sector states.
pub boot_info : Bytes → Info → Info
boot_info buf old =
    let res_sec = load16 buf 14 in
    let fat_sz = load32 buf 36 in
    record old {
      bytes_per_sector = load16 buf 11;
      sectors_per_cluster = buf 13;
      fat_start_sector = res_sec;
      fat_sectors = fat_sz;
      data_start_sector = u32 (res_sec + u32 (buf 16 * fat_sz));
      root_dir_cluster = load32 buf 44;
    }

-- What the end of `fat32_init` forces, whatever the boot sector says.
pub forced_info : Info → Info
forced_info info = record info {
  fat_number = 2;
  fat_sectors = 993;
  total_sectors = 129024;
  total_clusters = 127006;
}

-- The label's bytes, `fill` behind them, in the eleven places from `at` on.
pub put_label : Bytes → ℕ → ℕ → ℕ → List ℕ → Bytes
put_label buf at fill zero label = buf
put_label buf at fill (suc left) [] = put_label (store buf at fill) (at + 1) fill left []
put_label buf at fill (suc left) (c ∷ cs) = put_label (store buf at c) (at + 1) fill left cs

module _ {D : Type 0} ⦃ide : Driver D⦄ where
  -- The first read goes to the driver at `partition_start` itself. A volume with no sectors in a
  -- cluster makes the code divide by zero.
  pub fat32_init : ℕ → Cmd D Bool
  fat32_init partition_start_sector s =
      let (done, buf, drive) = ide.read_sectors partition_start_sector (λ _. 0) s.drive in
      let started : Fs D = record s { drive = drive; partition_start = partition_start_sector } in
      let info = boot_info buf s.fs_info in
      let read : Fs D = record started { fs_info = info } in
      if not done
      then pure false started
      else if not (info.bytes_per_sector == 512) || ltb info.root_dir_cluster 2
      then pure false read
      else if info.sectors_per_cluster == 0
      then fault
      else pure true (record read {
        fs_info = forced_info info;
        bpb = record s.bpb { fat_count = 2 };
        fs_mounted = true;
      })

  fat32_mount : ℕ → Cmd D Bool
  fat32_mount partition_start_sector = fat32_init partition_start_sector

  fat32_umount : Cmd D (Unit {0})
  fat32_umount = modify λ s. record s {
    fs_mounted = false;
    fs_info = record {
      sectors_per_cluster = 0;
      bytes_per_sector = 0;
      total_sectors = 0;
      fat_start_sector = 0;
      fat_sectors = 0;
      data_start_sector = 0;
      root_dir_cluster = 0;
      total_clusters = 0;
      free_clusters = 0;
      fat_number = 0;
    };
    bpb = record { reserved_sectors = 0; fat_count = 0; fs_info_sector = 0 };
    volume_label = store s.volume_label 0 0;
  }

  fat32_get_error : Cmd D String
  fat32_get_error s = ok s.error_msg s

  fat32_mounted : Cmd D Bool
  fat32_mounted s = ok s.fs_mounted s

  -- The table is read at clusters 0, 1, 2 and one above the last.
  test_clusters : List ℕ → Cmd D Bool
  test_clusters [] = pure true
  test_clusters (c ∷ cs) = do
    fat_entry ← read_fat_entry c
    if fat_entry == 0xFFFFFFFF then fail "FAT table corrupted" false else test_clusters cs

  fat32_format_check : Cmd D Bool
  fat32_format_check = do
    clear_error
    s ← get
    if not s.fs_mounted then fail "File system not mounted" false else do
      (done, boot_sector) ← read_sector 0 (λ _. 0)
      if not done then fail "Failed to read boot sector" false else do
        if not (boot_sector 510 == 0x55) || not (boot_sector 511 == 0xAA)
            then fail "Invalid boot signature" false
            else test_clusters (0 ∷ 1 ∷ 2 ∷ u32 (s.fs_info.total_clusters + 1) ∷ [])

  fat32_check : Cmd D Bool
  fat32_check = fat32_format_check

  unfoldable pub fat32_get_free_space : Cmd D ℕ
  fat32_get_free_space s =
      let i = s.fs_info in
      pure
        (if s.fs_mounted
          then u32 (u32 (i.free_clusters * i.sectors_per_cluster) * i.bytes_per_sector)
          else 0)
        s

  unfoldable pub fat32_get_total_space : Cmd D ℕ
  fat32_get_total_space s =
      pure (if s.fs_mounted then u32 (s.fs_info.total_sectors * s.fs_info.bytes_per_sector) else 0)
        s

  fat32_get_volume_label : Cmd D Bytes
  fat32_get_volume_label s = ok s.volume_label s

  -- `none` is a null pointer. A label of eleven characters has no null in reach of `strncpy`, whose
  -- padding loop then runs through all of memory: a fault.
  unfoldable pub fat32_set_volume_label : Option (List ℕ) → Cmd D Bool
  fat32_set_volume_label none = do
    clear_error
    s ← get
    if not s.fs_mounted || s.fs_readonly
        then fail "File system not mounted or read-only" false
        else fail "Invalid volume label" false
  fat32_set_volume_label (some label) = do
    clear_error
    s ← get
    if not s.fs_mounted || s.fs_readonly
        then fail "File system not mounted or read-only" false
        else if ltb 11 (length label)
        then fail "Invalid volume label" false
        else if length label == 11
        then (λ _. fault)
        else do
          modify λ t. record t { volume_label = put_label (λ _. 0) 0 0 11 label }
          (done, boot_sector) ← read_sector 0 (λ _. 0)
          if not done then pure false else write_sector 0 (put_label boot_sector 0x47 0x20 11 label)

  fat32_format : Cmd D Bool
  fat32_format = do clear_error; fail "Format not implemented in this version" false

  fat32_read_sector : ℕ → Bytes → Cmd D (Bool × Bytes)
  fat32_read_sector sector buffer = read_sector sector buffer

  fat32_write_sector : ℕ → Bytes → Cmd D Bool
  fat32_write_sector sector buffer = write_sector sector buffer

  -- The FSInfo sector is looked for where `bpb` says.
  update_fs_info_sector : Cmd D (Unit {0})
  update_fs_info_sector = do
    s ← get
    if (s.bpb.fs_info_sector == 0) || leb s.bpb.reserved_sectors s.bpb.fs_info_sector
        then pure tt
        else do
          let head = store (store (store (store (λ _. 0) 0 0x52) 1 0x52) 2 0x61) 3 0x41
          let mark = store (store (store (store head 0x1E4 0x72) 0x1E5 0x72) 0x1E6 0x41) 0x1E7 0x61
          let counted = store32 mark 0x1E8 s.fs_info.free_clusters
          next_free ← find_free_cluster
          let hinted = store32 counted 0x1EC next_free
          _ ← write_sector s.bpb.fs_info_sector (store (store hinted 0x1FC 0x55) 0x1FD 0xAA)
          pure tt

  read_fs_info_sector : Cmd D Bool
  read_fs_info_sector = do
    s ← get
    if (s.bpb.fs_info_sector == 0) || leb s.bpb.reserved_sectors s.bpb.fs_info_sector
        then pure false
        else do
          (done, buf) ← read_sector s.bpb.fs_info_sector (λ _. 0)
          if not done
              then pure false
              else if not
                  (((buf 0 == 0x52) && (buf 1 == 0x52)) && ((buf 2 == 0x61) && (buf 3 == 0x41)))
              then pure false
              else do
                modify λ t. record t {
                  fs_info = record t.fs_info { free_clusters = load32 buf 0x1E8 };
                }
                pure true

  -- 0 where the chain ends before the position.
  find_next_cluster : ℕ → ℕ → ℕ → Cmd D ℕ
  find_next_cluster current_cluster position bytes_per_cluster =
      if bytes_per_cluster == 0 then (λ _. fault) else do
        result ← follow (position / bytes_per_cluster) current_cluster
        elim result [ none ↦ pure 0 | some cluster ↦ pure cluster ]

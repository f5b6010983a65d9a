-- ===== src/Ide/Examples.antt =====
-- kernel/drivers/ide.c on a machine with two drives: the theorems on it.
use blue_star_os.Base.{
  ℕ, [], ◌∷◌, zero, suc, ◌+◌, ◌≤◌, ◌<◌, ◌≡◌, refl, some, Bool, true, false, arith, ◌==◌,
  if◌then◌else◌, Bytes, Bool-cases, inl, inr,
}
use blue_star_os.Io.{Ports}
use blue_star_os.Ide.{
  ide_sector_cnt, ide_lba_low, ide_lba_mid, ide_lba_high, ide_drive_head, ide_status, ide_command,
  cmd_read, cmd_write, has_bit, status_bsy, ide_wait_ready, ide_read_sectors, ide_write_sectors,
}
use blue_star_os.Ide.Controller.{
  Ata, Phase, idle, sending, taking, at_phase, resting, after_sent, after_taken, put_word, selected,
  lba_of, count_of, status, one_less, IsAta,
}
use blue_star_os.Ide.Waits.{ide_wait_ready-ready}
use blue_star_os.Ide.Errors.{transfers_fail}
use blue_star_os.Ide.Drive.{ide_driver, ide_driver-IsDisk}
use blue_star_os.Fat32.{Driver, Fs, ok, Handle, closed}
use blue_star_os.Fat32.Disk.{IsDisk, byte_of}
use blue_star_os.Fat32.Transfer.{fat32_read}
use blue_star_os.Fat32.Transfer.Places.{file_byte, fat32_read-file_byte}
use blue_star_os.Fat32.Transfer.Sector.{InSector, fat32_read-bytes}

-- The writes to the registers and the commands of a controller that is busy for three readings.
abbrev register_write : ℕ → ℕ → Ata → Ata
register_write port v a =
    if port == ide_drive_head
    then resting (record a { head = v })
    else if port == ide_sector_cnt
    then resting (record a { count = v })
    else if port == ide_lba_low
    then resting (record a { low = v })
    else if port == ide_lba_mid
    then resting (record a { mid = v })
    else if port == ide_lba_high
    then resting (record a { high = v })
    else if port == ide_command
    then if v == cmd_read
      then at_phase 3 (sending (selected a) (lba_of a) (count_of a) 0) a
      else if v == cmd_write
      then at_phase 3 (taking (selected a) (lba_of a) (count_of a) 0) a
      else at_phase 3 idle a
    else a

abbrev give_word : Phase → Ata → ℕ × Ata
give_word (sending u l (suc n) i) a = (a.sectors u l i, after_sent 3 u l n i a)
give_word p a = (0, a)

abbrev take_word : ℕ → Phase → Ata → Ata
take_word v (taking u l (suc n) i) a =
    after_taken 3 u l n i (record a { sectors = put_word u l i v a.sectors })
take_word v p a = a

instance two_drives : Ports Ata
two_drives = record {
  inb = λ port a.
      if port == ide_status then (status a, record a { busy = one_less a.busy }) else (0, a);
  outb = register_write;
  inw = λ port a. give_word a.phase a;
  outw = λ port v a. take_word v a.phase a;
}

after_sent_same :
    (u : Bool) (l n i : ℕ) (p : Phase) (a : Ata)
    → after_sent 3 u l n i (at_phase 0 p a) ≡ after_sent 3 u l n i a
after_sent_same u l zero i p a = elim (Bool-cases (i == 255)) [
  | inl e ↦ rw e refl
  | inr e ↦ rw e refl
]
after_sent_same u l (suc n) i p a = elim (Bool-cases (i == 255)) [
  | inl e ↦ rw e refl
  | inr e ↦ rw e refl
]

after_taken_same :
    (u : Bool) (l n i v : ℕ) (p : Phase) (a : Ata)
    → after_taken 3 u l n i (record (at_phase 0 p a) { sectors = put_word u l i v a.sectors })
      ≡ after_taken 3 u l n i (record a { sectors = put_word u l i v a.sectors })
after_taken_same u l zero i v p a = elim (Bool-cases (i == 255)) [
  | inl e ↦ rw e refl
  | inr e ↦ rw e refl
]
after_taken_same u l (suc n) i v p a = elim (Bool-cases (i == 255)) [
  | inl e ↦ rw e refl
  | inr e ↦ rw e refl
]

two_drives-IsAta : IsAta two_drives 3
unfolding two_drives
two_drives-IsAta = record {
  view = λ a. a;
  status_value = λ m. refl;
  status_view = λ m. refl;
  pause = λ m. refl;
  set_head = λ v m a h. rw h refl;
  set_count = λ v m a h. rw h refl;
  set_low = λ v m a h. rw h refl;
  set_mid = λ v m a h. rw h refl;
  set_high = λ v m a h. rw h refl;
  read_command = λ m a h. rw h refl;
  write_command = λ m a h. rw h refl;
  flush_command = λ m a h. rw h refl;
  word_sent = λ m a u l n i h. rw h refl;
  after_word_sent = λ m a u l n i h. rw h (after_sent_same u l n i (sending u l (suc n) i) a);
  after_word_taken = λ v m a u l n i h. rw h (after_taken_same u l n i v (taking u l (suc n) i) a);
}

abbrev words : Bool → ℕ → ℕ → ℕ
words true l i = l + i
words false l i = 0

abbrev start : Ata
start = record {
  head = 0;
  count = 0;
  low = 0;
  mid = 0;
  high = 0;
  busy = 2;
  phase = idle;
  sectors = words;
}

abbrev zeros : Bytes
zeros x = 0

ide_wait_ready-ready_example :
    ((ide_wait_ready start).0 ≡ true) × ((ide_wait_ready start).1 ≡ at_phase 0 idle start)
unfolding two_drives-IsAta
ide_wait_ready-ready_example =
    ide_wait_ready-ready two_drives-IsAta 2 idle start start refl (omega arith)

-- A volume on the slave drive of that machine, and a file on it that is open at its start.
abbrev volume : Fs Ata
volume = record {
  drive = start;
  fs_info = record {
    sectors_per_cluster = 1;
    bytes_per_sector = 512;
    total_sectors = 129024;
    fat_start_sector = 32;
    fat_sectors = 993;
    data_start_sector = 2018;
    root_dir_cluster = 2;
    total_clusters = 127006;
    free_clusters = 100;
    fat_number = 2;
  };
  bpb = record { reserved_sectors = 0; fat_count = 2; fs_info_sector = 0 };
  fs_mounted = true;
  fs_readonly = false;
  partition_start = 2048;
  error_msg = "";
  volume_label = λ _. 0;
}

abbrev handle : Handle
handle = record closed { first_cluster = 3; current_cluster = 3; file_size = 600; is_open = true }

instance disk_driver : Driver Ata
disk_driver = ide_driver

disk : IsDisk disk_driver
unfolding disk_driver
disk = ide_driver-IsDisk two_drives-IsAta (omega arith)

first_bytes-InSector : InSector disk volume handle 9
unfolding disk disk_driver two_drives-IsAta ide_driver-IsDisk
first_bytes-InSector = record {
  ready = record { ata_state = start; busy_for = 2; is_idle = refl; soon = omega arith };
  cluster_low = omega arith;
  cluster_high = omega arith;
  mounted = refl;
  opened = refl;
  is_file = refl;
  holds = (omega arith, omega arith);
  sector_size = omega arith;
  some_bytes = omega arith;
  in_file = omega arith;
  word = omega arith;
  in_sector = omega arith;
  in_cluster = inr refl;
  buffered = inl (omega arith);
}

fat32_read-bytes_example :
    (out : Bytes) × (g : Handle) × (d : Ata) × (fat32_read (some handle) (some zeros) 9 volume
      ≡ ok (true, some out, some g) (record volume { drive = d }))
    × ((i : ℕ) → i < 9 → out i ≡ byte_of disk volume 4067 (0 + i))
    × ((x : ℕ) → 9 ≤ x → out x ≡ 0)
    × (g.position ≡ 0 + 9)
    × disk.IsReady d
    × ((l x : ℕ) → disk.sector d l x ≡ disk.sector start l x)
fat32_read-bytes_example = fat32_read-bytes disk 9 zeros handle volume first_bytes-InSector

fat32_read-file_byte_example :
    (out : Bytes) × (g : Handle) × (d : Ata) × (fat32_read (some handle) (some zeros) 9 volume
      ≡ ok (true, some out, some g) (record volume { drive = d }))
    × ((i : ℕ) → i < 9 → out i ≡ file_byte disk volume (3 ∷ 4 ∷ []) (0 + i))
    × ((x : ℕ) → 9 ≤ x → out x ≡ 0)
    × (g.position ≡ 0 + 9)
fat32_read-file_byte_example =
    fat32_read-file_byte disk 9 zeros handle volume (3 ∷ 4 ∷ []) first_bytes-InSector (omega arith)
      refl

-- No controller: the ports float high.
instance nothing : Ports (Unit {0})
nothing = record {
  inb = λ port m. (0xFF, m);
  outb = λ port v m. m;
  inw = λ port m. (0xFFFF, m);
  outw = λ port v m. m;
}

nothing_stuck : (m : Unit {0}) → has_bit (nothing.inb ide_status m).0 status_bsy ≡ true
unfolding nothing
nothing_stuck m = refl

transfers_fail_example :
    ((ide_read_sectors 300 1 zeros tt).0 ≡ false)
    × ((ide_read_sectors 300 1 zeros tt).1 ≡ zeros)
    × ((ide_write_sectors 300 1 zeros tt).0 ≡ false)
transfers_fail_example = transfers_fail nothing_stuck 300 0 zeros tt

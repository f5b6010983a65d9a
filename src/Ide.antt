-- ===== src/Ide.antt =====
-- kernel/drivers/ide.c: the disk driver, which moves words through the ports of the controller.
--
-- The machine behind the ports is a parameter `M`. A result that the source gives as 0 or -1 is true
-- or false here. The messages on the serial port are left out.
pub mod Controller
pub mod Waits
pub mod Sectors
pub mod Stores
pub mod Disk
pub mod Drive
pub mod Errors
mod Examples
use blue_star_os.Base.{
  ℕ, zero, suc, ◌+◌, ◌*◌, ◌/◌, ◌%◌, Bool, true, false, List, [], ◌∷◌, ◌==◌, ◌&&◌, not, bit_and,
  bit_or, if◌then◌else◌, u8, ◌>>>◌, low_bits, Bytes, store, load16, load32, store16, Option, none,
  some,
}
use blue_star_os.Io.{Ports, io_wait}

abbrev pub ide_data : ℕ
ide_data = 0x1F0

abbrev ide_error : ℕ
ide_error = 0x1F1

abbrev pub ide_sector_cnt : ℕ
ide_sector_cnt = 0x1F2

abbrev pub ide_lba_low : ℕ
ide_lba_low = 0x1F3

abbrev pub ide_lba_mid : ℕ
ide_lba_mid = 0x1F4

abbrev pub ide_lba_high : ℕ
ide_lba_high = 0x1F5

abbrev pub ide_drive_head : ℕ
ide_drive_head = 0x1F6

abbrev pub ide_status : ℕ
ide_status = 0x1F7

abbrev pub ide_command : ℕ
ide_command = 0x1F7

abbrev ide_dev_ctrl : ℕ
ide_dev_ctrl = 0x3F6

abbrev pub status_err : ℕ
status_err = 0x01

abbrev pub status_drq : ℕ
status_drq = 0x08

abbrev pub status_bsy : ℕ
status_bsy = 0x80

abbrev pub cmd_read : ℕ
cmd_read = 0x20

abbrev pub cmd_write : ℕ
cmd_write = 0x30

abbrev cmd_ident : ℕ
cmd_ident = 0xEC

abbrev lba_mode : ℕ
lba_mode = 0x40

-- `defult_device`, which is the slave.
abbrev default_device : ℕ
default_device = 0xF0

-- How often a wait reads the status.
unfoldable timeout : ℕ
timeout = 100000

abbrev pub has_bit : ℕ → ℕ → Bool
has_bit status bit = not (bit_and status bit == 0)

-- Each word from the 27th on, its high byte first.
model_bytes : ℕ → ℕ → Bytes → Bytes → Bytes
model_bytes zero i buffer model = model
model_bytes (suc n) i buffer model =
    let word = load16 buffer (2 * (27 + i)) in
    model_bytes n (suc i) buffer
      (store (store model (i * 2) (u8 (word >>> 8))) (i * 2 + 1) (low_bits word 8))

-- Blanks at the end made null, below the index.
trim : ℕ → Bytes → Bytes
trim zero model = model
trim (suc i) model = let rest = trim i (store model i 0) in if model i == b' ' then rest else model

module _ {M : Type 0} ⦃ports : Ports M⦄ where
  ready_within : ℕ → M → Bool × M
  ready_within zero m = (false, m)
  ready_within (suc n) m =
      let (status, m1) = ports.inb ide_status m in
      let later = ready_within n m1 in
      if has_bit status status_bsy
      then later
      else if has_bit status status_err
      then (false, (ports.inb ide_error m1).1)
      else (true, m1)

  pub ide_wait_ready : M → Bool × M
  ide_wait_ready m = ready_within timeout m

  drq_within : ℕ → M → Bool × M
  drq_within zero m = (false, m)
  drq_within (suc n) m =
      let (status, m1) = ports.inb ide_status m in
      let later = drq_within n m1 in
      if has_bit status status_err
      then (false, m1)
      else if not (has_bit status status_bsy) && has_bit status status_drq
      then (true, m1)
      else later

  pub ide_wait_drq : M → Bool × M
  ide_wait_drq m = drq_within timeout m

  -- The four registers read back in order, up to the first that differs.
  check_registers : List (ℕ × ℕ) → M → Bool × M
  check_registers [] m = (true, m)
  check_registers ((port, value) ∷ rest) m =
      let (got, m1) = ports.inb port m in
      let later = check_registers rest m1 in if got == value then later else (false, m1)

  ide_check_drive : M → Bool × M
  ide_check_drive m =
      let m = io_wait (ports.outb ide_drive_head default_device m) in
      let m = ports.outb ide_sector_cnt 0xAA m in
      let m = ports.outb ide_lba_low 0x55 m in
      let m = ports.outb ide_lba_mid 0xAA m in
      let m = ports.outb ide_lba_high 0x55 m in
      check_registers
        ((ide_sector_cnt, 0xAA)
          ∷ (ide_lba_low, 0x55)
          ∷ (ide_lba_mid, 0xAA)
          ∷ (ide_lba_high, 0x55)
          ∷ [])
        m

  ide_init : M → M
  ide_init m =
      let (found, m) = ide_check_drive (io_wait (ports.outb ide_dev_ctrl 0x02 m)) in
      let selected = io_wait (ports.outb ide_drive_head (bit_or default_device lba_mode) m) in
      if found then (ide_wait_ready selected).1 else m

  -- The registers of a transfer: the drive with the high bits of the address, the count, the address.
  unfoldable address : ℕ → ℕ → ℕ → M → M
  address device lba num_sectors m =
      let m = ports.outb ide_drive_head (bit_or device (low_bits (lba >>> 24) 4)) m in
      let m = ports.outb ide_sector_cnt num_sectors m in
      let m = ports.outb ide_lba_low (low_bits lba 8) m in
      let m = ports.outb ide_lba_mid (low_bits (lba >>> 8) 8) m in
      ports.outb ide_lba_high (low_bits (lba >>> 16) 8) m

  -- Words from the data port, stored from offset `at` on.
  read_words : ℕ → ℕ → Bytes → M → Bytes × M
  read_words zero at buffer m = (buffer, m)
  read_words (suc n) at buffer m =
      let (word, m) = ports.inw ide_data m in read_words n (at + 2) (store16 buffer at word) m

  -- The sectors that are left, the next of them stored at `at`.
  pub read_sectors_from : ℕ → ℕ → Bytes → M → Bool × Bytes × M
  read_sectors_from zero at buffer m = (true, buffer, m)
  read_sectors_from (suc left) at buffer m =
      let (data_ready, m) = ide_wait_drq m in
      let (filled, after) = read_words 256 at buffer m in
      let rest = read_sectors_from left (at + 512) filled (io_wait after) in
      if data_ready then rest else (false, buffer, m)

  pub ide_read_sectors : ℕ → ℕ → Bytes → M → Bool × Bytes × M
  ide_read_sectors lba num_sectors buffer m =
      let m = (ide_wait_ready m).1 in
      let m = address (bit_or default_device lba_mode) lba num_sectors m in
      read_sectors_from num_sectors 0 buffer (ports.outb ide_command cmd_read m)

  -- Words of the buffer from offset `at` on, to the data port.
  write_words : ℕ → ℕ → Bytes → M → M
  write_words zero at buffer m = m
  write_words (suc n) at buffer m =
      write_words n (at + 2) buffer (ports.outw ide_data (load16 buffer at) m)

  pub write_sectors_from : ℕ → ℕ → Bytes → M → Bool × M
  write_sectors_from zero at buffer m = (true, m)
  write_sectors_from (suc left) at buffer m =
      let (data_ready, m) = ide_wait_drq m in
      let rest =
        write_sectors_from left (at + 512) buffer (io_wait (write_words 256 at buffer m)) in
      if data_ready then rest else (false, m)

  pub ide_write_sectors : ℕ → ℕ → Bytes → M → Bool × M
  ide_write_sectors lba num_sectors buffer m =
      let (ready, m1) = ide_wait_ready m in
      let m2 = ports.outb ide_command cmd_write (address 0xE0 lba num_sectors m1) in
      let (written, m3) = write_sectors_from num_sectors 0 buffer m2 in
      let flushed = (ide_wait_ready (ports.outb ide_command 0xE7 m3)).1 in
      if num_sectors == 0
      then (false, m)
      else if not ready
      then (false, m1)
      else if written
      then (true, flushed)
      else (false, m3)

  -- The model's text and the number of sectors that are printed; none where no drive answers.
  pub ide_identify : M → Option (Bytes × ℕ) × M
  ide_identify m =
      let m = (ide_wait_ready m).1 in
      let m = ports.outb ide_drive_head default_device m in
      let m = ports.outb ide_sector_cnt 0 m in
      let m = ports.outb ide_lba_low 0 m in
      let m = ports.outb ide_lba_mid 0 m in
      let m = ports.outb ide_lba_high 0 m in
      let m = ports.outb ide_command cmd_ident m in
      let (status, m1) = ports.inb ide_status m in
      let m2 = (ide_wait_drq m1).1 in
      let (buffer, m3) = read_words 256 0 (λ _. 0) m2 in
      let model = trim 40 (store (model_bytes 20 0 buffer (λ _. 0)) 40 0) in
      if status == 0 then (none, m1) else (some (model, load32 buffer (2 * 60)), m3)

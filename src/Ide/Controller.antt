-- ===== src/Ide/Controller.antt =====
-- What the driver of kernel/drivers/ide.c relies on: a controller with two drives that keeps to the
-- ATA standard's protocol for sectors moved by the processor.
use blue_star_os.Base.{
  ℕ, zero, suc, ◌+◌, ◌*◌, ◌^◌, ◌≡◌, Bool, true, false, ◌==◌, ◌&&◌, if◌then◌else◌, ◌>>>◌, low_bits,
}
use blue_star_os.Io.{Ports}
use blue_star_os.Ide.{
  ide_data, ide_sector_cnt, ide_lba_low, ide_lba_mid, ide_lba_high, ide_drive_head, ide_status,
  ide_command, cmd_read, cmd_write,
}

-- A drive rests, gives the words of sectors, or takes them: the drive, the sector, how many sectors
-- are left with it, and the index of the next word.
pub data Phase : Type 0 where
  idle : Phase
  sending taking : Bool → ℕ → ℕ → ℕ → Phase

-- The registers, how many more readings of the status find the controller busy, the words of the
-- sectors of either drive (the slave is true), and what goes on.
pub record Ata : Type 0 where
  pub head : ℕ
  pub count : ℕ
  pub low : ℕ
  pub mid : ℕ
  pub high : ℕ
  pub busy : ℕ
  pub phase : Phase
  pub sectors : Bool → ℕ → ℕ → ℕ

-- The drive that the head register selects, and the address in the registers.
abbrev pub selected : Ata → Bool
selected a = low_bits (a.head >>> 4) 1 == 1

abbrev pub lba_of : Ata → ℕ
lba_of a = a.low + a.mid * 2 ^ 8 + a.high * 2 ^ 16 + low_bits a.head 4 * 2 ^ 24

-- A count of 0 stands for 256 sectors.
abbrev pub count_of : Ata → ℕ
count_of a = if a.count == 0 then 256 else a.count

-- The status register: busy, or ready with data or without.
abbrev pub one_less : ℕ → ℕ
one_less zero = zero
one_less (suc k) = k

abbrev status_of : ℕ → Phase → ℕ
status_of (suc k) p = 0x80
status_of zero idle = 0x40
status_of zero (sending u l n i) = 0x48
status_of zero (taking u l n i) = 0x48

abbrev pub status : Ata → ℕ
status a = status_of a.busy a.phase

abbrev pub same_drive : Bool → Bool → Bool
same_drive true b = b
same_drive false true = false
same_drive false false = true

-- The sectors with one word replaced.
abbrev pub put_word : Bool → ℕ → ℕ → ℕ → (Bool → ℕ → ℕ → ℕ) → Bool → ℕ → ℕ → ℕ
put_word u lba i v sectors u' l j =
    if same_drive u u' && (l == lba) && (j == i) then v else sectors u' l j

-- The state with another number of busy readings and another phase.
abbrev pub at_phase : ℕ → Phase → Ata → Ata
at_phase k p a = record a { busy = k; phase = p }

abbrev pub resting : Ata → Ata
resting a = at_phase 0 idle a

-- After the word `i` of a sector with `n` more sectors to come.
abbrev pub after_sent : ℕ → Bool → ℕ → ℕ → ℕ → Ata → Ata
after_sent delay u l zero i a = if i == 255 then resting a else at_phase 0 (sending u l 1 (i + 1)) a
after_sent delay u l (suc n) i a =
    if i == 255
    then at_phase delay (sending u (l + 1) (suc n) 0) a
    else at_phase 0 (sending u l (suc (suc n)) (i + 1)) a

abbrev pub after_taken : ℕ → Bool → ℕ → ℕ → ℕ → Ata → Ata
after_taken delay u l zero i a =
    if i == 255 then at_phase delay idle a else at_phase 0 (taking u l 1 (i + 1)) a
after_taken delay u l (suc n) i a =
    if i == 255
    then at_phase delay (taking u (l + 1) (suc n) 0) a
    else at_phase 0 (taking u l (suc (suc n)) (i + 1)) a

-- A controller behind the ports that is busy for `delay` readings of the status after a command and
-- between the sectors of one, as the state `view` shows it. Registers are written, and a command
-- given, only where it rests; a word is moved only where it is not busy. After the last word of a
-- write the controller is busy too.
pub record IsAta {M : Type 0} (ports : Ports M) (delay : ℕ) : Type 0 where
  pub view : M → Ata
  pub status_value : (m : M) → (ports.inb ide_status m).0 ≡ status (view m)
  pub status_view :
      (m : M) → view (ports.inb ide_status m).1 ≡ record (view m) { busy = one_less (view m).busy }
  pub pause : (m : M) → view (ports.outb 0x80 0 m) ≡ view m
  pub set_head :
      (v : ℕ) (m : M) (a : Ata)
      → view m ≡ resting a
      → view (ports.outb ide_drive_head v m) ≡ resting (record a { head = v })
  pub set_count :
      (v : ℕ) (m : M) (a : Ata)
      → view m ≡ resting a
      → view (ports.outb ide_sector_cnt v m) ≡ resting (record a { count = v })
  pub set_low :
      (v : ℕ) (m : M) (a : Ata)
      → view m ≡ resting a
      → view (ports.outb ide_lba_low v m) ≡ resting (record a { low = v })
  pub set_mid :
      (v : ℕ) (m : M) (a : Ata)
      → view m ≡ resting a
      → view (ports.outb ide_lba_mid v m) ≡ resting (record a { mid = v })
  pub set_high :
      (v : ℕ) (m : M) (a : Ata)
      → view m ≡ resting a
      → view (ports.outb ide_lba_high v m) ≡ resting (record a { high = v })
  pub read_command :
      (m : M) (a : Ata)
      → view m ≡ resting a
      → view (ports.outb ide_command cmd_read m)
        ≡ at_phase delay (sending (selected a) (lba_of a) (count_of a) 0) a
  pub write_command :
      (m : M) (a : Ata)
      → view m ≡ resting a
      → view (ports.outb ide_command cmd_write m)
        ≡ at_phase delay (taking (selected a) (lba_of a) (count_of a) 0) a
  pub flush_command :
      (m : M) (a : Ata)
      → view m ≡ resting a
      → view (ports.outb ide_command 0xE7 m) ≡ at_phase delay idle a
  pub word_sent :
      (m : M) (a : Ata) (u : Bool) (l n i : ℕ)
      → view m ≡ at_phase 0 (sending u l (suc n) i) a
      → (ports.inw ide_data m).0 ≡ a.sectors u l i
  pub after_word_sent :
      (m : M) (a : Ata) (u : Bool) (l n i : ℕ)
      → view m ≡ at_phase 0 (sending u l (suc n) i) a
      → view (ports.inw ide_data m).1 ≡ after_sent delay u l n i a
  pub after_word_taken :
      (v : ℕ) (m : M) (a : Ata) (u : Bool) (l n i : ℕ)
      → view m ≡ at_phase 0 (taking u l (suc n) i) a
      → view (ports.outw ide_data v m)
        ≡ after_taken delay u l n i (record a { sectors = put_word u l i v a.sectors })

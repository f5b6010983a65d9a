-- ===== src/Ide/Drive.antt =====
-- The driver of kernel/drivers/ide.c as the file system of kernel/drivers/fs/fat32.c and the search
-- for a partition of kernel/kmain.c use it: one sector at a time, over a controller that works.
use blue_star_os.Base.{
  ℕ, ◌+◌, ◌-◌, ◌*◌, ◌/◌, ◌%◌, ◌^◌, ◌<◌, ◌≡◌, refl, ap, sym, ◌∙◌, true, arith, ltb, leb, ◌&&◌, Bytes,
  low_bits, ◌>>>◌,
}
use blue_star_os.Io.{Ports}
use blue_star_os.Ide.{address, ide_read_sectors, ide_write_sectors}
use blue_star_os.Ide.Controller.{Ata, idle, at_phase, resting, IsAta}
use blue_star_os.Ide.Sectors.{byte_of_word, with_sectors}
use blue_star_os.Ide.Disk.{addressed, ide_read_sectors-slave}
use blue_star_os.Fat32.{Driver}
use blue_star_os.Fat32.Disk.{IsDisk}

-- The two calls at one sector.
abbrev pub ide_driver : {M : Type 0} ⦃ports : Ports M⦄ → Driver M
ide_driver = record {
  read_sectors = λ lba buf m. ide_read_sectors lba 1 buf m;
  write_sectors = λ lba buf m. ide_write_sectors lba 1 buf m;
}

address_low :
    {M : Type 0} ⦃ports : Ports M⦄ (device lba n : ℕ) (m : M)
    → address device lba n m ≡ address device (lba % 2 ^ 28) n m
unfolding address
address_low device lba n m =
    let e0 : low_bits lba 8 ≡ low_bits (lba % 2 ^ 28) 8 = omega arith in
    let e1 : low_bits (lba >>> 8) 8 ≡ low_bits ((lba % 2 ^ 28) >>> 8) 8 = omega arith in
    let e2 : low_bits (lba >>> 16) 8 ≡ low_bits ((lba % 2 ^ 28) >>> 16) 8 = omega arith in
    let e3 : low_bits (lba >>> 24) 4 ≡ low_bits ((lba % 2 ^ 28) >>> 24) 4 = omega arith in
    rw (address, e0, e1, e2, e3) refl

-- The code passes on the low 28 bits of an address only.
ide_read_sectors_low :
    {M : Type 0} ⦃ports : Ports M⦄ (lba n : ℕ) (buf : Bytes) (m : M)
    → ide_read_sectors lba n buf m ≡ ide_read_sectors (lba % 2 ^ 28) n buf m
unfolding ide_read_sectors
ide_read_sectors_low lba n buf m = rw (address_low 0xF0 lba n) refl

module _ {M : Type 0} ⦃ports : Ports M⦄ {delay : ℕ} (ata : IsAta ports delay)
    (short : delay < 100000) where
  -- The controller has no command to do, and is busy for a short time at most.
  pub record IsIdle (m : M) : Type 0 where
    pub ata_state : Ata
    pub busy_for : ℕ
    pub is_idle : ata.view m ≡ at_phase busy_for idle ata_state
    pub soon : busy_for < 100000

  -- A byte of a sector of the slave.
  abbrev pub slave_byte : M → ℕ → ℕ → ℕ
  slave_byte m lba x = byte_of_word ((ata.view m).sectors true (lba % 2 ^ 28)) x

  pub read_one :
      (lba : ℕ) (buf : Bytes) (m : M) (r : IsIdle m)
      → ((ide_read_sectors lba 1 buf m).0 ≡ true)
        × ((x : ℕ)
            → (ide_read_sectors lba 1 buf m).1 x
              ≡ with_sectors 1 (lba % 2 ^ 28) 0 (r.ata_state.sectors true) buf x)
        × (ata.view (ide_read_sectors lba 1 buf m).2
            ≡ resting (addressed 0xF0 (lba % 2 ^ 28) 1 r.ata_state))
  read_one lba buf m r = rw (ide_read_sectors_low lba 1 buf m) (
      ide_read_sectors-slave ata (lba % 2 ^ 28) 0 buf m r.ata_state r.busy_for r.is_idle r.soon
        short (omega arith) (omega arith))

  pub same_sectors : (m : M) (r : IsIdle m) → r.ata_state.sectors ≡ (ata.view m).sectors
  same_sectors m r = sym (ap (λ (a : Ata). a.sectors) r.is_idle)

  pub one_sector :
      (lba x : ℕ) (sectors : ℕ → ℕ → ℕ) (buf : Bytes)
      → x < 512
      → with_sectors 1 lba 0 sectors buf x ≡ byte_of_word (sectors lba) x
  one_sector lba x sectors buf h =
      let inside : (leb 0 x && ltb x (0 + 512 * 1)) ≡ true = ground arith in
      let first : lba + (x - 0) / 512 ≡ lba = omega arith in
      let at : (x - 0) % 512 ≡ x = omega arith in rw (inside, first, at) refl

  unfoldable pub ide_driver-IsDisk : IsDisk (ide_driver {M = M})
  ide_driver-IsDisk = record {
    IsReady = IsIdle;
    sector = slave_byte;
    read_done = λ lba buf m r. (read_one lba buf m r).0;
    read_bytes = λ lba buf m x r h.
        (read_one lba buf m r).1 x
        ∙ one_sector (lba % 2 ^ 28) x (r.ata_state.sectors true) buf h
        ∙ ap (λ (f : _). byte_of_word (f true (lba % 2 ^ 28)) x) (same_sectors m r);
    read_ready = λ lba buf m r. record {
      ata_state = addressed 0xF0 (lba % 2 ^ 28) 1 r.ata_state;
      busy_for = 0;
      is_idle = (read_one lba buf m r).2;
      soon = omega arith;
    };
    read_same = λ lba buf m l x r.
        ap (λ (a : Ata). byte_of_word (a.sectors true (l % 2 ^ 28)) x) (read_one lba buf m r).2
        ∙ ap (λ (f : _). byte_of_word (f true (l % 2 ^ 28)) x) (same_sectors m r);
  }

-- ===== src/Ide/Disk.antt =====
-- What `ide_read_sectors` and `ide_write_sectors` of kernel/drivers/ide.c do to the two drives of a
-- controller that works.
use blue_star_os.Base.{
  ℕ, suc, ◌/◌, ◌%◌, ◌^◌, ◌<◌, ◌≡◌, refl, ◌∙◌, Bool, true, arith, ◌==◌, ◌&&◌, Bytes, bit_or, ◌>>>◌,
  low_bits, all_below, all_below_at,
}
use blue_star_os.Io.{Ports}
use blue_star_os.Ide.{address, ide_read_sectors, ide_wait_ready}
use blue_star_os.Ide.Controller.{Ata, idle, at_phase, resting, selected, lba_of, count_of, IsAta}
use blue_star_os.Ide.Waits.{ide_wait_ready-ready}
use blue_star_os.Ide.Sectors.{with_sectors, read_sectors_from-sent}

-- The registers of a transfer.
abbrev pub addressed : ℕ → ℕ → ℕ → Ata → Ata
addressed device lba n a = record a {
  head = bit_or device (low_bits (lba >>> 24) 4);
  count = n;
  low = low_bits lba 8;
  mid = low_bits (lba >>> 8) 8;
  high = low_bits (lba >>> 16) 8;
}

-- A device byte whose low half is free for the address.
abbrev takes_address : ℕ → ℕ → Bool
takes_address device y =
    (bit_or device y / 16 % 2 == device / 16 % 2) && (bit_or device y % 16 == y)

slave_takes : (y : ℕ) → y < 16 → takes_address 0xF0 y ≡ true
unfolding all_below
slave_takes y h = all_below_at 16 (takes_address 0xF0) y refl h

addressed_lem :
    (device lba n : ℕ) (a : Ata)
    → ((y : ℕ) → y < 16 → takes_address device y ≡ true)
    → lba < 2 ^ 28
    → (selected (addressed device lba n a) ≡ (device / 16 % 2 == 1))
      × (lba_of (addressed device lba n a) ≡ lba)
addressed_lem device lba n a takes h =
    let t = takes (lba / 2 ^ 24 % 2 ^ 4) (omega arith) in (ground arith, ground arith)

module _ {M : Type 0} ⦃ports : Ports M⦄ {delay : ℕ} (ata : IsAta ports delay) where
  address-addressed :
      (device lba n : ℕ) (m : M) (a : Ata)
      → ata.view m ≡ resting a
      → ata.view (address device lba n m) ≡ resting (addressed device lba n a)
  unfolding address
  address-addressed device lba n m a v =
      let a1 = record a { head = bit_or device (low_bits (lba >>> 24) 4) } in
      let a2 = record a1 { count = n } in
      let a3 = record a2 { low = low_bits lba 8 } in
      let a4 = record a3 { mid = low_bits (lba >>> 8) 8 } in
      ata.set_high _ _ a4
        (ata.set_mid _ _ a3 (ata.set_low _ _ a2 (ata.set_count _ _ a1 (ata.set_head _ _ a v))))

  -- The state after a command, in terms of the address that was asked for.
  count_of_small : (n : ℕ) (a : Ata) → suc n < 256 → count_of (record a { count = suc n }) ≡ suc n
  count_of_small n a h = ground arith

  pub ide_read_sectors-slave :
      (lba n : ℕ) (buffer : Bytes) (m : M) (a : Ata) (k : ℕ)
      → ata.view m ≡ at_phase k idle a
      → k < 100000
      → delay < 100000
      → lba < 2 ^ 28
      → suc n < 256
      → ((ide_read_sectors lba (suc n) buffer m).0 ≡ true)
        × ((x : ℕ)
            → (ide_read_sectors lba (suc n) buffer m).1 x
              ≡ with_sectors (suc n) lba 0 (a.sectors true) buffer x)
        × (ata.view (ide_read_sectors lba (suc n) buffer m).2
            ≡ resting (addressed 0xF0 lba (suc n) a))
  unfolding ide_read_sectors
  ide_read_sectors-slave lba n buffer m a k v hk hd hl hn =
      let (ready, there) = ide_wait_ready-ready ata k idle a m v hk in
      let b = addressed 0xF0 lba (suc n) a in
      let (drive, from) = addressed_lem 0xF0 lba (suc n) a slave_takes hl in
      let sent =
        ata.read_command (address 0xF0 lba (suc n) (ide_wait_ready m).1) b
          (address-addressed 0xF0 lba (suc n) (ide_wait_ready m).1 a there) in
      let started = sent ∙ rw (drive, from, count_of_small n b hn) refl in
      read_sectors_from-sent ata (suc n) lba 0 buffer _ b true hd started

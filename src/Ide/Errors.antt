-- ===== src/Ide/Errors.antt =====
-- The calls of kernel/drivers/ide.c on a controller that never becomes ready.
use blue_star_os.Base.{ℕ, zero, suc, ◌≡◌, refl, Bool, true, false, arith, if◌then◌else◌, Bytes}
use blue_star_os.Io.{Ports}
use blue_star_os.Ide.{
  ide_status, status_bsy, status_err, has_bit, timeout, ready_within, drq_within, ide_wait_ready,
  ide_wait_drq, read_sectors_from, ide_read_sectors, ide_write_sectors,
}

module _ {M : Type 0} ⦃ports : Ports M⦄
    (stuck : (m : M) → has_bit (ports.inb ide_status m).0 status_bsy ≡ true) where
  ready_within-stuck : (n : ℕ) (m : M) → (ready_within n m).0 ≡ false
  unfolding ready_within
  ready_within-stuck zero m = refl
  ready_within-stuck (suc n) m = rw (stuck m) (ready_within-stuck n (ports.inb ide_status m).1)

  neither :
      (bad : Bool) (x y : Bool × M) → x.0 ≡ false → y.0 ≡ false → (if bad then x else y).0 ≡ false
  neither true x y h k = h
  neither false x y h k = k

  drq_within-stuck : (n : ℕ) (m : M) → (drq_within n m).0 ≡ false
  unfolding drq_within
  drq_within-stuck zero m = refl
  drq_within-stuck (suc n) m = rw (stuck m) (
      neither (has_bit (ports.inb ide_status m).0 status_err) (false, (ports.inb ide_status m).1)
        (drq_within n (ports.inb ide_status m).1) refl
        (drq_within-stuck n (ports.inb ide_status m).1))

  -- On a machine whose status register always shows a busy controller, reading and writing one
  -- sector or more both return with failure, and the buffer of the read keeps its bytes.
  pub transfers_fail :
      (lba n : ℕ) (buffer : Bytes) (m : M)
      → ((ide_read_sectors lba (suc n) buffer m).0 ≡ false)
        × ((ide_read_sectors lba (suc n) buffer m).1 ≡ buffer)
        × ((ide_write_sectors lba (suc n) buffer m).0 ≡ false)
  unfolding ide_read_sectors ide_write_sectors read_sectors_from ide_wait_drq ide_wait_ready timeout
  transfers_fail lba n buffer m =
      let not_ready = ready_within-stuck timeout m in
      (
        rw (drq_within-stuck timeout _) refl,
        rw (drq_within-stuck timeout _) refl,
        rw not_ready (ground arith),
      )

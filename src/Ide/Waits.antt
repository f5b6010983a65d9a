-- ===== src/Ide/Waits.antt =====
-- The waits of kernel/drivers/ide.c on a controller that becomes ready in time.
use blue_star_os.Base.{ℕ, zero, suc, ◌<◌, ◌≡◌, refl, ap, ◌∙◌, true, arith}
use blue_star_os.Io.{Ports}
use blue_star_os.Ide.{ide_status, timeout, ide_wait_ready, ready_within, ide_wait_drq, drq_within}
use blue_star_os.Ide.Controller.{
  Ata, Phase, idle, sending, taking, at_phase, status, one_less, IsAta,
}

-- Phases in which the drive asks for data.
abbrev pub IsData : Phase → Type 0
IsData idle = ⊥
IsData (sending u l n i) = Unit
IsData (taking u l n i) = Unit

module _ {M : Type 0} ⦃ports : Ports M⦄ {delay : ℕ} (ata : IsAta ports delay) where
  status_at :
      (k : ℕ) (p : Phase) (a : Ata) (m : M)
      → ata.view m ≡ at_phase k p a
      → (ports.inb ide_status m).0 ≡ status (at_phase k p a)
  status_at k p a m v = ata.status_value m ∙ ap status v

  polled_at :
      (k : ℕ) (p : Phase) (a : Ata) (m : M)
      → ata.view m ≡ at_phase k p a
      → ata.view (ports.inb ide_status m).1 ≡ at_phase (one_less k) p a
  polled_at k p a m v = ata.status_view m ∙ ap (λ (b : Ata). record b { busy = one_less b.busy }) v

  ready_within-at_phase :
      (n k : ℕ) (p : Phase) (a : Ata) (m : M)
      → ata.view m ≡ at_phase k p a
      → k < n
      → ((ready_within n m).0 ≡ true) × (ata.view (ready_within n m).1 ≡ at_phase 0 p a)
  unfolding ready_within
  ready_within-at_phase zero k p a m v h = absurd (omega arith)
  ready_within-at_phase (suc n) zero idle a m v h =
      rw (status_at 0 _ a m v) (refl, polled_at 0 _ a m v)
  ready_within-at_phase (suc n) zero (sending u l c i) a m v h =
      rw (status_at 0 _ a m v) (refl, polled_at 0 _ a m v)
  ready_within-at_phase (suc n) zero (taking u l c i) a m v h =
      rw (status_at 0 _ a m v) (refl, polled_at 0 _ a m v)
  ready_within-at_phase (suc n) (suc k) p a m v h = rw (status_at (suc k) p a m v) (
      ready_within-at_phase n k p a (ports.inb ide_status m).1 (polled_at (suc k) p a m v)
        (omega arith))

  -- On a controller that keeps to the protocol and is busy for fewer than 100000 readings of the
  -- status, in any phase, ide_wait_ready succeeds and leaves the controller no longer busy and
  -- otherwise as it was.
  pub ide_wait_ready-ready :
      (k : ℕ) (p : Phase) (a : Ata) (m : M)
      → ata.view m ≡ at_phase k p a
      → k < 100000
      → ((ide_wait_ready m).0 ≡ true) × (ata.view (ide_wait_ready m).1 ≡ at_phase 0 p a)
  unfolding ide_wait_ready timeout
  ide_wait_ready-ready k p a m v h = ready_within-at_phase timeout k p a m v h

  drq_within-at_phase :
      (n k : ℕ) (p : Phase) (a : Ata) (m : M)
      → IsData p
      → ata.view m ≡ at_phase k p a
      → k < n
      → ((drq_within n m).0 ≡ true) × (ata.view (drq_within n m).1 ≡ at_phase 0 p a)
  unfolding drq_within
  drq_within-at_phase zero k p a m d v h = absurd (omega arith)
  drq_within-at_phase (suc n) zero idle a m d v h = absurd d
  drq_within-at_phase (suc n) zero (sending u l c i) a m d v h =
      rw (status_at 0 _ a m v) (refl, polled_at 0 _ a m v)
  drq_within-at_phase (suc n) zero (taking u l c i) a m d v h =
      rw (status_at 0 _ a m v) (refl, polled_at 0 _ a m v)
  drq_within-at_phase (suc n) (suc k) p a m d v h = rw (status_at (suc k) p a m v) (
      drq_within-at_phase n k p a (ports.inb ide_status m).1 d (polled_at (suc k) p a m v)
        (omega arith))

  -- The same for data.
  pub ide_wait_drq-ready :
      (k : ℕ) (p : Phase) (a : Ata) (m : M)
      → IsData p
      → ata.view m ≡ at_phase k p a
      → k < 100000
      → ((ide_wait_drq m).0 ≡ true) × (ata.view (ide_wait_drq m).1 ≡ at_phase 0 p a)
  unfolding ide_wait_drq timeout
  ide_wait_drq-ready k p a m d v h = drq_within-at_phase timeout k p a m d v h

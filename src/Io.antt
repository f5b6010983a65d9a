-- ===== src/Io.antt =====
-- kernel/io.c: the port instructions, which are assembly, as an interface to a machine `M`.
use blue_star_os.Base.{ℕ}

-- What a machine answers to the instructions for bytes and words.
pub record Ports (M : Type 0) : Type 0 where
  pub inb : ℕ → M → ℕ × M
  pub outb : ℕ → ℕ → M → M
  pub inw : ℕ → M → ℕ × M
  pub outw : ℕ → ℕ → M → M

unfoldable pub io_wait : {M : Type 0} ⦃ports : Ports M⦄ → M → M
io_wait ⦃ports⦄ m = ports.outb 0x80 0 m

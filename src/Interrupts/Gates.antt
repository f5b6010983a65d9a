-- ===== src/Interrupts/Gates.antt =====
-- What the entries of the tables of kernel/idt.c and kernel/gdt.c stand for.
use blue_star_os.Base.{
  ℕ, zero, suc, ◌+◌, ◌*◌, ◌/◌, ◌%◌, ◌^◌, ◌<◌, ◌≡◌, ◌≢◌, refl, false, ◌∙◌, arith, ◌==◌,
  if◌then◌else◌, low_bits, ◌>>>◌, ltb, leb, ◌&&◌, true,
}
use blue_star_os.Interrupts.{
  IdtEntry, GdtEntry, gate, idt_set_gate, set_gates, idt_init, gdt_set_gate,
}

-- The address that the processor jumps to through a gate.
abbrev pub isr_of : IdtEntry → ℕ
isr_of e = e.isr_low + e.isr_mid * 2 ^ 16 + e.isr_high * 2 ^ 32

-- The base and the limit of a segment, in the units of its granularity.
abbrev pub base_of : GdtEntry → ℕ
base_of e = e.base_low + e.base_middle * 2 ^ 16 + e.base_high * 2 ^ 24

abbrev pub limit_of : GdtEntry → ℕ
limit_of e = e.limit_low + (e.granularity % 16) * 2 ^ 16

split_isr :
    (isr : ℕ)
    → isr < 2 ^ 64
    → low_bits isr 16 + low_bits (isr >>> 16) 16 * 2 ^ 16 + low_bits (isr >>> 32) 32 * 2 ^ 32 ≡ isr
split_isr isr small = omega arith

one_more :
    {A : Type 0} (n i v : ℕ) (gates table : ℕ → A)
    → (if leb (i + 1) v && ltb v (i + 1 + n) then gates v else if v == i then gates i else table v)
      ≡ (if leb i v && ltb v (i + suc n) then gates v else table v)
one_more n i v gates table = ground arith

set_gates-gate :
    (n i : ℕ) (stubs : ℕ → ℕ) (idt : ℕ → IdtEntry) (v : ℕ)
    → set_gates n i stubs idt v ≡ (if leb i v && ltb v (i + n) then gate (stubs v) 0x8E else idt v)
unfolding set_gates idt_set_gate
set_gates-gate zero i stubs idt v = ground arith
set_gates-gate (suc n) i stubs idt v =
    set_gates-gate n (i + 1) stubs _ v ∙ one_more n i v (λ w. gate (stubs w) 0x8E) idt

-- After idt_init, the gate of each of the 256 vectors leads to the 64-bit address of its stub, in
-- the segment 0x08, with the attributes 0x8E, and its reserved field is 0.
pub idt_init-isr_of :
    (isr_stub_table : ℕ → ℕ) (idt : ℕ → IdtEntry) (vector : ℕ)
    → vector < 256
    → isr_stub_table vector < 2 ^ 64
    → (isr_of (idt_init isr_stub_table idt vector) ≡ isr_stub_table vector)
      × ((idt_init isr_stub_table idt vector).kernel_cs ≡ 0x08)
      × ((idt_init isr_stub_table idt vector).attributes ≡ 0x8E)
      × ((idt_init isr_stub_table idt vector).reserved ≡ 0)
unfolding idt_init
idt_init-isr_of isr_stub_table idt vector inside small =
    let below : (leb 0 vector && ltb vector (0 + 256)) ≡ true = ground arith in
    rw (set_gates-gate 256 0 isr_stub_table idt vector, below)
      (split_isr (isr_stub_table vector) small, refl, refl, refl)

-- A descriptor that gdt_set_gate packs gives back its 32-bit base, the low 20 bits of its limit,
-- the high four bits of its granularity and its access byte, and no other descriptor changes.
pub gdt_set_gate-base_of :
    (num base limit access gran : ℕ) (gdt : ℕ → GdtEntry)
    → base < 2 ^ 32
    → gran < 2 ^ 8
    → (base_of (gdt_set_gate num base limit access gran gdt num) ≡ base)
      × (limit_of (gdt_set_gate num base limit access gran gdt num) ≡ limit % 2 ^ 20)
      × ((gdt_set_gate num base limit access gran gdt num).granularity / 16 ≡ gran / 16)
      × ((gdt_set_gate num base limit access gran gdt num).access ≡ access)
      × ((other : ℕ) → other ≢ num → gdt_set_gate num base limit access gran gdt other ≡ gdt other)
unfolding gdt_set_gate
gdt_set_gate-base_of num base limit access gran gdt small flags =
    let here : (num == num) ≡ true = ground arith in
    (
      rw here (omega arith),
      rw here (omega arith),
      rw here (omega arith),
      rw here refl,
      λ other ne. let there : (other == num) ≡ false = ground arith in rw there refl,
    )

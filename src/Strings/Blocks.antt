-- ===== src/Strings/Blocks.antt =====
-- `memset`, `memcpy` and `memcmp` of kernel/string.c.
use blue_star_os.Base.{
  ℕ, zero, suc, ◌+◌, ◌-◌, ◌≤◌, ◌<◌, ◌≡◌, refl, ◌↔◌, ◌⊎◌, true, false, ap, ◌∙◌, not, arith, ◌==◌, u8,
  Bytes, store, blit, fill, pos, difference_zero,
}
use native.Mathlib.Decide.{ℕ_discrete}
use blue_star_os.Strings.{memset, memcpy, memcmp}

-- `memset` writes the low byte of `ch` at each of the `count` addresses, and nowhere else.
memset-fill : (count p ch x : ℕ) (m : Bytes) → memset m p ch count x ≡ fill m p (u8 ch) count x
unfolding memset fill store
memset-fill zero p ch x m = ground arith
memset-fill (suc count) p ch x m =
    ground (arith, memset-fill count (p + 1) ch x (store m p (u8 ch)))

-- `memcpy` of two blocks that do not overlap, or of which the target starts at or below the source,
-- copies the block as it was.
pub memcpy-blit :
    (count d s x : ℕ) (m : Bytes)
    → (d ≤ s) ⊎ (s + count ≤ d)
    → memcpy m d s count x ≡ blit m d m s count x
unfolding memcpy blit store
memcpy-blit zero d s x m apart = ground arith
memcpy-blit (suc count) d s x m apart =
    ground (arith, memcpy-blit count (d + 1) (s + 1) x (store m d (m s)) (ground arith))

-- `memcmp` returns 0 exactly on equal blocks.
pub memcmp_iff :
    (count p q : ℕ) (m : Bytes)
    → (memcmp m p q count ≡ pos 0) ↔ ((i : ℕ) → i < count → m (p + i) ≡ m (q + i))
unfolding memcmp
memcmp_iff zero p q m = (λ _ i h. absurd (omega arith), λ _. refl)
memcmp_iff (suc count) p q m =
    let (forward, back) = memcmp_iff count (p + 1) (q + 1) m in
    elim (ℕ_discrete (m p) (m q)) [
      | yes same ↦
          let equal : not (m p == m q) ≡ false = ground arith in
          (
            λ z i h. elim (ℕ_discrete i 0) [
              | yes start ↦ ap m {x = p + i} (omega arith) ∙ same ∙ ap m {y = q + i} (omega arith)
              | no later ↦
                  ap m (omega arith)
                  ∙ forward (rw equal at z) (i - 1) (omega arith)
                  ∙ ap m (omega arith)
            ],
            λ all.
                rw equal
                  (back λ i h. ap m (omega arith) ∙ all (i + 1) (omega arith) ∙ ap m (omega arith)),
          )
      | no differ ↦
          let unequal : not (m p == m q) ≡ true = ground arith in
          (
            λ z. absurd (differ (difference_zero (m p) (m q) (rw unequal at z))),
            λ all. absurd (differ (ap m (omega arith) ∙ all 0 (omega arith) ∙ ap m (omega arith))),
          )
    ]

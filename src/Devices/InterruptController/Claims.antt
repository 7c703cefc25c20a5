-- ===== src/Devices/InterruptController/Claims.antt =====
-- Claims: which source is handed out, and that a source is never pending and claimed at once.
use native.Mathlib.Nat.{pow-suc, pow-le-pow_right}
use rust_computer.Base.{
  ℕ, zero, suc, ◌+◌, ◌-◌, ◌%◌, ◌/◌, ◌^◌, ◌≤◌, ◌<◌, ◌≡◌, ◌≢◌, refl, arith, sym, subst, ne→==, ◌∙◌,
  bit_and, bit_or, true, false, not, ◌&&◌, ◌||◌, ◌==◌, if_elim,
}
use rust_computer.Bits.Laws.{bit_and-le, test_bit-or}
use rust_computer.Bits.Masks.{test_bit-clear, test_bit-pow}
use rust_computer.Bits.{test_bit, not32}
use rust_computer.Devices.InterruptController.{
  InterruptController, enabled_pending, source_mask, trailing_zeros,
  highest_priority_pending_source, claim_next,
}

-- The place of the lowest set bit, below `n`.
Lowest : ℕ → ℕ → ℕ → Type 0
Lowest n a k = (k < n) × (test_bit a k ≡ true) × ((i : ℕ) → i < k → test_bit a i ≡ false)

trailing_zeros-Lowest : (n a : ℕ) → a ≢ 0 → a < 2 ^ n → Lowest n a (trailing_zeros n a)
unfolding trailing_zeros Lowest
trailing_zeros-Lowest zero a h b = absurd (h (omega arith))
trailing_zeros-Lowest (suc n) a h b =
    if_elim (Lowest (suc n) a) (a % 2 == 1)
      (λ odd. (omega arith, unfold test_bit in odd, λ i g. absurd (omega arith)))
      (λ even.
        above even
          (trailing_zeros-Lowest n (a / 2) (λ z. h (zero_of even z)) (omega (arith, pow-suc 2 n))))
  where
    zero_of : (a % 2 == 1) ≡ false → a / 2 ≡ 0 → a ≡ 0
    zero_of e z = ground arith

    lower :
        (k i : ℕ)
        → (a % 2 == 1) ≡ false
        → ((j : ℕ) → j < k → test_bit (a / 2) j ≡ false)
        → i < k + 1
        → test_bit a i ≡ false
    lower k zero e f g = unfold test_bit in e
    lower k (suc i) e f g = unfold test_bit in f i (omega arith)

    above : {k : ℕ} → (a % 2 == 1) ≡ false → Lowest n (a / 2) k → Lowest (suc n) a (k + 1)
    above {k} e (l, t, f) =
        let p : Lowest (suc n) a (suc k) =
          (omega arith, unfold test_bit in t, λ i g. lower k i e f (omega arith)) in
        subst (Lowest (suc n) a) {x = suc k} {y = k + 1} (omega arith) p

-- The mask of a source that exists.
source_mask-suc : (k : ℕ) → k < 32 → source_mask (k + 1) ≡ 2 ^ k
unfolding source_mask
source_mask-suc k h = ground arith

pub pow-word : (k : ℕ) → k < 32 → 2 ^ k < 2 ^ 32
pow-word k h = omega (arith, below)
  where
    below : 2 ^ k ≤ 2 ^ 31
    below = pow-le-pow_right (omega arith) {j = 31} (omega arith)

-- What a claim does to the controller `c`, with `c'` and the answer `source_id` after it: the source is the
-- lowest one that is pending and enabled, and it moves from the pending to the claimed ones.
pub record Claims (c c' : InterruptController) (source_id : ℕ) : Type 0 where
  pub in_range : source_id ≤ 32
  pub numbered : 1 ≤ source_id
  pub waiting : test_bit (enabled_pending c) (source_id - 1) ≡ true
  pub lowest : (i : ℕ) → i < source_id - 1 → test_bit (enabled_pending c) i ≡ false
  pub taken :
      (i : ℕ) → i < 32 → test_bit c'.pending i ≡ (test_bit c.pending i && not (i == source_id - 1))
  pub held :
      (i : ℕ) → i < 32 → test_bit c'.claimed i ≡ (test_bit c.claimed i || (i == source_id - 1))

module _ (c : InterruptController) (k : ℕ) (h : k < 32) where
  -- The controller after source `k + 1` was claimed.
  abbrev after_claim : InterruptController
  after_claim = record c {
    pending = bit_and c.pending (not32 (source_mask (k + 1)));
    claimed = bit_or c.claimed (source_mask (k + 1));
  }

  after_claim-pending :
      (i : ℕ) → i < 32 → test_bit after_claim.pending i ≡ (test_bit c.pending i && not (i == k))
  after_claim-pending i g =
      rw (source_mask-suc k h)
        (test_bit-clear i c.pending (2 ^ k) g (pow-word k h) ∙ rw (test_bit-pow k i) refl)

  after_claim-claimed :
      (i : ℕ) → test_bit after_claim.claimed i ≡ (test_bit c.claimed i || (i == k))
  after_claim-claimed i =
      rw (source_mask-suc k h) (test_bit-or i c.claimed (2 ^ k) ∙ rw (test_bit-pow k i) refl)

claimed-Claims :
    (c : InterruptController) (k : ℕ)
    → Lowest 32 (enabled_pending c) k
    → (h : k < 32) → Claims c (after_claim c k h) (k + 1)
unfolding Lowest
claimed-Claims c k (l, t, f) h = record {
  in_range = omega arith;
  numbered = omega arith;
  waiting = rw (add_sub k) t;
  lowest = λ i g. f i (omega arith);
  taken = λ i g. rw (add_sub k) (after_claim-pending c k h i g);
  held = λ i g. rw (add_sub k) (after_claim-claimed c k h i);
}
  where
    add_sub : (k : ℕ) → k + 1 - 1 ≡ k
    add_sub k = omega arith

claim_next-eq :
    (c : InterruptController) (k : ℕ) (h : k < 32)
    → highest_priority_pending_source c ≡ k + 1
    → claim_next c ≡ (after_claim c k h, k + 1)
unfolding claim_next
claim_next-eq c k h e = rw (e, ne→== (k + 1) 0 (λ z. omega (arith, z))) refl

-- A claim while a source is pending and enabled hands out the lowest such source, numbered from 1,
-- and moves it from the pending to the claimed sources; no other source changes.
pub claim_next-Claims :
    (c : InterruptController)
    → c.enable < 2 ^ 32
    → enabled_pending c ≢ 0
    → Claims c (claim_next c).0 (claim_next c).1
unfolding enabled_pending Lowest
claim_next-Claims c e ne =
    subst (λ x. Claims c x.0 x.1) (sym (claim_next-eq c lowest_bit (found.0) source))
      (claimed-Claims c lowest_bit found (found.0))
  where
    lowest_bit : ℕ
    lowest_bit = trailing_zeros 32 (enabled_pending c)

    found : Lowest 32 (enabled_pending c) lowest_bit
    found =
        trailing_zeros-Lowest 32 (enabled_pending c) ne
          (omega (arith, bit_and-le c.pending c.enable))

    source : highest_priority_pending_source c ≡ lowest_bit + 1
    source = unfold highest_priority_pending_source in rw (ne→== (enabled_pending c) 0 ne) refl

-- ===== src/Devices/InterruptController/Disjoint.antt =====
-- A source is never pending and claimed at once, whatever the bus does to the controller.
use rust_computer.Base.{
  ℕ, ◌-◌, ◌^◌, ◌<◌, ◌≡◌, refl, arith, bit_and, bit_or, Bool, true, false, not, ◌&&◌, ◌==◌, leb,
  if◌then◌else◌, if_elim, none, set, Result,
}
use rust_computer.Bits.Bytes.{from_le_bytes}
use rust_computer.Bits.Laws.{test_bit-or, test_bit-zero, bit_and-le, bit_or-lt}
use rust_computer.Bits.Masks.{test_bit-clear}
use rust_computer.Bits.{test_bit, not32}
use rust_computer.Devices.InterruptController.Claims.{pow-word}
use rust_computer.Devices.InterruptController.{
  InterruptController, reset, source_mask, highest_priority_pending_source, claim_next, latched,
  complete_source, load_offset, load8, complete_byte, store_offset, store8,
}
use rust_computer.System.Address.{contains}
use rust_computer.System.Bus.{BusError}

pub record IsValid (c : InterruptController) : Type 0 where
  pub disjoint : (i : ℕ) → i < 32 → (test_bit c.pending i && test_bit c.claimed i) ≡ false
  pub claimed_word : c.claimed < 2 ^ 32

source_mask-lt : (id : ℕ) → source_mask id < 2 ^ 32
unfolding source_mask
source_mask-lt id = ground (arith, pow-word (id - 1))

-- Nothing is pending after a reset.
pub reset-IsValid : (c : InterruptController) → IsValid (reset c)
unfolding reset
reset-IsValid c = record { disjoint = λ i h. rw (test_bit-zero i) refl; claimed_word = omega arith }

-- The fields of the invariant, after new values of `pending` and `claimed`.
with_fields :
    (c : InterruptController) (p q : ℕ)
    → ((i : ℕ) → i < 32 → (test_bit p i && test_bit q i) ≡ false)
    → q < 2 ^ 32
    → IsValid (record c { pending = p; claimed = q })
with_fields c p q d w = record { disjoint = d; claimed_word = w }

moved-IsValid :
    (c : InterruptController) (m : ℕ)
    → m < 2 ^ 32
    → IsValid c
    → IsValid (record c { pending = bit_and c.pending (not32 m); claimed = bit_or c.claimed m })
moved-IsValid c m b v =
    with_fields c _ _
      (λ i h.
        rw (test_bit-clear i c.pending m h b, test_bit-or i c.claimed m)
          (ground (arith, v.disjoint i h)))
      (bit_or-lt 32 c.claimed m v.claimed_word b)

-- A claim keeps the invariant.
pub claim_next-IsValid : (c : InterruptController) → IsValid c → IsValid (claim_next c).0
unfolding claim_next
claim_next-IsValid c v =
    if_elim (λ (x : InterruptController × ℕ). IsValid x.0)
      (not (highest_priority_pending_source c == 0))
      (λ some_source.
        moved-IsValid c (source_mask (highest_priority_pending_source c))
          (source_mask-lt (highest_priority_pending_source c)) v)
      (λ no_source. v)

complete_source-IsValid :
    (c : InterruptController) (id : ℕ) → IsValid c → IsValid (complete_source c id)
unfolding complete_source
complete_source-IsValid c id v =
    with_fields c _ _
      (λ i h.
        rw (test_bit-clear i c.claimed (source_mask id) h (source_mask-lt id))
          (ground (arith, v.disjoint i h)))
      (omega (arith, bit_and-le c.claimed (not32 (source_mask id))))

complete_byte-IsValid :
    (c : InterruptController) (i value : ℕ) → IsValid c → IsValid (complete_byte c i value)
unfolding complete_byte
complete_byte-IsValid c i value v =
    if_elim IsValid (i == 3)
      (λ last. record {
        disjoint = (named last).disjoint;
        claimed_word = (named last).claimed_word;
      })
      (λ early. record { disjoint = v.disjoint; claimed_word = v.claimed_word })
  where
    named :
        (i == 3) ≡ true
        → IsValid (complete_source c (from_le_bytes (set c.complete_staging i value)))
    named last = complete_source-IsValid c (from_le_bytes (set c.complete_staging i value)) v

-- The controller that an access leaves.
Leaves : {A : Type 0} → InterruptController × Result BusError A → Type 0
Leaves x = IsValid x.0

leave : {A : Type 0} {c : InterruptController} (x : Result BusError A) → IsValid c → Leaves (c, x)
unfolding Leaves
leave x v = v

left : {A : Type 0} (x : InterruptController × Result BusError A) → Leaves x → IsValid x.0
unfolding Leaves
left x l = l

set_pending-IsValid :
    (c : InterruptController) (mask : ℕ)
    → IsValid c
    → IsValid (record c { pending = bit_or c.pending (bit_and mask (not32 c.claimed)) })
set_pending-IsValid c mask v =
    with_fields c _ _
      (λ i h.
        rw
          (
            test_bit-or i c.pending (bit_and mask (not32 c.claimed)),
            test_bit-clear i mask c.claimed h v.claimed_word,
          )
          (ground (arith, v.disjoint i h)))
      v.claimed_word

store_offset-Leaves :
    (addr offset value : ℕ) (c : InterruptController)
    → IsValid c
    → Leaves (store_offset addr offset value c)
unfolding store_offset
store_offset-Leaves addr offset value c v =
    if_elim Leaves (leb offset 3) (λ _. leave _ v)
      (λ _.
        if_elim Leaves (leb offset 7)
          (λ _. leave _ (record { disjoint = v.disjoint; claimed_word = v.claimed_word }))
          (λ _.
            if_elim Leaves (leb offset 11) (λ _. leave _ (set_pending-IsValid c _ v))
              (λ _.
                if_elim Leaves (leb offset 15)
                  (λ _. leave _ (complete_byte-IsValid c (offset - 12) value v))
                  (λ _.
                    if_elim Leaves (leb offset 19)
                      (λ _.
                        leave _ (record { disjoint = v.disjoint; claimed_word = v.claimed_word }))
                      (λ _. leave _ v)))))

-- Every store keeps the invariant, the refused ones and those to unmapped addresses included: a
-- source that is claimed cannot be made pending before it is completed.
pub store8-IsValid :
    (addr value : ℕ) (c : InterruptController) → IsValid c → IsValid (store8 addr value c).0
store8-IsValid addr value c v = left (store8 addr value c) (
    unfold store8 in
    if_elim Leaves (not (contains c.range addr)) (λ _. leave _ v)
      (λ _. store_offset-Leaves addr (addr - c.range.start) value c v))

load_offset-Leaves :
    (offset : ℕ) (c : InterruptController) → IsValid c → Leaves (load_offset offset c)
unfolding load_offset
load_offset-Leaves offset c v =
    leave _ (unlatched (offset == 15) (if offset == 12 then latched (claim_next c) else c) claimed)
  where
    claimed : IsValid (if offset == 12 then latched (claim_next c) else c)
    claimed =
        if_elim IsValid (offset == 12)
          (λ _. record {
            disjoint = (claim_next-IsValid c v).disjoint;
            claimed_word = (claim_next-IsValid c v).claimed_word;
          })
          (λ _. v)

    unlatched :
        (b : Bool) (d : InterruptController)
        → IsValid d
        → IsValid (if b then record d { claim_latch = none } else d)
    unlatched true d w = record { disjoint = w.disjoint; claimed_word = w.claimed_word }
    unlatched false d w = w

-- Every load keeps the invariant; the first byte of the claim register claims a source.
pub load8-IsValid : (addr : ℕ) (c : InterruptController) → IsValid c → IsValid (load8 addr c).0
load8-IsValid addr c v = left (load8 addr c) (
    unfold load8 in
    if_elim Leaves (not (contains c.range addr)) (λ _. leave _ v)
      (λ _. load_offset-Leaves (addr - c.range.start) c v))

-- ===== src/Cpu/CsrFile/Chosen.antt =====
-- `pending_interrupt` takes the first interrupt, by priority, that the mode lets through.
use rust_computer.Base.{
  ℕ, ◌<◌, ◌≡◌, refl, arith, Bool, true, false, ◌&&◌, Option, none, some, List, [], ◌∷◌, zero, suc,
  sym, ◌⊎◌, ap, subst, ◌∙◌, inl, inr, if_elim,
}
use rust_computer.Cpu.CsrFile.Interrupts.{
  is_deliverable, first_deliverable, interrupt_priority, pending_interrupt, interrupt_is_pending,
  interrupt_is_enabled, target_enabled, interrupt_target_privilege, interrupt_globally_enabled,
}
use rust_computer.Bits.{has_flag}
use rust_computer.Cpu.CsrFile.{CsrFile, mstatus_mie}
use rust_computer.Cpu.Privilege.{PrivilegeMode, user, machine}
use rust_computer.Isa.Exception.{Interrupt}

-- The order of the interrupts, the most urgent first.
unfoldable pub rank : Interrupt → ℕ
rank Interrupt.machine_external = 0
rank Interrupt.machine_software = 1
rank Interrupt.machine_timer = 2
rank Interrupt.supervisor_external = 3
rank Interrupt.supervisor_software = 4
rank Interrupt.supervisor_timer = 5

-- The right answer, given which interrupts can be delivered.
unfoldable pub Chosen : (Interrupt → Bool) → Option Interrupt → Type 0
Chosen d none = (j : Interrupt) → d j ≡ false
Chosen d (some i) = (d i ≡ true) × ((j : Interrupt) → rank j < rank i → d j ≡ false)

-- The interrupt of a rank.
at_rank : ℕ → Interrupt
at_rank zero = Interrupt.machine_external
at_rank (suc zero) = Interrupt.machine_software
at_rank (suc (suc zero)) = Interrupt.machine_timer
at_rank (suc (suc (suc zero))) = Interrupt.supervisor_external
at_rank (suc (suc (suc (suc zero)))) = Interrupt.supervisor_software
at_rank _ = Interrupt.supervisor_timer

at_rank-rank : (i : Interrupt) → (at_rank (rank i) ≡ i) × (rank i < 6)
unfolding at_rank rank
at_rank-rank Interrupt.machine_external = (refl, omega arith)
at_rank-rank Interrupt.machine_software = (refl, omega arith)
at_rank-rank Interrupt.machine_timer = (refl, omega arith)
at_rank-rank Interrupt.supervisor_external = (refl, omega arith)
at_rank-rank Interrupt.supervisor_software = (refl, omega arith)
at_rank-rank Interrupt.supervisor_timer = (refl, omega arith)

eq_of_rank : (i j : Interrupt) → rank i ≡ rank j → i ≡ j
eq_of_rank i j e = sym ((at_rank-rank i).0) ∙ ap at_rank e ∙ (at_rank-rank j).0

-- The list holds the interrupts from rank `n` on, in order.
ListsFrom : ℕ → List Interrupt → Type 0
ListsFrom n [] = n ≡ 6
ListsFrom n (i ∷ rest) = (rank i ≡ n) × ListsFrom (suc n) rest

-- The interrupts below rank `n` cannot be delivered.
NoneBelow : (Interrupt → Bool) → ℕ → Type 0
NoneBelow d n = (j : Interrupt) → rank j < n → d j ≡ false

one_more :
    (d : Interrupt → Bool) (n : ℕ) (i : Interrupt)
    → rank i ≡ n
    → d i ≡ false
    → NoneBelow d n
    → NoneBelow d (suc n)
unfolding NoneBelow
one_more d n i e f p j h = elim (lt_or_eq (rank j) n h) [
  | inl less ↦ p j less
  | inr same ↦ subst (λ x. d x ≡ false) (eq_of_rank i j (e ∙ sym same)) f
]
  where
    lt_or_eq : (a b : ℕ) → a < suc b → (a < b) ⊎ (a ≡ b)
    lt_or_eq a b h = ground arith

first-Chosen :
    (c : CsrFile) (p : PrivilegeMode) (n : ℕ) (l : List Interrupt)
    → ListsFrom n l
    → NoneBelow (is_deliverable c p) n
    → Chosen (is_deliverable c p) (first_deliverable c p l)
unfolding first_deliverable ListsFrom NoneBelow Chosen
first-Chosen c p n [] e none_below = λ j. none_below j (omega (arith, e, (at_rank-rank j).1))
first-Chosen c p n (i ∷ rest) (e, f) none_below =
    if_elim (Chosen (is_deliverable c p)) (is_deliverable c p i)
      (λ yes. (yes, λ j h. none_below j (omega (arith, h, e))))
      (λ no. first-Chosen c p (suc n) rest f (one_more (is_deliverable c p) n i e no none_below))

-- `pending_interrupt` answers the most urgent interrupt that can be delivered (pending, enabled, and
-- let through by the mode it traps to), and answers none only when none can.
pub pending_interrupt-Chosen :
    (c : CsrFile) (p : PrivilegeMode) → Chosen (is_deliverable c p) (pending_interrupt c p)
unfolding pending_interrupt ListsFrom NoneBelow rank
pending_interrupt-Chosen c p =
    first-Chosen c p 0 interrupt_priority (refl, (refl, (refl, (refl, (refl, (refl, refl))))))
      (λ j h. absurd (omega (arith, h)))

-- User mode cannot mask an interrupt: one passes `is_deliverable` there, the test before the choice
-- by priority, exactly when it is pending and enabled.
pub is_deliverable-user :
    (c : CsrFile) (i : Interrupt)
    → is_deliverable c user i ≡ (interrupt_is_pending c i && interrupt_is_enabled c i)
unfolding is_deliverable target_enabled interrupt_target_privilege interrupt_globally_enabled
is_deliverable-user c i = ground arith

-- In machine mode with MIE clear no interrupt passes `is_deliverable`.
pub is_deliverable-machine :
    (c : CsrFile) (i : Interrupt)
    → has_flag c.machine.mstatus mstatus_mie ≡ false
    → is_deliverable c machine i ≡ false
unfolding is_deliverable target_enabled interrupt_target_privilege interrupt_globally_enabled
is_deliverable-machine c i h = ground arith

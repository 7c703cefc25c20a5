-- ===== src/System/MemoryMap/Rounds.antt =====
-- memory_map.rs: the pass of `tick` over the transactions brings each one in flight closer to its end.
use rust_computer.Base.{
  ℕ, zero, suc, ◌+◌, ◌-◌, ◌≤◌, ◌<◌, ◌≡◌, ◌≢◌, refl, arith, Bool, true, false, List, length, Option,
  none, some, Bool-cases, inl, inr, ◌==◌, ap, sym, ◌∙◌, subst, ==_iff, false≢true, Option-cases,
}
use rust_computer.System.Device.{Addressable}
use rust_computer.System.MemoryMap.Access.{slot_at}
use rust_computer.System.MemoryMap.Answers.{IsFit}
use rust_computer.System.MemoryMap.Lists.{All-slot, slot_at-set_phase, slot_at-set_phase_ne}
use rust_computer.System.MemoryMap.Safety.{IsSound}
use rust_computer.System.MemoryMap.Transactions.{
  advance_slot, advance_phase, advance_transaction_at, advance_transactions,
}
use rust_computer.System.MemoryMap.{MemoryMap, ActiveTransaction}
use rust_computer.System.MemoryMap.Countdown.{
  steps_left, IsStarted, Steps, advance_phase-Steps, Closer, step-IsSound,
}

abbrev one_if : Bool → ℕ
one_if true = 1
one_if false = 0

weaken-Closer :
    {D : Type 0} (i : ℕ) (t t' : ActiveTransaction) (c c' : ℕ) (x : Option (MemoryMap D))
    → steps_left t'.phase - c' ≤ steps_left t.phase - c
    → Closer i t' c' x
    → Closer i t c x
unfolding Closer
weaken-Closer i t t' c c' none l k = absurd k
weaken-Closer i t t' c c' (some m) l (s, u, e, st, b) = (s, u, e, st, omega (arith, l, b))

-- What the rest of the loop does.
abbrev Continues : {D : Type 0} → ℕ → ℕ → ℕ → (MemoryMap D → Option (MemoryMap D)) → Type 0
Continues {D} i j n rest =
    (b : Bool) (m : MemoryMap D) (t : ActiveTransaction)
    → IsSound m
    → slot_at m.active_transactions i ≡ some t
    → IsStarted t.phase
    → (b ≡ true → (j < i) × (i < n))
    → Closer i t (one_if b) (rest m)

-- The loop's step at the index itself, and at another one.
at_most : (b : Bool) (n p : ℕ) → p ≤ n - 1 → p - 0 ≤ n - one_if b
at_most true n p l = omega (arith, l)
at_most false n p l = omega (arith, l)

own-Closer :
    {D : Type 0} (i j n : ℕ) (b : Bool) (m : MemoryMap D) (t : ActiveTransaction)
    (x : Option (MemoryMap D)) (rest : MemoryMap D → Option (MemoryMap D))
    → j ≡ i
    → IsSound m
    → slot_at m.active_transactions j ≡ some t
    → IsStarted t.phase
    → Steps m j t x
    → Continues i j n rest
    → Closer i t (one_if b) (elim x [ none ↦ none | some m' ↦ rest m' ])
unfolding Steps
own-Closer i j n b m t none rest q s e st k f = absurd k
own-Closer i j n b m t (some m') rest q s e st k f =
    let t' = record t { phase = k.phase } in
    let here : slot_at m'.active_transactions j ≡ some t' =
      ap (λ (ts : List ActiveTransaction). slot_at ts j) k.alike.transactions
      ∙ slot_at-set_phase m.active_transactions j k.phase t e in
    weaken-Closer i t t' (one_if b) 0 (rest m')
      (at_most b (steps_left t.phase) (steps_left k.phase) (k.closer st))
      (f false m' t' (step-IsSound m m' j t s e k)
        (subst (λ (l : ℕ). slot_at m'.active_transactions l ≡ some t') q here) k.started (λ x. cc))

other-Closer :
    {D : Type 0} (i j n : ℕ) (b : Bool) (m : MemoryMap D) (t u : ActiveTransaction)
    (x : Option (MemoryMap D)) (rest : MemoryMap D → Option (MemoryMap D))
    → IsSound m
    → slot_at m.active_transactions i ≡ some t
    → IsStarted t.phase
    → slot_at m.active_transactions j ≡ some u
    → j ≢ i
    → Steps m j u x
    → (b ≡ true → (j < i) × (i < n))
    → Continues i j n rest
    → Closer i t (one_if b) (elim x [ none ↦ none | some m' ↦ rest m' ])
unfolding Steps
other-Closer i j n b m t u none rest s e st e' ne k l f = absurd k
other-Closer i j n b m t u (some m') rest s e st e' ne k l f =
    f b m' t (step-IsSound m m' j u s e' k)
      (ap (λ (ts : List ActiveTransaction). slot_at ts i) k.alike.transactions
        ∙ slot_at-set_phase_ne m.active_transactions j i k.phase ne
        ∙ e)
      st l

module _ {D : Type 0} (ops : Addressable D) where
  pub advance_slot-Steps :
      (m : MemoryMap D) (j : ℕ) (u : ActiveTransaction)
      → IsSound m
      → slot_at m.active_transactions j ≡ some u
      → Steps m j u (advance_phase ops m j u u.phase)
  advance_slot-Steps m j u s e =
      let fit = All-slot (IsFit (length m.devices)) m.active_transactions j u s.fit e in
      advance_phase-Steps ops m j u u.phase refl e fit.1 fit.0

  -- The loop from index `j`, with its transaction at hand.
  abbrev pub advance_rest :
      MemoryMap D
      → ℕ
      → (MemoryMap D → Option (MemoryMap D))
      → Option ActiveTransaction
      → Option (MemoryMap D)
  advance_rest m j rest o = elim (advance_slot ops m j o) [ none ↦ none | some m' ↦ rest m' ]

  -- The steps of the loop from index `j`, which pass index `i` or not.
  pub advance_transactions-Closer :
      (k j i : ℕ) (b : Bool) (m : MemoryMap D) (t : ActiveTransaction)
      → IsSound m
      → slot_at m.active_transactions i ≡ some t
      → IsStarted t.phase
      → (b ≡ true → (j ≤ i) × (i < j + k))
      → Closer i t (one_if b) (advance_transactions ops k j m)
  unfolding advance_transactions advance_transaction_at
  advance_transactions-Closer zero j i true m t s e st w =
      absurd (omega (arith, (w refl).0, (w refl).1))
  advance_transactions-Closer zero j i false m t s e st w =
      unfold Closer in (s, t, e, st, omega arith)
  advance_transactions-Closer (suc k) j i b m t s e st w =
      let n = j + suc k in
      let rest = advance_transactions ops k (suc j) in
      let continue : Continues i j n rest =
        λ (b' : Bool) (m' : MemoryMap D) (t' : ActiveTransaction) s' e' st' w'.
          advance_transactions-Closer k (suc j) i b' m' t' s' e' st'
            (λ y. (omega (arith, (w' y).0), omega (arith, (w' y).1))) in
      let step_is : (o : Option ActiveTransaction)
          → slot_at m.active_transactions j ≡ o
          → Closer i t (one_if b) (advance_rest m j rest o)
          → Closer i t (one_if b) (advance_rest m j rest (slot_at m.active_transactions j)) =
        λ o e' z.
          subst (λ (x : Option ActiveTransaction). Closer i t (one_if b) (advance_rest m j rest x))
            (sym e') z in
      elim (Bool-cases (j == i)) [
        | inl q ↦
            (let p = (==_iff j i).0 q in
              let e' = subst (λ (l : ℕ). slot_at m.active_transactions l ≡ some t) (sym p) e in
              step_is _ e'
                (own-Closer i j n b m t _ rest p s e' st (advance_slot-Steps m j t s e') continue))
        | inr q ↦
            (let ne : j ≢ i = λ x. false≢true (sym q ∙ (==_iff j i).1 x) in
              let w' : b ≡ true → (j < i) × (i < n) = λ y. (omega (arith, (w y).0, ne), (w y).1) in
              elim (Option-cases (slot_at m.active_transactions j)) [
                | inl e' ↦ step_is _ e' (continue b m t s e st w')
                | inr (u, e') ↦ step_is _ e' (
                    other-Closer i j n b m t u _ rest s e st e' ne (advance_slot-Steps m j u s e')
                      w' continue)
              ])
      ]

-- ===== src/Cpu/Mmu/Fences.antt =====
-- What a fence removes from the translation buffer, and what it leaves.
use rust_computer.Base.{
  ℕ, zero, suc, ◌≡◌, refl, sym, ◌∙◌, arith, true, false, ◌||◌, Option, none, some, List, [], ◌∷◌,
  map, get_or, replicate, Bool-cases, if◌then◌else◌, inl, inr,
}
use rust_computer.Cpu.Mmu.Tlb.{
  matches, lookup_from, lookup_tlb, is_global, matches_entry, flush_slot, flush_fence,
}
use rust_computer.Cpu.Mmu.Types.{
  TranslationFence, TranslationRequest, TlbEntry, PageWalker, tlb_entry_count,
}

-- The entry that a slot holds after a fence: it went exactly if it is in the fence's reach.
abbrev pub kept : TranslationFence → Option TlbEntry → Option TlbEntry
kept f none = none
kept f (some e) = if is_global f || matches_entry f e then none else some e

get_or-map :
    (f : TranslationFence) (slots : List (Option TlbEntry)) (i : ℕ)
    → get_or (map (flush_slot f) slots) i none ≡ flush_slot f (get_or slots i none)
unfolding flush_slot
get_or-map f [] i = refl
get_or-map f (x ∷ xs) zero = refl
get_or-map f (x ∷ xs) (suc i) = get_or-map f xs i

get_or-replicate : (n i : ℕ) → get_or {A = Option TlbEntry} (replicate n none) i none ≡ none
get_or-replicate zero i = refl
get_or-replicate (suc n) zero = refl
get_or-replicate (suc n) (suc i) = get_or-replicate n i

kept-global : (f : TranslationFence) (o : Option TlbEntry) → is_global f ≡ true → kept f o ≡ none
kept-global f none g = refl
kept-global f (some e) g = rw g

kept-local :
    (f : TranslationFence) (o : Option TlbEntry) → is_global f ≡ false → flush_slot f o ≡ kept f o
unfolding flush_slot
kept-local f none g = refl
kept-local f (some e) g = rw g

-- A fence empties exactly the slots whose entry it matches, a global fence all of them, and leaves
-- every other slot, the active walk and the replacement pointer as they were.
pub flush_fence-slots :
    (w : PageWalker) (f : TranslationFence)
    → ((i : ℕ) → get_or (flush_fence w f).tlb i none ≡ kept f (get_or w.tlb i none))
      × ((flush_fence w f).active ≡ w.active)
      × ((flush_fence w f).next_tlb_entry ≡ w.next_tlb_entry)
unfolding flush_fence
flush_fence-slots w f = elim (Bool-cases (is_global f)) [
  | inl g ↦ (
    λ i. rw g (get_or-replicate tlb_entry_count i ∙ sym (kept-global f (get_or w.tlb i none) g)),
    rw g refl,
    rw g refl,
  )
  | inr l ↦ (
    λ i. rw l (get_or-map f w.tlb i ∙ kept-local f (get_or w.tlb i none) l),
    rw l refl,
    rw l refl,
  )
]

-- No entry of the list answers the request.
abbrev Unanswered : TranslationRequest → List (Option TlbEntry) → Type 0
Unanswered r [] = Unit
Unanswered r (none ∷ rest) = Unanswered r rest
Unanswered r (some e ∷ rest) = (matches e r ≡ false) × Unanswered r rest

lookup-Unanswered :
    (slots : List (Option TlbEntry)) (r : TranslationRequest)
    → Unanswered r slots
    → lookup_from false slots r ≡ none
unfolding lookup_from
lookup-Unanswered [] r h = refl
lookup-Unanswered (none ∷ rest) r h = lookup-Unanswered rest r h
lookup-Unanswered (some e ∷ rest) r h = ground (arith, lookup-Unanswered rest r h.1)

-- The fence of one virtual address, for all address spaces.
abbrev pub address_fence : ℕ → TranslationFence
address_fence virtual_address = record { virtual_address = some virtual_address; asid = none }

address_fence-local : (va : ℕ) → is_global (address_fence va) ≡ false
unfolding is_global
address_fence-local va = refl

address_fence-reach :
    (r : TranslationRequest) (e : TlbEntry)
    → matches_entry (address_fence r.virtual_address) e ≡ false
    → matches e r ≡ false
unfolding matches matches_entry
address_fence-reach r e h = ground arith

fenced-Unanswered :
    (r : TranslationRequest) (slots : List (Option TlbEntry))
    → Unanswered r (map (flush_slot (address_fence r.virtual_address)) slots)
unfolding flush_slot
fenced-Unanswered r [] = tt
fenced-Unanswered r (none ∷ rest) = fenced-Unanswered r rest
fenced-Unanswered r (some e ∷ rest) =
    let f = address_fence r.virtual_address in
    elim (Bool-cases (matches_entry f e)) [
      | inl hit ↦ rw hit (fenced-Unanswered r rest)
      | inr miss ↦ rw miss (address_fence-reach r e miss, fenced-Unanswered r rest)
    ]

-- After the fence of an address, no request for that address is answered from the translation
-- buffer, in any address space and at any page size: its pages are walked again.
pub fence_address_forgets :
    (w : PageWalker) (r : TranslationRequest)
    → lookup_tlb (flush_fence w (address_fence r.virtual_address)) r ≡ none
unfolding lookup_tlb flush_fence
fence_address_forgets w r = rw (address_fence-local r.virtual_address) (
    lookup-Unanswered (map (flush_slot (address_fence r.virtual_address)) w.tlb) r
      (fenced-Unanswered r w.tlb))

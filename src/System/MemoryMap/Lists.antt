-- ===== src/System/MemoryMap/Lists.antt =====
-- memory_map.rs: the list of the active transactions under `position`, `push`, phase updates and
-- `swap_remove`.
use rust_computer.Base.{
  ℕ, zero, suc, ◌<◌, ◌≡◌, ◌≢◌, refl, arith, List, [], ◌∷◌, All, length, Option, none, some, ◌==◌,
  if◌then◌else◌, ap, ne→==, ==_refl, subst,
}
use rust_computer.System.MemoryMap.Access.{slot_at, set_device}
use rust_computer.System.MemoryMap.Transactions.{
  transaction_index, set_phase, swap_remove, last_or, without_last,
}
use rust_computer.System.MemoryMap.{ActiveTransaction, DeviceSlot, push, next_index}
use rust_computer.System.Transaction.{TransactionPhase}

abbrev OnSome : {A : Type 0} → (A → Type 0) → Option A → Type 0
OnSome P none = Unit
OnSome P (some a) = P a

pub All-slot :
    {A : Type 0} (P : A → Type 0) (xs : List A) (i : ℕ) (x : A)
    → All P xs
    → slot_at xs i ≡ some x
    → P x
All-slot P [] i x h e = cc
All-slot P (y ∷ ys) zero x h e = subst (OnSome P) e h.0
All-slot P (y ∷ ys) (suc i) x h e = All-slot P ys i x h.1 e

pub All-push :
    {A : Type 0} (P : A → Type 0) (xs : List A) (a : A) → All P xs → P a → All P (push xs a)
All-push P [] a h p = (p, tt)
All-push P (x ∷ xs) a h p = (h.0, All-push P xs a h.1 p)

pub All-set_phase :
    (P : ActiveTransaction → Type 0) (ts : List ActiveTransaction) (i : ℕ) (p : TransactionPhase)
    → All P ts
    → ((t : ActiveTransaction) → slot_at ts i ≡ some t → P (record t { phase = p }))
    → All P (set_phase ts i p)
All-set_phase P [] i p h f = tt
All-set_phase P (t ∷ ts) zero p h f = (f t refl, h.1)
All-set_phase P (t ∷ ts) (suc i) p h f = (h.0, All-set_phase P ts i p h.1 f)

All-last : {A : Type 0} (P : A → Type 0) (x : A) (xs : List A) → P x → All P xs → P (last_or x xs)
All-last P x [] p h = p
All-last P x (y ∷ ys) p h = All-last P y ys h.0 h.1

All-without_last :
    {A : Type 0} (P : A → Type 0) (x : A) (xs : List A) → P x → All P xs → All P (without_last x xs)
All-without_last P x [] p h = tt
All-without_last P x (y ∷ ys) p h = (p, All-without_last P y ys h.0 h.1)

pub All-swap_remove :
    {A : Type 0} (P : A → Type 0) (xs : List A) (i : ℕ) → All P xs → All P (swap_remove xs i)
unfolding swap_remove
All-swap_remove P [] i h = tt
All-swap_remove P (x ∷ []) zero h = tt
All-swap_remove P (x ∷ y ∷ ys) zero h =
    (All-last P y ys h.1.0 h.1.1, All-without_last P y ys h.1.0 h.1.1)
All-swap_remove P (x ∷ []) (suc i) h = (h.0, All-swap_remove P [] i tt)
All-swap_remove P (x ∷ y ∷ ys) (suc i) h = (h.0, All-swap_remove P (y ∷ ys) i h.1)

pub All-map :
    {A : Type 0} (P Q : A → Type 0) (xs : List A) → ((a : A) → P a → Q a) → All P xs → All Q xs
All-map P Q [] f h = tt
All-map P Q (x ∷ xs) f h = (f x h.0, All-map P Q xs f h.1)

-- A new identifier is found at the end.
pub transaction_index-push :
    (ts : List ActiveTransaction) (t : ActiveTransaction)
    → All (λ x. x.id < t.id) ts
    → transaction_index (push ts t) t.id ≡ some (length ts)
transaction_index-push [] t h = rw (==_refl t.id) refl
transaction_index-push (x ∷ xs) t h =
    rw (ne→== x.id t.id (λ e. absurd (omega (arith, e, h.0))))
      (ap next_index (transaction_index-push xs t h.1))

pub slot_at-push : {A : Type 0} (xs : List A) (a : A) → slot_at (push xs a) (length xs) ≡ some a
slot_at-push [] a = refl
slot_at-push (x ∷ xs) a = slot_at-push xs a

pub transaction_index-set_phase :
    (ts : List ActiveTransaction) (i : ℕ) (p : TransactionPhase) (id : ℕ)
    → transaction_index (set_phase ts i p) id ≡ transaction_index ts id
transaction_index-set_phase [] i p id = refl
transaction_index-set_phase (t ∷ ts) zero p id = refl
transaction_index-set_phase (t ∷ ts) (suc i) p id =
    ap (λ (o : Option ℕ). if t.id == id then some 0 else next_index o)
      (transaction_index-set_phase ts i p id)

pub slot_at-set_phase :
    (ts : List ActiveTransaction) (i : ℕ) (p : TransactionPhase) (t : ActiveTransaction)
    → slot_at ts i ≡ some t
    → slot_at (set_phase ts i p) i ≡ some (record t { phase = p })
slot_at-set_phase [] i p t e = cc
slot_at-set_phase (x ∷ xs) zero p t e = ap with_phase_p e
  where
    with_phase_p : Option ActiveTransaction → Option ActiveTransaction
    with_phase_p none = none
    with_phase_p (some x) = some (record x { phase = p })
slot_at-set_phase (x ∷ xs) (suc i) p t e = slot_at-set_phase xs i p t e

pub slot_at-set_phase_ne :
    (ts : List ActiveTransaction) (i j : ℕ) (p : TransactionPhase)
    → i ≢ j
    → slot_at (set_phase ts i p) j ≡ slot_at ts j
slot_at-set_phase_ne [] i j p ne = refl
slot_at-set_phase_ne (x ∷ xs) zero zero p ne = absurd (ne refl)
slot_at-set_phase_ne (x ∷ xs) zero (suc j) p ne = refl
slot_at-set_phase_ne (x ∷ xs) (suc i) zero p ne = refl
slot_at-set_phase_ne (x ∷ xs) (suc i) (suc j) p ne =
    slot_at-set_phase_ne xs i j p (λ e. ne (ap suc e))

pub length-set_device :
    {D : Type 0} (slots : List (DeviceSlot D)) (i : ℕ) (d : D)
    → length (set_device slots i d) ≡ length slots
length-set_device [] i d = refl
length-set_device (s ∷ ss) zero d = refl
length-set_device (s ∷ ss) (suc i) d = ap suc (length-set_device ss i d)

-- An index in bounds has an element.
pub slot_at-some {ℓ} :
    {A : Type ℓ} (xs : List A) (i : ℕ) → i < length xs → (x : A) × (slot_at xs i ≡ some x)
slot_at-some [] i b = absurd (omega arith)
slot_at-some (x ∷ xs) zero b = (x, refl)
slot_at-some (x ∷ xs) (suc i) b = slot_at-some xs i (omega arith)

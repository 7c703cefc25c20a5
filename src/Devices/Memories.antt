-- ===== src/Devices/Memories.antt =====
-- crates/devices/src/ram.rs and dram.rs: what is stored is what is loaded, whatever the timing.
use rust_computer.Base.{
  ℕ, ◌+◌, ◌-◌, ◌/◌, ◌^◌, ◌≡◌, refl, ap, ◌∙◌, arith, true, ◌&&◌, Bool-cases, inl, inr, ltb, Result,
  err, length, get_or-set_self, get_or-set_ne, length-set, Option, none, some, ok, if◌then◌else◌,
  ◌==◌, if_elim,
}
use rust_computer.Devices.Dram
use rust_computer.Devices.Dram.{
  Dram, PendingAccess, contents, commit_pending_access, commit, load_byte, store_byte,
}
use rust_computer.Devices.Ram
use rust_computer.Devices.Ram.{Ram, offset, load_at, store_at}
use rust_computer.System.Bus.{BusError}
use rust_computer.System.Address.{contains, end}

-- A memory of the length of its range, and an address in it: a load at the address after a store
-- there gives the byte, and a load at another address of the range what it gave before.
pub load8-store8 :
    (ram : Ram) (a b value : ℕ)
    → length ram.bytes ≡ ram.range.size
    → contains ram.range a ≡ true
    → contains ram.range b ≡ true
    → (Ram.load8 b (Ram.store8 a value ram).0).1
      ≡ (if a == b then ok value else (Ram.load8 b ram).1)
unfolding Ram.load8 Ram.store8 offset load_at store_at contains end
load8-store8 ram a b value size ca cb =
    let i = a - ram.range.start in
    let j = b - ram.range.start in
    ground (
      arith,
      length-set ram.bytes i value,
      get_or-set_self ram.bytes i value 0,
      get_or-set_ne ram.bytes i j value 0,
    )

commit-contents :
    (d : Dram) (addr : ℕ) (x : Option PendingAccess) → contents (commit d addr x) ≡ contents d
unfolding contents
commit-contents d addr none = refl
commit-contents d addr (some pending) =
    if_elim (λ (d' : Dram). contents d' ≡ contents d) (pending.start == addr) (λ _. refl)
      (λ _. refl)

load_byte-Ram :
    (d : Dram) (addr : ℕ) (x : Result BusError ℕ)
    → ((load_byte d addr x).1 ≡ load_at d.bytes addr x) × ((load_byte d addr x).0 ≡ d)
unfolding load_byte load_at
load_byte-Ram d addr (ok i) = (refl, refl)
load_byte-Ram d addr (err e) = (refl, refl)

-- What a store answers and leaves.
abbrev Stored : Dram → ℕ → ℕ → Result BusError ℕ → Dram × Result BusError (Unit {0}) → Type 0
Stored d addr value x y =
    (y.1 ≡ (store_at d.bytes addr value x).1)
    × (contents y.0 ≡ record (contents d) { bytes = (store_at d.bytes addr value x).0 })

store_byte-Ram :
    (d : Dram) (addr value : ℕ) (x : Result BusError ℕ)
    → Stored d addr value x (store_byte d addr value x)
unfolding store_byte store_at contents
store_byte-Ram d addr value (ok i) = elim (Bool-cases (ltb i (length d.bytes))) [
  | inl e ↦ rw e (refl, refl)
  | inr e ↦ rw e (refl, refl)
]
store_byte-Ram d addr value (err e) = (refl, refl)

offset-Ram : (d : Dram) (addr : ℕ) → Dram.offset d addr ≡ offset d.range addr
unfolding Dram.offset offset
offset-Ram d addr = elim (Bool-cases (contains d.range addr)) [
  | inl e ↦ rw e refl
  | inr e ↦ rw e refl
]

-- The contents of the memory with rows are those of the plain memory: a load answers the same and a
-- store answers the same and leaves the same bytes, whatever accesses were timed before.
pub dram-ram :
    (d : Dram) (addr value : ℕ)
    → ((Dram.load8 addr d).1 ≡ (Ram.load8 addr (contents d)).1)
      × (contents (Dram.load8 addr d).0 ≡ contents d)
      × ((Dram.store8 addr value d).1 ≡ (Ram.store8 addr value (contents d)).1)
      × (contents (Dram.store8 addr value d).0 ≡ (Ram.store8 addr value (contents d)).0)
unfolding Dram.load8 Dram.store8 Ram.load8 Ram.store8 contents
dram-ram d addr value =
    let d' = commit_pending_access d addr in
    let c : contents d' ≡ contents d =
      unfold commit_pending_access in commit-contents d addr d.pending_access in
    let o = offset-Ram d' addr in
    let loaded = load_byte-Ram d' addr (Dram.offset d' addr) in
    let put = store_byte-Ram d' addr value (Dram.offset d' addr) in
    (
      loaded.0
          ∙ ap (load_at d'.bytes addr) o
          ∙ ap (λ (r : Ram). load_at r.bytes addr (offset r.range addr)) c,
      ap contents loaded.1 ∙ c,
      put.0
          ∙ ap (λ (x : Result BusError ℕ). (store_at d'.bytes addr value x).1) o
          ∙ ap (λ (r : Ram). (store_at r.bytes addr value (offset r.range addr)).1) c,
      put.1
          ∙ ap
              (λ (x : Result BusError ℕ). record (contents d') {
                bytes = (store_at d'.bytes addr value x).0;
              })
              o
          ∙ ap (λ (r : Ram). (Ram.store8 addr value r).0) c,
    )

-- The row of an address, counted from the start of the range.
abbrev pub row : Dram → ℕ → ℕ
row d addr = (addr - d.range.start) / d.config.row_size

-- The latency of an access at `b` after one of `width` bytes at `a`.
abbrev pub latency_after : Dram → ℕ → ℕ → ℕ → ℕ
latency_after d a width b =
    if row d a == row d b
    then if (ltb (a + width) (2 ^ 64) && (row d (a + width - 1) == row d a)) && (a + width == b)
      then d.config.burst_latency
      else d.config.row_hit_latency
    else d.config.row_miss_latency

-- ===== src/System/MemoryMap/Ranges.antt =====
-- memory_map.rs: the mapped ranges never overlap, so an address has at most one device.
use Prim.Native.String.{String}
use rust_computer.Base.{
  ℕ, zero, suc, ◌≡◌, arith, true, false, List, [], ◌∷◌, All, some, Result, ok, err, if_elim,
  Bool-cases, inl, inr, refl, ap, sym, ◌∙◌, false≢true,
}
use rust_computer.System.Address.{AddressRange, contains, overlaps, end}
use rust_computer.System.Bus.{BusError}
use rust_computer.System.Device.{Addressable}
use rust_computer.System.MemoryMap.Access.{slot_at}
use rust_computer.System.MemoryMap.{
  MemoryMap, DeviceSlot, map_device, ensure_range_available, find_device_index, push, mapped_if,
  position, next_index,
}

-- No range overlaps a later one.
unfoldable pub IsDisjoint : {D : Type 0} → List (DeviceSlot D) → Type 0
IsDisjoint [] = Unit
IsDisjoint (s ∷ ss) = All (λ t. overlaps s.range t.range ≡ false) ss × IsDisjoint ss

All-push : {A : Type 0} (P : A → Type 0) (xs : List A) (a : A) → All P xs → P a → All P (push xs a)
All-push P [] a h p = (p, tt)
All-push P (x ∷ xs) a h p = (h.0, All-push P xs a h.1 p)

unfoldable Available :
    {D : Type 0} → List (DeviceSlot D) → AddressRange → Result BusError (Unit {0}) → Type 0
Available slots range (ok _) = All (λ s. overlaps s.range range ≡ false) slots
Available slots range (err e) = Unit

Available-∷ :
    {D : Type 0} (s : DeviceSlot D) (ss : List (DeviceSlot D)) (range : AddressRange)
    (x : Result BusError (Unit {0}))
    → overlaps s.range range ≡ false
    → Available ss range x
    → Available (s ∷ ss) range x
unfolding Available
Available-∷ s ss range (ok _) o h = (o, h)
Available-∷ s ss range (err e) o h = tt

refused-Available :
    {D : Type 0} (slots : List (DeviceSlot D)) (range : AddressRange) (e : BusError)
    → Available slots range (err e)
unfolding Available
refused-Available slots range e = tt

ensure_range_available-Available :
    {D : Type 0} (slots : List (DeviceSlot D)) (range : AddressRange) (name : String)
    → Available slots range (ensure_range_available slots range name)
unfolding ensure_range_available
ensure_range_available-Available [] range name = unfold Available in tt
ensure_range_available-Available (s ∷ ss) range name =
    if_elim (Available (s ∷ ss) range) (overlaps s.range range)
      (λ _. refused-Available (s ∷ ss) range _)
      (λ o. Available-∷ s ss range _ o (ensure_range_available-Available ss range name))

push-IsDisjoint :
    {D : Type 0} (slots : List (DeviceSlot D)) (s : DeviceSlot D)
    → IsDisjoint slots
    → All (λ t. overlaps t.range s.range ≡ false) slots
    → IsDisjoint (push slots s)
unfolding IsDisjoint
push-IsDisjoint [] s d a = (tt, tt)
push-IsDisjoint (t ∷ ts) s d a =
    (All-push (λ x. overlaps t.range x.range ≡ false) ts s d.0 a.0, push-IsDisjoint ts s d.1 a.1)

-- What `map_device` answers: with the slots kept apart, or with an error.
unfoldable pub KeepsApart : {D : Type 0} → Result BusError (MemoryMap D) → Type 0
KeepsApart (ok m) = IsDisjoint m.devices
KeepsApart (err e) = Unit

mapped-KeepsApart :
    {D : Type 0} (m : MemoryMap D) (s : DeviceSlot D) (x : Result BusError (Unit {0}))
    → IsDisjoint m.devices
    → Available m.devices s.range x
    → KeepsApart (mapped_if m s x)
unfolding KeepsApart Available
mapped-KeepsApart m s (ok _) d a = push-IsDisjoint m.devices s d a
mapped-KeepsApart m s (err e) d a = tt

-- When the ranges of the mapped devices do not overlap, they do not either after `map_device` has
-- accepted one more, whatever the device.
pub map_device-KeepsApart :
    {D : Type 0} (ops : Addressable D) (m : MemoryMap D) (device : D)
    → IsDisjoint m.devices
    → KeepsApart (map_device ops m device)
unfolding map_device
map_device-KeepsApart ops m device d =
    mapped-KeepsApart m _ _ d
      (ensure_range_available-Available m.devices (ops.address_range device) _)

-- Two ranges that share an address overlap.
pub contains-overlaps :
    (r r' : AddressRange) (addr : ℕ)
    → contains r addr ≡ true
    → contains r' addr ≡ true
    → overlaps r r' ≡ true
unfolding contains overlaps end
contains-overlaps r r' addr c c' = ground arith

first_contains :
    {D : Type 0} (s t : DeviceSlot D) (addr : ℕ)
    → some s ≡ some t
    → contains t.range addr ≡ true
    → contains s.range addr ≡ true
first_contains s t addr e c = cc

apart :
    {D : Type 0} (s : DeviceSlot D) (ss : List (DeviceSlot D)) (i : ℕ) (t : DeviceSlot D) (addr : ℕ)
    → All (λ x. overlaps s.range x.range ≡ false) ss
    → slot_at ss i ≡ some t
    → contains t.range addr ≡ true
    → contains s.range addr ≡ false
apart s [] i t addr a e c = cc
apart s (x ∷ xs) zero t addr a e c = elim (Bool-cases (contains s.range addr)) [
  | inl h ↦ absurd (
      false≢true (sym a.0 ∙ contains-overlaps s.range x.range addr h (first_contains x t addr e c)))
  | inr h ↦ h
]
apart s (x ∷ xs) (suc i) t addr a e c = apart s xs i t addr a.1 e c

find-slot :
    {D : Type 0} (slots : List (DeviceSlot D)) (i : ℕ) (t : DeviceSlot D) (addr : ℕ)
    → IsDisjoint slots
    → slot_at slots i ≡ some t
    → contains t.range addr ≡ true
    → position (λ s. contains s.range addr) slots ≡ some i
unfolding IsDisjoint
find-slot [] i t addr d e c = cc
find-slot (s ∷ ss) zero t addr d e c = rw (first_contains s t addr e c) refl
find-slot (s ∷ ss) (suc i) t addr d e c =
    rw (apart s ss i t addr d.0 e c) (ap next_index (find-slot ss i t addr d.1 e c))

-- When the ranges do not overlap and the slot at an index contains an address, the map routes the
-- address to that slot.
pub find_device_index-slot :
    {D : Type 0} (m : MemoryMap D) (i : ℕ) (slot : DeviceSlot D) (addr : ℕ)
    → IsDisjoint m.devices
    → slot_at m.devices i ≡ some slot
    → contains slot.range addr ≡ true
    → find_device_index m addr ≡ some i
unfolding find_device_index
find_device_index-slot m i slot addr d e c = find-slot m.devices i slot addr d e c

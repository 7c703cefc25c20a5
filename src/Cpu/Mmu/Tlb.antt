-- ===== src/Cpu/Mmu/Tlb.antt =====
-- mmu.rs, lines 118 to 129 and 338 to 446: the translation buffer and the fences that empty it.
use rust_computer.Base.{
  ℕ, zero, suc, ◌+◌, ◌%◌, bit_and, bit_or, Bool, true, false, not, ◌&&◌, ◌||◌, Option, none, some,
  List, [], ◌∷◌, map, is_some, ◌==◌, if◌then◌else◌, set, replicate,
}
use rust_computer.Bits.{u16, not32}
use rust_computer.Cpu.Mmu.Pte.{
  satp_asid, satp_asid_mask, page_offset_mask, superpage_offset_mask, pte_is_global,
  permissions_allow, needs_access_bit_update, page_fault,
}
use rust_computer.Cpu.Mmu.Types.{
  TranslationResult, physical_address, fault, TranslationFence, TranslationRequest, WalkState,
  TlbEntry, PageWalker, tlb_entry_count,
}

-- `TlbEntry::matches` and `TlbEntry::translate`.
unfoldable pub matches : TlbEntry → TranslationRequest → Bool
matches e r =
    (e.global_mapping || (e.satp == r.satp))
    && (bit_and r.virtual_address (not32 e.page_mask) == e.virtual_base)

unfoldable pub translate_entry : TlbEntry → TranslationRequest → ℕ
translate_entry e r = bit_or e.physical_base (bit_and r.virtual_address e.page_mask)

-- The loop of `lookup_tlb`; empty slots are flattened away.
unfoldable pub lookup_from :
    Bool → List (Option TlbEntry) → TranslationRequest → Option TranslationResult
unfolding matches translate_entry
lookup_from saw [] r = if saw then some (fault (page_fault r)) else none
lookup_from saw (none ∷ rest) r = lookup_from saw rest r
lookup_from saw (some e ∷ rest) r =
    let skip = lookup_from saw rest r in
    let denied = lookup_from true rest r in
    if not (matches e r)
    then skip
    else if not (permissions_allow r e.flags)
    then denied
    else if needs_access_bit_update r e.flags
    then skip
    else some (physical_address (translate_entry e r))

unfoldable pub lookup_tlb : PageWalker → TranslationRequest → Option TranslationResult
unfolding lookup_from
lookup_tlb w r = lookup_from false w.tlb r

abbrev put_entry : PageWalker → TlbEntry → PageWalker
put_entry w e = record w {
  tlb = set w.tlb w.next_tlb_entry (some e);
  next_tlb_entry = (w.next_tlb_entry + 1) % tlb_entry_count;
}

-- The entry for a finished walk whose pages have the given offset mask.
unfoldable pub entry_for : WalkState → ℕ → ℕ → ℕ → TlbEntry
entry_for state flags address page_mask = record {
  satp = state.request.satp;
  virtual_base = bit_and state.request.virtual_address (not32 page_mask);
  physical_base = bit_and address (not32 page_mask);
  page_mask = page_mask;
  flags = flags;
  global_mapping = state.global_mapping || pte_is_global flags;
}

-- The `match state.level` of `insert_tlb`.
abbrev insert_at : ℕ → PageWalker → WalkState → ℕ → ℕ → PageWalker
insert_at zero w state flags address = put_entry w (entry_for state flags address page_offset_mask)
insert_at (suc zero) w state flags address =
    put_entry w (entry_for state flags address superpage_offset_mask)
insert_at (suc (suc _)) w state flags address = w

unfoldable pub insert_tlb : PageWalker → WalkState → ℕ → ℕ → PageWalker
unfolding entry_for
insert_tlb w state flags address = insert_at state.level w state flags address

-- `TranslationFence`.
unfoldable pub all : TranslationFence
all = record { virtual_address = none; asid = none }

abbrev operand : Option ℕ → ℕ → Option ℕ
operand none value = none
operand (some r) value = if r == 0 then none else some value

unfoldable pub from_operands : Option ℕ → ℕ → Option ℕ → ℕ → TranslationFence
from_operands rs1 rs1_value rs2 rs2_value = record {
  virtual_address = operand rs1 rs1_value;
  asid = operand rs2 (u16 (bit_and rs2_value satp_asid_mask));
}

unfoldable pub is_global : TranslationFence → Bool
is_global f = not (is_some f.virtual_address) && not (is_some f.asid)

abbrev asid_is : Option ℕ → TlbEntry → Bool
asid_is none e = true
asid_is (some asid) e = satp_asid e.satp == asid

unfoldable pub matches_asid : TranslationFence → TlbEntry → Bool
matches_asid f e = if is_some f.asid && e.global_mapping then false else asid_is f.asid e

abbrev address_is : Option ℕ → TlbEntry → Bool
address_is none e = true
address_is (some va) e = bit_and va (not32 e.page_mask) == e.virtual_base

unfoldable pub matches_virtual_address : TranslationFence → TlbEntry → Bool
matches_virtual_address f e = address_is f.virtual_address e

unfoldable pub matches_entry : TranslationFence → TlbEntry → Bool
unfolding matches_asid matches_virtual_address
matches_entry f e = matches_asid f e && matches_virtual_address f e

-- One slot of the loop of `flush_fence`.
unfoldable pub flush_slot : TranslationFence → Option TlbEntry → Option TlbEntry
unfolding matches_entry
flush_slot f none = none
flush_slot f (some e) = if matches_entry f e then none else some e

unfoldable pub flush_fence : PageWalker → TranslationFence → PageWalker
flush_fence w f =
    if is_global f
    then record w { tlb = replicate tlb_entry_count none }
    else record w { tlb = map (flush_slot f) w.tlb }

unfoldable pub flush : PageWalker → PageWalker
unfolding flush_fence
flush w = flush_fence w all

unfoldable pub reset : PageWalker → PageWalker
unfolding flush
reset w = record (flush (record w { active = none })) { next_tlb_entry = 0 }

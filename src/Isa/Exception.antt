-- ===== src/Isa/Exception.antt =====
-- crates/isa/src/exception.rs: interrupts, exceptions and traps.
use rust_computer.Base.{ℕ, ◌^◌, Bool, true, false, bit_or, if◌then◌else◌}

pub data Interrupt : Type 0 where
  supervisor_software machine_software supervisor_timer : Interrupt
  machine_timer supervisor_external machine_external : Interrupt

pub data Exception : Type 0 where
  instruction_address_misaligned instruction_access_fault instruction_page_fault : ℕ → Exception
  illegal_instruction : ℕ → Exception
  breakpoint : Exception
  load_address_misaligned load_access_fault load_page_fault : ℕ → Exception
  store_address_misaligned store_access_fault store_page_fault : ℕ → Exception
  environment_call_from_u_mode environment_call_from_s_mode : Exception
  environment_call_from_m_mode : Exception

pub data Trap : Type 0 where
  exception : Exception → Trap
  interrupt : Interrupt → Trap

-- `Interrupt::cause_code`.
unfoldable pub interrupt_code : Interrupt → ℕ
interrupt_code supervisor_software = 1
interrupt_code machine_software = 3
interrupt_code supervisor_timer = 5
interrupt_code machine_timer = 7
interrupt_code supervisor_external = 9
interrupt_code machine_external = 11

unfoldable pub is_supervisor : Interrupt → Bool
is_supervisor supervisor_software = true
is_supervisor supervisor_timer = true
is_supervisor supervisor_external = true
is_supervisor _ = false

unfoldable pub is_interrupt : Trap → Bool
is_interrupt (interrupt _) = true
is_interrupt (exception _) = false

-- `Trap::cause_code`.
unfoldable pub cause_code : Trap → ℕ
unfolding interrupt_code
cause_code (interrupt i) = interrupt_code i
cause_code (exception (instruction_address_misaligned _)) = 0
cause_code (exception (instruction_access_fault _)) = 1
cause_code (exception (illegal_instruction _)) = 2
cause_code (exception breakpoint) = 3
cause_code (exception (load_address_misaligned _)) = 4
cause_code (exception (load_access_fault _)) = 5
cause_code (exception (store_address_misaligned _)) = 6
cause_code (exception (store_access_fault _)) = 7
cause_code (exception environment_call_from_u_mode) = 8
cause_code (exception environment_call_from_s_mode) = 9
cause_code (exception environment_call_from_m_mode) = 11
cause_code (exception (instruction_page_fault _)) = 12
cause_code (exception (load_page_fault _)) = 13
cause_code (exception (store_page_fault _)) = 15

unfoldable pub cause_bits : Trap → ℕ
unfolding cause_code is_interrupt
cause_bits t = bit_or (cause_code t) (if is_interrupt t then 2 ^ 31 else 0)

unfoldable pub tval : Trap → ℕ
tval (exception (instruction_address_misaligned addr)) = addr
tval (exception (instruction_access_fault addr)) = addr
tval (exception (instruction_page_fault addr)) = addr
tval (exception (illegal_instruction instruction)) = instruction
tval (exception (load_address_misaligned addr)) = addr
tval (exception (load_access_fault addr)) = addr
tval (exception (load_page_fault addr)) = addr
tval (exception (store_address_misaligned addr)) = addr
tval (exception (store_access_fault addr)) = addr
tval (exception (store_page_fault addr)) = addr
tval (exception breakpoint) = 0
tval (exception environment_call_from_u_mode) = 0
tval (exception environment_call_from_s_mode) = 0
tval (exception environment_call_from_m_mode) = 0
tval (interrupt _) = 0

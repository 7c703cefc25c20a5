-- ===== src/Devices/BlockDevice/Commands.antt =====
-- block_device.rs: a command started on an idle device has its effect after the ticks of the latency.
use rust_computer.Base.{
  ℕ, zero, suc, ◌-◌, ◌≡◌, refl, sym, ap, subst, arith, Bool, true, false, Option, none, some,
  is_some, ltb, ◌==◌, if◌then◌else◌,
}
use rust_computer.Devices.BlockDevice.{
  BlockDevice, ActiveCommand, BlockCommand, finish_command, start_command, ticked, tick,
}

unfoldable pub ticks : ℕ → BlockDevice → BlockDevice
ticks zero d = d
ticks (suc n) d = ticks n (tick d)

abbrev running : BlockDevice → BlockCommand → ℕ → BlockDevice
running d kind n = record d { active = some (record { kind = kind; remaining_cycles = n }) }

ticks-running :
    (d : BlockDevice) (kind : BlockCommand) (n : ℕ)
    → ticks (suc n) (running d kind (suc n)) ≡ finish_command (record d { active = none }) kind
unfolding ticks tick ticked
ticks-running d kind zero = refl
ticks-running d kind (suc n) =
    let lasts : ltb 1 (suc (suc n)) ≡ true = ground arith in
    let less : suc (suc n) - 1 ≡ suc n = omega arith in
    subst
      (λ (b : Bool).
        ticks (suc n) (
          if b
          then running d kind (suc (suc n) - 1)
          else finish_command (record d { active = none }) kind)
        ≡ finish_command (record d { active = none }) kind)
      (sym lasts)
      (subst
        (λ (m : ℕ).
          ticks (suc n) (running d kind m) ≡ finish_command (record d { active = none }) kind)
        (sym less) (ticks-running d kind n))

ticks-begun :
    (d : BlockDevice) (kind : BlockCommand) (n : ℕ)
    → d.active ≡ none
    → ticks n (if n == 0 then finish_command d kind else running d kind n)
      ≡ finish_command (record d { active = none }) kind
unfolding ticks
ticks-begun d kind zero idle =
    ap (λ (a : Option ActiveCommand). finish_command (record d { active = a }) kind) idle
ticks-begun d kind (suc n) idle =
    let takes_time : (suc n == 0) ≡ false = ground arith in
    subst
      (λ (b : Bool).
        ticks (suc n) (if b then finish_command d kind else running d kind (suc n))
        ≡ finish_command (record d { active = none }) kind)
      (sym takes_time) (ticks-running d kind n)

-- A command started on a device that runs none, followed by as many ticks as the latency of the
-- device, is the same as the command carried out at once with the status cleared: the block is moved
-- and done is set, or the block index is out of range and error is set.
pub ticks-start_command :
    (d : BlockDevice) (kind : BlockCommand)
    → d.active ≡ none
    → ticks d.operation_latency (start_command d kind)
      ≡ finish_command (record d { done = false; error = false; active = none }) kind
unfolding start_command
ticks-start_command d kind idle =
    rw (ap is_some idle)
      (ticks-begun (record d { done = false; error = false }) kind d.operation_latency idle)

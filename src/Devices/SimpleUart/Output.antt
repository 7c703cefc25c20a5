-- ===== src/Devices/SimpleUart/Output.antt =====
-- simple_uart.rs: the output of the device is what is stored in its transmit register.
use mathlib.Core.List.{append_assoc, append-nil}
use rust_computer.Base.{ℕ, ◌≡◌, sym, ap, Result, ◌∙◌, arith, true, List, [], ◌∷◌, ◌++◌, ok}
use rust_computer.System.Bus.{BusError}
use rust_computer.Devices.SimpleUart.{SimpleUart, offset, store_at, store8}
use rust_computer.System.Address.{contains}

-- The device after the bytes were stored in its transmit register, one after the other.
unfoldable sent : SimpleUart → List ℕ → SimpleUart
sent uart [] = uart
sent uart (byte ∷ bytes) = sent (store8 uart.range.start byte uart).0 bytes

transmitted :
    (uart : SimpleUart) (byte : ℕ)
    → contains uart.range uart.range.start ≡ true
    → (store8 uart.range.start byte uart)
      ≡ (record uart { tx_buffer = uart.tx_buffer ++ byte ∷ [] }, ok tt)
unfolding store8 offset store_at
transmitted uart byte c = ground (arith, c)

-- In a device whose range contains its start, the output is longer by the bytes stored, in their order.
tx_buffer-sent :
    (uart : SimpleUart) (bytes : List ℕ)
    → contains uart.range uart.range.start ≡ true
    → (sent uart bytes).tx_buffer ≡ uart.tx_buffer ++ bytes
unfolding sent
tx_buffer-sent uart [] c = sym (append-nil uart.tx_buffer)
tx_buffer-sent uart (byte ∷ bytes) c =
    ap (λ (x : SimpleUart × Result BusError (Unit {0})). (sent x.0 bytes).tx_buffer)
      (transmitted uart byte c)
    ∙ tx_buffer-sent (record uart { tx_buffer = uart.tx_buffer ++ byte ∷ [] }) bytes c
    ∙ append_assoc uart.tx_buffer (byte ∷ []) bytes

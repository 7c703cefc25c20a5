-- ===== src/Devices/SimpleUart.antt =====
-- crates/devices/src/simple_uart.rs: a transmit register and a status register that always reads
-- ready. The text of `drained_output` is left out: its bytes are `tx_buffer`.
pub mod Output
use rust_computer.Base.{ℕ, ◌+◌, ◌-◌, not, List, [], ◌∷◌, ◌++◌, Result, ok, err, if◌then◌else◌, ◌==◌}
use rust_computer.System.Address.{AddressRange, contains}
use rust_computer.System.Bus.{BusError, unmapped_address, Action}

pub record SimpleUart : Type 0 where
  pub range : AddressRange
  pub tx_buffer : List ℕ

abbrev pub tx_offset : ℕ
tx_offset = 0

abbrev pub status_offset : ℕ
status_offset = 4

unfoldable pub new : ℕ → SimpleUart
new base = record { range = record { start = base; size = 8 }; tx_buffer = [] }

unfoldable pub offset : SimpleUart → ℕ → Result BusError ℕ
offset uart addr =
    if not (contains uart.range addr)
    then err (unmapped_address addr)
    else ok (addr - uart.range.start)

unfoldable pub reset : SimpleUart → SimpleUart
reset uart = record uart { tx_buffer = [] }

unfoldable pub load_at : Result BusError ℕ → Result BusError ℕ
load_at (ok at) = if at == tx_offset then ok 0 else if at == status_offset then ok 1 else ok 0
load_at (err e) = err e

unfoldable pub load8 : ℕ → Action SimpleUart ℕ
load8 addr uart = (uart, load_at (offset uart addr))

unfoldable pub store_at :
    SimpleUart → ℕ → ℕ → Result BusError ℕ → SimpleUart × Result BusError (Unit {0})
store_at uart addr value (ok at) =
    if at == tx_offset
    then (record uart { tx_buffer = uart.tx_buffer ++ value ∷ [] }, ok tt)
    else if at == status_offset
    then (uart, ok tt)
    else (uart, err (unmapped_address addr))
store_at uart addr value (err e) = (uart, err e)

unfoldable pub store8 : ℕ → ℕ → Action SimpleUart (Unit {0})
store8 addr value uart = store_at uart addr value (offset uart addr)

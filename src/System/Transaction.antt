-- ===== src/System/Transaction.antt =====
-- crates/system/src/bus.rs, lines 10 to 14 and 163 to 310: transactions and bursts. Bytes and words
-- stand in lists; `[u8; 4]` is a list of four.
use rust_computer.Bits.{u64}
use rust_computer.Base.{
  ℕ, ◌+◌, ◌*◌, Bool, true, false, List, [], ◌∷◌, ◌&&◌, ◌==◌, length, replicate, get_or, Option,
  none, some, if◌then◌else◌,
}
use rust_computer.System.Bus.{BusError, from_le_bytes4}

pub data AccessKind : Type 0 where
  fetch load store : AccessKind

pub record TransactionRequest : Type 0 where
  pub addr : ℕ
  pub kind : AccessKind
  pub width : ℕ
  pub write_data : List ℕ

unfoldable pub fetch_request : ℕ → TransactionRequest
fetch_request addr = record {
  addr = addr;
  kind = AccessKind.fetch;
  width = 4;
  write_data = replicate 4 0;
}

unfoldable pub load_request : ℕ → ℕ → TransactionRequest
load_request addr width = record {
  addr = addr;
  kind = AccessKind.load;
  width = width;
  write_data = replicate 4 0;
}

unfoldable pub store_request : ℕ → ℕ → List ℕ → TransactionRequest
store_request addr width write_data = record {
  addr = addr;
  kind = AccessKind.store;
  width = width;
  write_data = write_data;
}

-- The derived equality.
abbrev pub same_kind : AccessKind → AccessKind → Bool
same_kind AccessKind.fetch AccessKind.fetch = true
same_kind AccessKind.load AccessKind.load = true
same_kind AccessKind.store AccessKind.store = true
same_kind _ _ = false

abbrev pub same_bytes : List ℕ → List ℕ → Bool
same_bytes [] [] = true
same_bytes (x ∷ xs) (y ∷ ys) = (x == y) && same_bytes xs ys
same_bytes _ _ = false

unfoldable pub same_request : TransactionRequest → TransactionRequest → Bool
same_request r other =
    (r.addr == other.addr)
    && same_kind r.kind other.kind
    && (r.width == other.width)
    && same_bytes r.write_data other.write_data

pub data TransactionResponse : Type 0 where
  read : List ℕ → ℕ → TransactionResponse
  write_complete : TransactionResponse

-- `u32::from_le_bytes` of four bytes in a list.
abbrev pub word_of : List ℕ → ℕ
word_of bytes =
    from_le_bytes4 (get_or bytes 0 0) (get_or bytes 1 0) (get_or bytes 2 0) (get_or bytes 3 0)

unfoldable pub read_u32 : TransactionResponse → Option ℕ
read_u32 (read bytes width) = if width == 4 then some (word_of bytes) else none
read_u32 write_complete = none

pub data TransactionPhase : Type 0 where
  accepted : TransactionPhase
  in_flight : ℕ → TransactionPhase
  ready : TransactionResponse → TransactionPhase
  failed : BusError → TransactionPhase

pub data BurstRequest : Type 0 where
  read_words : ℕ → ℕ → AccessKind → BurstRequest
  write_words : ℕ → List ℕ → BurstRequest

unfoldable pub beats : BurstRequest → ℕ
beats (read_words base_addr n kind) = n
beats (write_words base_addr words) = length words

unfoldable pub base_addr : BurstRequest → ℕ
base_addr (read_words addr n kind) = addr
base_addr (write_words addr words) = addr

unfoldable pub beat_addr : BurstRequest → ℕ → ℕ
beat_addr r beat_index = u64 (base_addr r + beat_index * 4)

unfoldable pub beat_kind : BurstRequest → AccessKind
beat_kind (read_words addr n kind) = kind
beat_kind (write_words addr words) = AccessKind.store

pub data BurstResponse : Type 0 where
  read_words : List ℕ → BurstResponse
  write_complete : ℕ → BurstResponse

-- `accepted` and `in_flight` carry the beat's index and the number of beats.
pub data BurstPhase : Type 0 where
  accepted : ℕ → ℕ → BurstPhase
  in_flight : ℕ → ℕ → ℕ → BurstPhase
  ready : ℕ → BurstPhase
  failed : BusError → BurstPhase

-- ===== src/System/MemoryMap/Blocked.antt =====
-- memory_map.rs: a pending request of the compatibility path keeps every other request waiting.
use rust_computer.Base.{
  ℕ, ◌≡◌, refl, arith, false, Option, some, Result, err, ◌∙◌, subst, sym, max, ◌≤◌,
}
use rust_computer.System.Bus.{BusError, busy}
use rust_computer.System.Device.{Addressable}
use rust_computer.System.MemoryMap.Access.{}
use rust_computer.System.MemoryMap.Bursts.{}
use rust_computer.System.MemoryMap.Requests.{perform_request, drive_compat, tick, wait}
use rust_computer.System.MemoryMap.Transactions.{compat_remaining_cycles}
use rust_computer.System.MemoryMap.{MemoryMap, CompatTransaction}
use rust_computer.System.Transaction.{TransactionRequest, TransactionResponse, same_request}
use rust_computer.System.MemoryMap.Pending.{Keeps, CallKeeps, tick-Keeps}

module _ {D : Type 0} (ops : Addressable D) where
  -- A map after ticks, and after requests other than a given one.
  pub data Without (pending : TransactionRequest) (m : MemoryMap D) : MemoryMap D → Type 0 where
    begun : Without pending m m
    ticks :
        {m' m'' : MemoryMap D}
        → Without pending m m'
        → tick ops m' ≡ some m''
        → Without pending m m''
    requests :
        {m' m'' : MemoryMap D} (r : TransactionRequest) (x : Result BusError TransactionResponse)
        → Without pending m m'
        → same_request pending r ≡ false
        → perform_request ops m' r ≡ some (m'', x)
        → Without pending m m''

  refused :
      (m : MemoryMap D) (c : CompatTransaction) (r : TransactionRequest)
      → m.compat_transaction ≡ some c
      → same_request c.request r ≡ false
      → perform_request ops m r ≡ wait m
  unfolding perform_request drive_compat
  refused m c r e s =
      subst (λ (o : Option CompatTransaction). drive_compat ops m r o ≡ wait m) (sym e) (rw s refl)

  Without-compat :
      (m : MemoryMap D) (c : CompatTransaction) (m' : MemoryMap D)
      → m.compat_transaction ≡ some c
      → Without c.request m m'
      → m'.compat_transaction ≡ some c
  unfolding Keeps CallKeeps
  Without-compat m c _ e begun = e
  Without-compat m c _ e (ticks {m'} {m''} w t) =
      subst (Keeps m'.compat_transaction) t (tick-Keeps ops m') ∙ Without-compat m c m' e w
  Without-compat m c _ e (requests {m'} {m''} r x w s p) =
      let kept_so_far = Without-compat m c m' e w in
      subst (CallKeeps m'.compat_transaction) (sym (refused m' c r kept_so_far s) ∙ p) refl
      ∙ kept_so_far

  -- While a request of the compatibility path is pending, any other request is answered busy and
  -- changes nothing, after any number of ticks and of other requests: the pending one is never
  -- dropped, not even once it has its response.
  pub perform_request-blocked :
      (m m' : MemoryMap D) (c : CompatTransaction) (r : TransactionRequest)
      → m.compat_transaction ≡ some c
      → Without c.request m m'
      → same_request c.request r ≡ false
      → (n : ℕ) × (1 ≤ n) × (perform_request ops m' r ≡ some (m', err (busy n)))
  perform_request-blocked m m' c r e w s = (
    max (compat_remaining_cycles m') 1,
    omega arith,
    refused m' c r (Without-compat m c m' e w) s,
  )

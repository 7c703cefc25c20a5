-- ===== src/System/Bus/Words.antt =====
-- The provided word accesses over a memory of bytes.
use rust_computer.Base.{ℕ, ◌+◌, ◌%◌, ◌^◌, ◌<◌, ◌≡◌, ◌≢◌, refl, arith, ◌∙◌, ◌==◌, ok, true}
use rust_computer.System.Bus.{Action, provided_load32, provided_store32, from_le_bytes4, le_byte}

-- What a memory of bytes promises at the addresses that it holds: its accesses succeed there, a byte
-- reads as it was last written, and neither the other bytes nor the addresses held change.
pub record ByteMemory {S : Type 0} (load8 : ℕ → Action S ℕ) (store8 : ℕ → ℕ → Action S (Unit {0}))
    : Type 1 where
  pub Held : ℕ → S → Type 0
  pub get : ℕ → S → ℕ
  pub put : ℕ → ℕ → S → S
  pub loads : (a : ℕ) (s : S) → Held a s → load8 a s ≡ (s, ok (get a s))
  pub stores : (a v : ℕ) (s : S) → Held a s → store8 a v s ≡ (put a v s, ok tt)
  pub held-put : (a b v : ℕ) (s : S) → Held b s → Held b (put a v s)
  pub get-put : (a v : ℕ) (s : S) → Held a s → get a (put a v s) ≡ v
  pub get-put_ne : (a b v : ℕ) (s : S) → Held a s → Held b s → a ≢ b → get b (put a v s) ≡ get b s

from_le_bytes4-le_byte :
    (v : ℕ)
    → v < 2 ^ 32
    → from_le_bytes4 (le_byte v 0) (le_byte v 1) (le_byte v 2) (le_byte v 3) ≡ v
unfolding from_le_bytes4 le_byte
from_le_bytes4-le_byte v h = omega arith

module _ {S : Type 0} (load8 : ℕ → Action S ℕ) (store8 : ℕ → ℕ → Action S (Unit {0}))
    (m : ByteMemory load8 store8) where
  -- The four bytes of a word are held.
  abbrev pub HeldWord : ℕ → S → Type 0
  HeldWord a s = m.Held a s × m.Held (a + 1) s × m.Held (a + 2) s × m.Held (a + 3) s

  -- The state after one to four bytes of a word are put.
  abbrev stored1 : ℕ → ℕ → S → S
  stored1 a v s = m.put a (le_byte v 0) s

  abbrev stored2 : ℕ → ℕ → S → S
  stored2 a v s = m.put (a + 1) (le_byte v 1) (stored1 a v s)

  abbrev stored3 : ℕ → ℕ → S → S
  stored3 a v s = m.put (a + 2) (le_byte v 2) (stored2 a v s)

  abbrev pub stored : ℕ → ℕ → S → S
  stored a v s = m.put (a + 3) (le_byte v 3) (stored3 a v s)

  put-HeldWord : (a b v : ℕ) (s : S) → HeldWord a s → HeldWord a (m.put b v s)
  put-HeldWord a b v s h = (
    m.held-put b a v s h.0,
    m.held-put b (a + 1) v s h.1,
    m.held-put b (a + 2) v s h.2,
    m.held-put b (a + 3) v s h.3,
  )

  stored-HeldWord :
      (a v : ℕ) (s : S)
      → HeldWord a s
      → HeldWord a (stored1 a v s)
        × HeldWord a (stored2 a v s)
        × HeldWord a (stored3 a v s)
        × HeldWord a (stored a v s)
  stored-HeldWord a v s h =
      let h1 = put-HeldWord a a (le_byte v 0) s h in
      let h2 = put-HeldWord a (a + 1) (le_byte v 1) (stored1 a v s) h1 in
      let h3 = put-HeldWord a (a + 2) (le_byte v 2) (stored2 a v s) h2 in
      (h1, h2, h3, put-HeldWord a (a + 3) (le_byte v 3) (stored3 a v s) h3)

  store32-aligned :
      (a v : ℕ) (s : S)
      → HeldWord a s
      → (a % 4 == 0) ≡ true
      → provided_store32 load8 store8 a v s ≡ (stored a v s, ok tt)
  unfolding provided_store32
  store32-aligned a v s h e =
      let hs = stored-HeldWord a v s h in
      rw
        (
          e,
          m.stores a (le_byte v 0) s h.0,
          m.stores (a + 1) (le_byte v 1) (stored1 a v s) (hs.0).1,
          m.stores (a + 2) (le_byte v 2) (stored2 a v s) (hs.1).2,
          m.stores (a + 3) (le_byte v 3) (stored3 a v s) (hs.2).3,
        )
        refl

  load32-aligned :
      (a : ℕ) (s : S)
      → HeldWord a s
      → (a % 4 == 0) ≡ true
      → provided_load32 load8 store8 a s
        ≡ (s, ok (from_le_bytes4 (m.get a s) (m.get (a + 1) s) (m.get (a + 2) s) (m.get (a + 3) s)))
  unfolding provided_load32
  load32-aligned a s h e =
      rw (e, m.loads a s h.0, m.loads (a + 1) s h.1, m.loads (a + 2) s h.2, m.loads (a + 3) s h.3)
        refl

  stored-bytes :
      (a v : ℕ) (s : S)
      → HeldWord a s
      → (m.get a (stored a v s) ≡ le_byte v 0)
        × (m.get (a + 1) (stored a v s) ≡ le_byte v 1)
        × (m.get (a + 2) (stored a v s) ≡ le_byte v 2)
        × (m.get (a + 3) (stored a v s) ≡ le_byte v 3)
  stored-bytes a v s h =
      let hs = stored-HeldWord a v s h in
      (
        m.get-put_ne (a + 3) a (le_byte v 3) (stored3 a v s) (hs.2).3 (hs.2).0
              (λ e. omega (arith, e))
            ∙ m.get-put_ne (a + 2) a (le_byte v 2) (stored2 a v s) (hs.1).2 (hs.1).0
                (λ e. omega (arith, e))
            ∙ m.get-put_ne (a + 1) a (le_byte v 1) (stored1 a v s) (hs.0).1 (hs.0).0
                (λ e. omega (arith, e))
            ∙ m.get-put a (le_byte v 0) s h.0,
        m.get-put_ne (a + 3) (a + 1) (le_byte v 3) (stored3 a v s) (hs.2).3 (hs.2).1
              (λ e. omega (arith, e))
            ∙ m.get-put_ne (a + 2) (a + 1) (le_byte v 2) (stored2 a v s) (hs.1).2 (hs.1).1
                (λ e. omega (arith, e))
            ∙ m.get-put (a + 1) (le_byte v 1) (stored1 a v s) (hs.0).1,
        m.get-put_ne (a + 3) (a + 2) (le_byte v 3) (stored3 a v s) (hs.2).3 (hs.2).2
              (λ e. omega (arith, e))
            ∙ m.get-put (a + 2) (le_byte v 2) (stored2 a v s) (hs.1).2,
        m.get-put (a + 3) (le_byte v 3) (stored3 a v s) (hs.2).3,
      )

  -- Over a memory of bytes, a word stored by the provided method at an aligned address whose four
  -- bytes the memory holds is what the provided method loads from there.
  pub load32-store32 :
      (a v : ℕ) (s : S)
      → HeldWord a s
      → a % 4 ≡ 0
      → v < 2 ^ 32
      → provided_load32 load8 store8 a (provided_store32 load8 store8 a v s).0
        ≡ (stored a v s, ok v)
  load32-store32 a v s held aligned h =
      let is_aligned : (a % 4 == 0) ≡ true = rw aligned refl in
      let (b0, b1, b2, b3) = stored-bytes a v s held in
      rw
        (
          store32-aligned a v s held is_aligned,
          load32-aligned a (stored a v s) (stored-HeldWord a v s held).3 is_aligned,
          b0,
          b1,
          b2,
          b3,
          from_le_bytes4-le_byte v h,
        )
        refl

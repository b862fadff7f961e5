-- ===== src/Aio/Psync/Balance.antt =====
-- What the synchronous transfer has open, and what it has moved.
use ascend_hal_sharing_probe.Prelude.{
  ℕ, ◌+◌, ◌≡◌, refl, ◌∙◌, ℤ, pos, negsuc, Bool, false, Option, none, some, List, [], ◌∷◌, ◌++◌,
  ◌==◌, subst, sym, arith, if◌then◌else◌,
}
use mathlib.Core.List.{append_assoc}
use ascend_hal_sharing_probe.Effects.{Call, Reply, Trace, World, open_file, transfer, close_file}
use ascend_hal_sharing_probe.Effects.Ledger.{one_if}
use ascend_hal_sharing_probe.Aio.{AioState}
pub use ascend_hal_sharing_probe.Effects.Outcomes.{Ends, Ends-bind, Ends-map}

abbrev is_descriptor : ℕ → ℤ → Bool
is_descriptor n (pos m) = m == n
is_descriptor n (negsuc m) = false

-- How often a call gives the descriptor `n`, and how often it closes it.
abbrev pub opens : ℕ → Call → Reply → ℕ
opens n (open_file block dump) r = one_if (is_descriptor n r.ret)
opens n _ r = 0

abbrev pub closes : ℕ → Call → ℕ
closes n (close_file fd) = one_if (fd == n)
closes n _ = 0

unfoldable pub opened : ℕ → Trace → ℕ
opened n [] = 0
opened n ((c, r) ∷ t) = opened n t + opens n c r

unfoldable pub closed : ℕ → Trace → ℕ
closed n [] = 0
closed n ((c, r) ∷ t) = closed n t + closes n c

abbrev pub holds : ℕ → Option ℕ → ℕ
holds n none = 0
holds n (some fd) = one_if (fd == n)

-- Every descriptor has been closed as often as it was opened.
abbrev pub IsBalanced : World AioState → Type 0
IsBalanced w = (n : ℕ) → opened n w.trace ≡ closed n w.trace

-- The same, but for the one that is open.
abbrev pub IsHeld : World AioState → Type 0
IsHeld w = (n : ℕ) → opened n w.trace ≡ closed n w.trace + holds n w.self.fd

-- The file that a descriptor names: that of the last open that gave it, until it is closed. A file is
-- a block's, opened to write or to read.
abbrev named : ℕ → Call → Reply → Option (ℕ × Bool) → Option (ℕ × Bool)
named n (open_file block dump) r before =
    if is_descriptor n r.ret then some (block, dump) else before
named n (close_file fd) r before = if fd == n then none else before
named n _ r before = before

unfoldable pub file_of : ℕ → Trace → Option (ℕ × Bool)
file_of n [] = none
file_of n ((c, r) ∷ t) = named n c r (file_of n t)

-- One transfer between the buffer, from its start, and a file: `pwrite` or `pread`, and its answer.
pub record Move : Type 0 where
  pub file : Option (ℕ × Bool)
  pub write : Bool
  pub addr : ℕ
  pub bytes : ℕ
  pub offset : ℕ
  pub answer : ℤ

abbrev pub moved : Trace → Call → Reply → List Move
moved t (transfer write fd addr bytes offset) r =
    record {
      file = file_of fd t;
      write = write;
      addr = addr;
      bytes = bytes;
      offset = offset;
      answer = r.ret;
    }
    ∷ []
moved t _ r = []

-- Oldest first.
unfoldable pub moves : Trace → List Move
moves [] = []
moves ((c, r) ∷ t) = moves t ++ moved t c r

-- Each move is one on the file, in the direction for which it is open, and complete; they cover the
-- file's bytes from `a` to `b` in order, without a gap, and the buffer's bytes that lie `base` further
-- on.
abbrev pub Tiles : ℕ × Bool → ℕ → ℕ → ℕ → List Move → Type 0
Tiles file base a b [] = a ≡ b
Tiles file base a b (m ∷ ms) =
    ((m.file ≡ some file) × (m.write ≡ file.1) × (m.answer ≡ pos m.bytes))
    × (m.offset ≡ a)
    × (m.addr ≡ base + a)
    × Tiles file base (a + m.bytes) b ms

pub Tiles-append :
    (file : ℕ × Bool) (base a b c : ℕ) (ms ns : List Move)
    → Tiles file base a b ms
    → Tiles file base b c ns
    → Tiles file base a c (ms ++ ns)
Tiles-append file base a b c [] ns e t = subst (λ k. Tiles file base k c ns) (sym e) t
Tiles-append file base a b c (m ∷ ms) ns (q, o, p, s) t =
    (q, o, p, Tiles-append file base (a + m.bytes) b c ms ns s t)

-- What a part moved between two worlds tiles the bytes from `a` to `b`.
abbrev pub Moved : ℕ × Bool → ℕ → ℕ → ℕ → World AioState → World AioState → Type 0
Moved file base a b w w' =
    (ms : List Move) × (moves w'.trace ≡ moves w.trace ++ ms) × Tiles file base a b ms

pub Moved-trans :
    (file : ℕ × Bool) (base a b c : ℕ) (u v w : World AioState)
    → Moved file base a b u v
    → Moved file base b c v w
    → Moved file base a c u w
Moved-trans file base a b c u v w (ms, e, s) (ns, f, t) =
    (ms ++ ns, f ∙ rw (e, append_assoc) refl, Tiles-append file base a b c ms ns s t)

-- The descriptor that is open names the file.
abbrev pub IsOpenFor : ℕ × Bool → World AioState → Type 0
IsOpenFor file w = (fd : ℕ) → w.self.fd ≡ some fd → file_of fd w.trace ≡ some file

pub none-IsOpenFor : (file : ℕ × Bool) (w : World AioState) → w.self.fd ≡ none → IsOpenFor file w
none-IsOpenFor file w shut fd is_open = absurd (ground (arith, shut, is_open))

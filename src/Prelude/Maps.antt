-- ===== src/Prelude/Maps.antt =====
-- Go maps keyed by an identity (a connection or a pointer), as functions into `Option`.
use Prim.Native.Nat.{ℕ}
use mathlib.Core.Option.{Option, none, some}
use gforward.Prelude.Tests.{◌==◌, if◌then◌else◌}

module _ {ℓ} {V : Type ℓ} where
  abbrev pub empty_map : ℕ → Option V
  empty_map k = none

  -- `m[k] = v`
  abbrev pub insert : ℕ → V → (ℕ → Option V) → ℕ → Option V
  insert k v m j = if k == j then some v else m j

  -- `delete(m, k)`
  abbrev pub delete : ℕ → (ℕ → Option V) → ℕ → Option V
  delete k m j = if k == j then none else m j

  -- A write through a pointer.
  abbrev pub store : ℕ → V → (ℕ → V) → ℕ → V
  store p v heap q = if p == q then v else heap q

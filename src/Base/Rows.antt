-- ===== src/Base/Rows.antt =====
-- Rows of a transition table in run-length form: (how many, entry) with `none` for -1.
use Prim.Native.Nat.{ℕ, ◌-◌}
use mathlib.Core.Option.{Option, none}
use mathlib.Core.List.{List, [], ◌∷◌}
use geminon.Base.Tests.{ltb, if◌then◌else◌}

abbrev pub Row : Type 0
Row = List (ℕ × Option ℕ)

-- the entry at index `c`
abbrev pub entry : Row → ℕ → Option ℕ
entry [] c = none
entry ((n, to) ∷ r) c = if ltb c n then to else entry r (c - n)

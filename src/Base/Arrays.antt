-- ===== src/Base/Arrays.antt =====
-- Arrays of char: reads and writes that fault out of bounds, and the string functions of C.
pub mod Laws
use Prim.Native.Nat.{ℕ, zero, suc, ◌+◌, ◌-◌}
use mathlib.Core.List.{[], ◌∷◌, ◌++◌}
use mathlib.Core.Option
use mathlib.Core.Option.{Option, none, some}
use geminon.Base.Bytes.{Bytes, c_string, starts_with}
use geminon.Base.Lists.{length, set, take, drop, replicate}
use geminon.Base.Run.{Run, ok, fault, ◌>>=◌}
use geminon.Base.Tests.{ltb, leb, ◌==◌, if◌then◌else◌}

-- the value of `a[i]`
unfoldable pub peek : Bytes → ℕ → Run ℕ
peek [] i = fault
peek (x ∷ a) zero = ok x
peek (x ∷ a) (suc i) = peek a i

-- `a[i] = v`
unfoldable pub poke : Bytes → ℕ → ℕ → Run Bytes
poke a i v = if ltb i (length a) then ok (set a i v) else fault

-- `strlen`: a fault if the array holds no NUL
unfoldable pub strlen : Bytes → Run ℕ
strlen [] = fault
strlen (c ∷ a) = if c == 0 then ok 0 else (strlen a >>= λ n. ok (suc n))

-- `strrchr (a, c)`: the offset of the last `c` of the string, `none` for NULL
unfoldable pub strrchr : Bytes → ℕ → Option ℕ
strrchr [] c = none
strrchr (x ∷ a) c =
    let rest = strrchr a c in
    if x == 0
    then none
    else elim rest [ some i ↦ some (suc i) | none ↦ if x == c then some 0 else none ]

-- `memcpy (a + i, bs, length bs)`
unfoldable pub write_at : Bytes → ℕ → Bytes → Run Bytes
write_at a i bs =
    if leb (i + length bs) (length a)
    then ok (take i a ++ (bs ++ drop (i + length bs) a))
    else fault

-- `strncpy (a + i, s, n)`, which fills up with NULs
unfoldable pub strncpy : Bytes → ℕ → Bytes → ℕ → Run Bytes
unfolding write_at
strncpy a i s n = write_at a i (take n s ++ replicate (n - length s) 0)

-- `strcat (a, s)`
unfoldable pub strcat : Bytes → Bytes → Run Bytes
unfolding strlen write_at
strcat a s = strlen a >>= λ n. write_at a n (s ++ 0 ∷ [])

-- `strstr (a, s)`: the offset of the first `s` in the string, `none` for NULL; a fault if the array
-- holds no NUL
unfoldable pub strstr : Bytes → Bytes → Run (Option ℕ)
strstr [] s = fault
strstr (c ∷ a) s =
    let rest = strstr a s >>= λ r. ok (Option.map (λ i. suc i) r) in
    if starts_with (c_string (c ∷ a)) s then ok (some 0) else if c == 0 then ok none else rest

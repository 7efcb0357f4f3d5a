-- ===== src/Base/Bytes.antt =====
-- C strings. A `char *` that points at a terminated string is the list of its bytes before the
-- terminator, as unsigned chars; an array of char is the list of all its bytes.
use Prim.Native.Nat.{ℕ, ◌<◌}
use Prim.Native.Char.{code}
use Prim.Native.String.{String}
use mathlib.Core.Logic.{◌≢◌}
use mathlib.Core.Path.{◌≡◌, refl}
use mathlib.Core.Bool.{Bool, true, false, ◌&&◌}
use mathlib.Core.List.{List, [], ◌∷◌, ◌++◌}
use native.Mathlib.Omega.{arith}
use geminon.Base.Tests.{◌==◌, if◌then◌else◌}
use geminon.Base.Lists.{All}

abbrev pub Bytes : Type 0
Bytes = List ℕ

abbrev pub codes : String → Bytes
codes String.[] = []
codes (String.◌∷◌ c s) = code c ∷ codes s

-- a byte that can stand in a C string
abbrev pub IsChar : ℕ → Type 0
IsChar c = (0 < c) × (c < 256)

abbrev pub IsText : Bytes → Type 0
IsText = All IsChar

-- the string that starts an array: its bytes before the first NUL
abbrev pub c_string : Bytes → Bytes
c_string [] = []
c_string (c ∷ cs) = if c == 0 then [] else c ∷ c_string cs

-- `strcmp (a, b) == 0`
abbrev pub equal : Bytes → Bytes → Bool
equal [] [] = true
equal (x ∷ xs) (y ∷ ys) = x == y && equal xs ys
equal _ _ = false

-- `strncmp (s, t, strlen (t)) == 0`
abbrev pub starts_with : Bytes → Bytes → Bool
starts_with s [] = true
starts_with [] (y ∷ ys) = false
starts_with (x ∷ xs) (y ∷ ys) = x == y && starts_with xs ys

pub c_string-IsText : (t rest : Bytes) → IsText t → c_string (t ++ 0 ∷ rest) ≡ t
c_string-IsText [] rest h = refl
c_string-IsText (c ∷ t) rest h = ground (arith, c_string-IsText t rest h.1)

pub NonZero-IsText : (meta : Bytes) → IsText meta → All (λ c. c ≢ 0) meta
NonZero-IsText [] chars = tt
NonZero-IsText (c ∷ meta) chars = (ground arith, NonZero-IsText meta chars.1)

pub equal-eq : (a b : Bytes) → equal a b ≡ true → a ≡ b
equal-eq [] [] h = refl
equal-eq [] (y ∷ ys) h = cc
equal-eq (x ∷ xs) [] h = cc
equal-eq (x ∷ xs) (y ∷ ys) h = ground (arith, equal-eq xs ys)

pub equal_self : (a : Bytes) → equal a a ≡ true
equal_self [] = refl
equal_self (x ∷ xs) = ground (arith, equal_self xs)

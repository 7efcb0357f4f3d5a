-- ===== src/Fs/Normal.antt =====
-- What a request path stands for, component by component and without the automaton of fs.c.
pub mod Calls
pub mod Exact
pub mod Meaning
pub mod Steps
use geminon.Base.{
  ℕ, zero, suc, ◌≡◌, ◌≢◌, refl, ap, Bool, true, false, ◌||◌, inl, inr, List, [], ◌∷◌, ◌++◌, ◌==◌,
  if◌then◌else◌, All, drop, length, arith,
}
use geminon.Base.Bytes.{Bytes, codes, equal}
use geminon.Fs.Moves.{IsVisible}

-- a byte in front of the first component
abbrev pub widen : ℕ → List Bytes → List Bytes
widen c [] = (c ∷ []) ∷ []
widen c (n ∷ ns) = (c ∷ n) ∷ ns

-- The components of a path, between its slashes.
unfoldable pub components : Bytes → List Bytes
components [] = [] ∷ []
components (c ∷ s) = let rest = components s in if c == b'/' then [] ∷ rest else widen c rest

-- A component, for the dots that are kept and the stack of names so far, the last name first: ".."
-- drops a name, "" nothing; a lone "." is kept, to stand in front of the next name.
unfoldable pub enter : Bytes → List Bytes → Bytes → Bytes × List Bytes
enter dots st c =
    if equal c [] || equal c (codes ".")
    then (dots ++ c, st)
    else if equal c (codes "..")
    then ([], drop 1 st)
    else ([], (dots ++ c) ∷ st)

unfoldable pub settle : Bytes → List Bytes → List Bytes → List Bytes
settle dots st [] = st
settle dots st (c ∷ cs) = let next = enter dots st c in settle next.0 next.1 cs

-- The names of a request path, the last one first.
abbrev pub normal : Bytes → List Bytes
normal s = settle [] [] (components s)

pub components-behind :
    (cur s : Bytes) → All (λ c. c ≢ b'/') cur → components (cur ++ b'/' ∷ s) ≡ cur ∷ components s
unfolding components
components-behind [] s h = refl
components-behind (c ∷ cur) s h =
    let no : (c == b'/') ≡ false = ground arith in rw (components-behind cur s h.1, no) refl

pub components-last : (cur : Bytes) → All (λ c. c ≢ b'/') cur → components cur ≡ cur ∷ []
unfolding components
components-last [] h = refl
components-last (c ∷ cur) h =
    let no : (c == b'/') ≡ false = ground arith in rw (components-last cur h.1, no) refl

pub enter-name :
    (dots : Bytes) (st : List Bytes) (cur : Bytes)
    → IsVisible cur
    → enter dots st cur ≡ ([], (dots ++ cur) ∷ st)
unfolding enter
enter-name dots st [] (inl h) = cc
enter-name dots st [] (inr h) = absurd (omega arith)
enter-name dots st (a ∷ []) (inl h) = ground arith
enter-name dots st (a ∷ []) (inr h) = absurd (omega arith)
enter-name dots st (a ∷ b ∷ []) (inl h) = ground arith
enter-name dots st (a ∷ b ∷ []) (inr h) = absurd (omega arith)
enter-name dots st (a ∷ b ∷ c ∷ cur) h = ground arith

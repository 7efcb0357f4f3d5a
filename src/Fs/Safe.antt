-- ===== src/Fs/Safe.antt =====
-- No resolved path leads above the root, whatever the request.
use geminon.Base.{
  ℕ, suc, ◌+◌, ◌-◌, ◌<◌, ◌≡◌, inl, inr, refl, Bool, true, false, some, none, Option, List, [], ◌∷◌,
  ◌++◌, length, length-replicate, replicate, Bool-cases, ap, ◌∙◌, All, arith, if◌then◌else◌, ◌==◌,
}
use geminon.Base.Bytes.{Bytes, IsText, equal, codes, c_string}
use geminon.Base.Run.{Run, ok, fault, no_fuel}
use geminon.Fs.Moves.{IsName, IsNameChar}
use geminon.Fs.Path.{Holds, NonZero}
use geminon.Fs.Resolve.{join, Resolved, State, Sound, loop-Sound}
use geminon.Fs.{first, max_path, resolve}

-- How a component of a path moves from a directory at depth `d` below the root; `none` above it.
abbrev pub climb : Bytes → ℕ → Option ℕ
climb n d =
    if equal n []
    then some d
    else if equal n (codes ".")
    then some d
    else if equal n (codes "..")
    then (if d == 0 then none else some (d - 1))
    else some (d + 1)

-- The depth that a path leads to, component by component, with the last one first in the list.
abbrev pub depth : List Bytes → Option ℕ
depth [] = some 0
depth (n ∷ cs) = elim (depth cs) [ none ↦ none | some d ↦ climb n d ]

-- The string is a path that never leads above the directory where it starts.
abbrev pub StaysBelow : Bytes → Type 0
StaysBelow t =
    (cs : List Bytes) × (d : ℕ) × (t ≡ join cs) × All (All IsNameChar) cs × (depth cs ≡ some d)

pub c_string-NonZero : (t rest : Bytes) → All NonZero t → c_string (t ++ 0 ∷ rest) ≡ t
c_string-NonZero [] rest h = refl
c_string-NonZero (c ∷ t) rest h = ground (arith, c_string-NonZero t rest h.1)

pub Holds-c_string : {a t : Bytes} → Holds a t → c_string a ≡ t
Holds-c_string {t} h = rw h.shape (c_string-NonZero t h.rest h.chars)

climb-IsName : (n : Bytes) (d : ℕ) → IsName n → climb n d ≡ some (d + 1)
climb-IsName [] d is = elim is.visible [ inl v ↦ cc | inr v ↦ absurd (omega arith) ]
climb-IsName (x ∷ []) d is = elim is.visible [ inl v ↦ ground arith | inr v ↦ absurd (omega arith) ]
climb-IsName (x ∷ y ∷ []) d is = elim is.visible [
  | inl v ↦ ground arith
  | inr v ↦ absurd (omega arith)
]
climb-IsName (x ∷ y ∷ z ∷ r) d is = ground arith

-- A step from a directory below the root does not leave it.
climb_pos : (n : Bytes) (d : ℕ) → 0 < d → (e : ℕ) × (climb n d ≡ some e)
climb_pos n d pos = elim (Bool-cases (equal n [])) [
  | inl a ↦ (d, rw a)
  | inr a ↦ elim (Bool-cases (equal n (codes "."))) [
    | inl b ↦ (d, rw (a, b))
    | inr b ↦ elim (Bool-cases (equal n (codes ".."))) [
      | inl c ↦ (d - 1, rw (a, b, c) (ground arith))
      | inr c ↦ (d + 1, rw (a, b, c))
    ]
  ]
]

depth-names : (cs : List Bytes) → All IsName cs → depth cs ≡ some (length cs)
depth-names [] h = refl
depth-names (n ∷ cs) h =
    rw (depth-names cs h.1) (climb-IsName n (length cs) h.0 ∙ ap some (omega arith))

names-chars : (cs : List Bytes) → All IsName cs → All (All IsNameChar) cs
names-chars [] h = tt
names-chars (n ∷ cs) h = (h.0.chars, names-chars cs h.1)

Resolved-StaysBelow : (cs : List Bytes) → Resolved cs → StaysBelow (join cs)
Resolved-StaysBelow [] h = ([], 0, refl, tt, refl)
Resolved-StaysBelow (n ∷ []) h = (n ∷ [], 1, refl, (h.chars, tt), depth-names (n ∷ []) (h, tt))
Resolved-StaysBelow (n ∷ m ∷ r) h =
    let (e, step) = climb_pos n (suc (length r)) (omega arith) in
    (n ∷ m ∷ r, e, refl, (h.0, names-chars (m ∷ r) h.1), rw (depth-names (m ∷ r) h.1, step))

empty-Holds : (n : ℕ) → n ≡ max_path → Holds (replicate (suc n) 0) []
empty-Holds n e = record {
  rest = replicate n 0;
  shape = refl;
  size = omega (arith, length-replicate {A = ℕ} n 0);
  chars = tt;
}

-- The loop starts with an empty path.
pub start-State : (file : Bytes) → IsText file → State (first file) []
start-State file chars = record {
  held = empty-Holds max_path refl;
  short = omega arith;
  depth = refl;
  names = tt;
  size = length-replicate {A = ℕ} max_path 0;
  chars = chars;
}

-- What `gemini_fs_resolve` may give: NULL, a path that stays below the root, or a fault.
abbrev pub Confined : Run (Option Bytes) → Type 0
Confined (ok none) = Unit
Confined (ok (some a)) = StaysBelow (c_string a)
Confined fault = Unit
Confined no_fuel = ⊥

Sound-Confined : (r : Run (Option Bytes)) → Sound r → Confined r
Sound-Confined (ok none) h = tt
Sound-Confined (ok (some a)) (cs, held, names) =
    rw (Holds-c_string held) (Resolved-StaysBelow cs names)
Sound-Confined fault h = tt
Sound-Confined no_fuel h = absurd h

-- For every request path, `gemini_fs_resolve` ends, and a path that it returns never leads above
-- the directory where it starts: it is a list of components with no slash in them, and no ".." of
-- it meets the root. (It may also return NULL, or write past the end of its array.)
pub resolve-Confined :
    (memory : Bool) (file : Bytes) → IsText file → Confined (resolve memory (some file))
unfolding resolve
resolve-Confined false file chars = tt
resolve-Confined true file chars =
    Sound-Confined _ (loop-Sound (length file + 1) _ [] (start-State file chars) (omega arith))

-- ===== src/Fs/Copy.antt =====
-- The copy of a component into the path, with the room that `left` counts.
use mathlib.Core.List.{append_assoc}
use geminon.Base.{
  ℕ, zero, suc, ◌+◌, ◌-◌, ◌<◌, ◌≤◌, ◌≡◌, [], ◌∷◌, ◌++◌, set, length, length-append, length-set,
  take, drop, arith,
}
use geminon.Base.Arrays.Laws.{poke-append}
use geminon.Base.Arrays.{poke}
use geminon.Base.Bytes.{Bytes}
use geminon.Base.Run.{ok, fault}
use geminon.Fs.{copy}

-- Within both arrays, `left` bytes of the component overwrite as many of the path.
pub copy-take :
    (q a r : Bytes) (left : ℕ)
    → left ≤ length q
    → left ≤ length r
    → copy q (a ++ r) (length a) left ≡ ok (a ++ (take left q ++ drop left r), length a + left)
unfolding copy
copy-take [] a r zero hq hr = ground arith
copy-take [] a r (suc left) hq hr = absurd (omega arith)
copy-take (b ∷ q) a r zero hq hr = ground arith
copy-take (b ∷ q) a [] (suc left) hq hr = absurd (omega arith)
copy-take (b ∷ q) a (x ∷ r) (suc left) hq hr =
    let whole = take left q ++ drop left r in
    let moved : length (a ++ b ∷ []) ≡ length a + 1 = length-append a (b ∷ []) in
    let ends : length a + 1 + left ≡ length a + suc left = omega arith in
    let ih =
      rw (append_assoc a (b ∷ []) r, append_assoc a (b ∷ []) whole, moved, ends) at
        (copy-take q (a ++ b ∷ []) r left (omega arith) (omega arith)) in
    ground (arith, poke-append a x b r, ih)

-- Past the end of the path array the copy faults.
pub copy-fault :
    (q path : Bytes) (p left : ℕ)
    → p ≤ length path
    → length path - p < left
    → length path - p < length q
    → copy q path p left ≡ fault
unfolding copy poke
copy-fault [] path p left h room more = absurd (omega arith)
copy-fault (b ∷ q) path p left h room more =
    ground (arith, copy-fault q (set path p b) (p + 1) (left - 1), length-set path p b)

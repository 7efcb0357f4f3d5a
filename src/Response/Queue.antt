-- ===== src/Response/Queue.antt =====
-- The bytes of `gemini_response_stream` that are still to be written.
use geminon.Base.{
  ℕ, zero, suc, ◌+◌, ◌-◌, ◌≤◌, ◌≡◌, refl, true, [], ◌∷◌, ◌++◌, leb, le→leb, length, length-append,
  length-drop, take, drop, arith,
}
use geminon.Base.Arrays.Laws.{take-length-append, write_at-append}
use geminon.Base.Bytes.{Bytes}
use geminon.Base.Run.{ok}
use geminon.Request.Stream.{move_down}

pub length_zero : (bs : Bytes) → length bs ≡ 0 → bs ≡ []
length_zero [] e = refl
length_zero (b ∷ bs) e = absurd (omega arith)

take-drop : (w : ℕ) (q r : Bytes) → w ≤ length q → take (length q - w) (drop w (q ++ r)) ≡ drop w q
take-drop zero q r h =
    let e : length q - 0 ≡ length q = omega arith in rw e (take-length-append q r)
take-drop (suc w) [] r h = absurd (omega arith)
take-drop (suc w) (x ∷ q) r h =
    let e : suc (length q) - suc w ≡ length q - w = omega arith in
    rw e (take-drop w q r (omega arith))

-- The rest of a queue moves to the front of its buffer.
pub move_down-drop :
    (w : ℕ) (q r : Bytes)
    → w ≤ length q
    → (r' : Bytes) × (move_down (q ++ r) w (length q - w) ≡ ok (drop w q ++ r'))
      × (length (drop w q ++ r') ≡ length (q ++ r))
unfolding move_down
move_down-drop w q r h =
    let size = length-append q r in
    let within : leb (w + (length q - w)) (length (q ++ r)) ≡ true =
      le→leb _ _ (omega (arith, size)) in
    let rest = drop (length (drop w q)) (q ++ r) in
    (
      rest,
      rw (within, take-drop w q r h)
          (write_at-append [] (q ++ r) (drop w q) (omega (arith, size, length-drop w q))),
      omega (
        arith,
        size,
        length-append (drop w q) rest,
        length-drop w q,
        length-drop (length (drop w q)) (q ++ r),
      ),
    )

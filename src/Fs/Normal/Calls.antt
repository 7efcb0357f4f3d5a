-- ===== src/Fs/Normal/Calls.antt =====
-- Which component a call of `s_parse_path` has found.
use mathlib.Core.List.{append_assoc, append-nil}
use geminon.Base.{
  ℕ, zero, suc, ◌-◌, ◌<◌, ◌≡◌, refl, sym, ap, subst, ◌∙◌, some, List, [], ◌∷◌, ◌++◌, drop, All,
  All-append, length, arith,
}
use geminon.Base.Arrays.Laws.{poke-append}
use geminon.Base.Bytes.{Bytes, IsText, c_string}
use geminon.Base.Run.{Run, ok, fault, no_fuel, ◌>>=◌}
use geminon.Fs.Moves.{
  IsNameChar, at, keep, up_end, name_end, put, Puts, move_keep, move_up, move_name, move_full,
  move_put, InScan, kind, next,
}
use geminon.Fs.Stored.{Puts-InScan}
use geminon.Fs.Normal.Meaning.{
  Shape, step-Shape, Puts-Shape, meaning, meaning-behind, meaning-last, meaning-slash, enter-kept,
  enter-up, whole_name,
}
use geminon.Fs.Normal.{components, enter, settle, enter-name}
use geminon.Fs.{Source, Parsed, err, dir, up, end, go, stop, move, finish, scan, parse_path}

-- What a call has done to the stack of names, given what the whole of its string does to it.
abbrev pub Means : (List Bytes → List Bytes) → Run (Parsed × Source) → Type 0
Means f (ok (err, p)) = Unit
Means f (ok (dir, p)) =
    (st : List Bytes) → f st ≡ settle [] (c_string p.buf ∷ st) (components p.src)
Means f (ok (up, p)) = (st : List Bytes) → f st ≡ settle [] (drop 1 st) (components p.src)
Means f (ok (end, p)) = (st : List Bytes) → f st ≡ st
Means f fault = Unit
Means f no_fuel = Unit

Means-along :
    (f g : List Bytes → List Bytes) (run : Run (Parsed × Source))
    → ((st : List Bytes) → f st ≡ g st)
    → Means g run
    → Means f run
Means-along f g (ok (err, p)) e h = tt
Means-along f g (ok (dir, p)) e h = λ st. e st ∙ h st
Means-along f g (ok (up, p)) e h = λ st. e st ∙ h st
Means-along f g (ok (end, p)) e h = λ st. e st ∙ h st
Means-along f g fault e h = tt
Means-along f g no_fuel e h = tt

module _ (dots cur : Bytes) (x : ℕ) (room : Bytes) (kept : All IsNameChar dots)
    (chars : All IsNameChar cur) where
  finish-Means :
      (n : ℕ)
      → InScan n
      → Shape n cur
      → Means (meaning dots cur []) (finish (at n (dots ++ cur) x room))
  unfolding finish settle components enter
  finish-Means zero i h = absurd (omega arith)
  finish-Means (suc zero) i h = λ st. rw h refl
  finish-Means (suc (suc zero)) i h = λ st. rw h refl
  finish-Means (suc (suc (suc zero))) i h = λ st. rw h refl
  finish-Means (suc (suc (suc (suc zero)))) i h = rw (poke-append (dots ++ cur) x 0 room) (λ st.
      meaning-last dots cur st chars
      ∙ ap (λ z. z.1) (enter-name dots st cur h)
      ∙ ap (λ z. z ∷ st) (sym (whole_name dots cur room kept chars)))
  finish-Means (suc (suc (suc (suc (suc n))))) i h = absurd (omega arith)

  -- the round that stores a byte, over the rest of the scan
  put-Means :
      (n to c : ℕ) (s : Bytes)
      → Puts n to c
      → ((y : ℕ) (left : Bytes)
          → Means
              (meaning dots (cur ++ c ∷ []) s)
              (scan (at to (dots ++ (cur ++ c ∷ [])) y left) s))
      → Means (meaning dots cur (c ∷ s)) (
          move (at n (dots ++ cur) x room) c (some to) >>= λ f. elim f [
            | go k ↦ scan k s
            | stop t b ↦ ok (t, record { src = c ∷ s; buf = b })
          ])
  put-Means n to c s p rest = by_room room
    where
      by_room :
          (room : Bytes)
          → Means (meaning dots cur (c ∷ s)) (
              move (at n (dots ++ cur) x room) c (some to) >>= λ f. elim f [
                | go k ↦ scan k s
                | stop t b ↦ ok (t, record { src = c ∷ s; buf = b })
              ])
      by_room [] = rw (move_full (dots ++ cur) c x p) tt
      by_room (y ∷ left) =
          rw (move_put (dots ++ cur) c x y left p, append_assoc dots cur (c ∷ []))
            (Means-along (meaning dots cur (c ∷ s)) (meaning dots (cur ++ c ∷ []) s) _
              (λ st. ap (λ z. settle dots st (components z)) (sym (append_assoc cur (c ∷ []) s)))
              (rest y left))

scan-Means :
    (s : Bytes) (n : ℕ) (dots cur : Bytes) (x : ℕ) (room : Bytes)
    → IsText s
    → InScan n
    → Shape n cur
    → All IsNameChar dots
    → All IsNameChar cur
    → Means (meaning dots cur s) (scan (at n (dots ++ cur) x room) s)
unfolding scan
scan-Means [] n dots cur x room text i h kept chars = finish-Means dots cur x room kept chars n i h
scan-Means (c ∷ s) n dots cur x room text i h kept chars =
    let (to, e, edge) = next n c i text.0.1 (kind c) in
    rw e (elim edge [
      | keep sl a b ↦
          let all = All-append IsNameChar dots cur kept chars in
          rw (b, move_keep (dots ++ cur) c n x room a)
            (Means-along (meaning dots cur (c ∷ s)) (meaning (dots ++ cur) [] s) _
              (λ st.
                meaning-behind dots cur s st sl chars
                ∙ ap (λ z. settle z.0 z.1 (components s)) (enter-kept n dots cur st a h))
              (subst (λ z. Means (meaning (dots ++ cur) [] s) (scan (at 1 z x room) s))
                (append-nil (dots ++ cur))
                (scan-Means s 1 (dots ++ cur) [] x room text.1 (omega arith) refl all tt)))
      | up_end sl a b ↦
          rw (a, b, move_up (dots ++ cur) c x room)
            (λ st.
              meaning-behind dots cur s st sl chars
              ∙ ap (λ z. settle z.0 z.1 (components s)) (enter-up dots cur st (step-Shape cur a h))
              ∙ sym (meaning-slash s (drop 1 st) sl))
      | name_end sl a b ↦
          rw (a, b, move_name (dots ++ cur) c x room)
            (λ st.
              meaning-behind dots cur s st sl chars
              ∙ ap (λ z. settle z.0 z.1 (components s))
                  (enter-name dots st cur (step-Shape cur a h))
              ∙ ap (λ z. settle [] (z ∷ st) (components s))
                  (sym (whole_name dots cur room kept chars))
              ∙ sym (meaning-slash s _ sl))
      | put sl p ↦
          let char : IsNameChar c = (λ z. absurd (omega arith), sl) in
          put-Means dots cur x room kept chars n to c s p λ y left.
            scan-Means s to dots (cur ++ c ∷ []) y left text.1 (Puts-InScan n to c p)
              (Puts-Shape n to c cur p h) kept (All-append IsNameChar cur (c ∷ []) chars (char, tt))
    ])

scan-Means_start :
    (s buf : Bytes)
    → IsText s
    → 0 < length buf
    → Means
        (λ st. settle [] st (components s))
        (scan (record { state = 1; left = length buf - 1; fill = 0; buf = buf }) s)
scan-Means_start s [] text pos = absurd (omega arith)
scan-Means_start s (x ∷ room) text pos =
    let whole : length (x ∷ room) - 1 ≡ length room = omega arith in
    rw whole (scan-Means s 1 [] [] x room text (omega arith) refl tt tt)

-- A call of `s_parse_path` does to the names so far what the components of its string up to where it
-- stops are to do to them.
pub parse_path-Means :
    (p : Source)
    → IsText p.src
    → 0 < length p.buf
    → Means (λ st. settle [] st (components p.src)) (parse_path p)
unfolding parse_path
parse_path-Means p text pos = scan-Means_start p.src p.buf text pos

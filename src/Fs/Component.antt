-- ===== src/Fs/Component.antt =====
-- What one call of `s_parse_path` finds, and where it leaves the string and the buffer.
use geminon.Base.{
  zero, suc, ℕ, some, ◌+◌, ◌-◌, ◌<◌, ◌≤◌, ◌≡◌, refl, [], ◌∷◌, ◌++◌, length, length-append, arith,
}
use geminon.Base.Arrays.Laws.{poke-append}
use geminon.Base.Bytes.{Bytes, IsText}
use geminon.Base.Run.{Run, ok, fault, no_fuel, ◌>>=◌}
use geminon.Fs.Moves.{
  IsName, at, keep, up_end, name_end, put, Puts, move_keep, move_up, move_name, move_full, move_put,
  InScan, kind, next,
}
use geminon.Fs.Stored.{Stored, Puts-InScan, Puts-Stored}
use geminon.Fs.Table.{states}
use geminon.Fs.{Source, Parsed, err, dir, up, end, go, stop, move, finish, scan, parse_path}

-- A call stops at the end of the string or at a slash.
abbrev pub AtSlash : Bytes → Type 0
AtSlash [] = Unit
AtSlash (c ∷ s) = c ≡ b'/'

-- What a call returns, for at most `n` bytes stored or left and a buffer of `m`.
abbrev pub Post : ℕ → ℕ → Run (Parsed × Source) → Type 0
Post n m (ok (err, p)) = m ≤ n
Post n m (ok (dir, p)) =
    (name r : Bytes) × (p.buf ≡ name ++ 0 ∷ r)
    × IsName name
    × (length name + length p.src ≤ n)
    × (length p.buf ≡ m)
    × IsText p.src
    × AtSlash p.src
Post n m (ok (up, p)) = (2 + length p.src ≤ n) × (length p.buf ≡ m) × IsText p.src × AtSlash p.src
Post n m (ok (end, p)) = Unit
Post n m fault = ⊥
Post n m no_fuel = ⊥

module _ (n m : ℕ) (acc : Bytes) (x : ℕ) where
  size_at : (v : ℕ) (room : Bytes) → length acc + length room + 1 ≡ m → length (acc ++ v ∷ room) ≡ m
  size_at v room all = omega (arith, length-append acc (v ∷ room))

  finish-Post :
      (st : ℕ) (room : Bytes)
      → InScan st
      → Stored st acc
      → length acc ≤ n
      → length acc + length room + 1 ≡ m
      → Post n m (finish (at st acc x room))
  unfolding finish
  finish-Post zero room i h le all = absurd (omega arith)
  finish-Post (suc zero) room i h le all = tt
  finish-Post (suc (suc zero)) room i h le all = tt
  finish-Post (suc (suc (suc zero))) room i h le all =
      let two = h.2 refl in (omega arith, size_at x room all, tt, tt)
  finish-Post (suc (suc (suc (suc zero)))) room i h le all = rw (poke-append acc x 0 room) (
    acc,
    room,
    refl,
    record { chars = h.0; visible = h.3 refl },
    omega arith,
    size_at 0 room all,
    tt,
    tt,
  )
  finish-Post (suc (suc (suc (suc (suc st))))) room i h le all = absurd (omega arith)

  -- The round that stores a byte, over the rest of the scan.
  put-Post :
      (st to c : ℕ) (s room : Bytes)
      → Puts st to c
      → length acc + length (c ∷ s) ≤ n
      → length acc + length room + 1 ≡ m
      → ((y : ℕ) (left : Bytes)
          → length (acc ++ c ∷ []) + length left + 1 ≡ m
          → Post n m (scan (at to (acc ++ c ∷ []) y left) s))
      → Post n m (
          move (at st acc x room) c (some to) >>= λ f. elim f [
            | go k ↦ scan k s
            | stop t b ↦ ok (t, record { src = c ∷ s; buf = b })
          ])
  put-Post st to c s [] p le all rest = rw (move_full acc c x p) (omega arith)
  put-Post st to c s (y ∷ left) p le all rest =
      rw (move_put acc c x y left p) (rest y left (omega (arith, length-append acc (c ∷ []))))

Stored-1 : (st : ℕ) (acc : Bytes) → Stored st acc → Stored 1 acc
Stored-1 st acc h =
    (h.0, λ e. absurd (omega arith), λ e. absurd (omega arith), λ e. absurd (omega arith))

module _ (n m : ℕ) where
  scan-Post :
      (s : Bytes) (st : ℕ) (acc : Bytes) (x : ℕ) (room : Bytes)
      → IsText s
      → InScan st
      → Stored st acc
      → length acc + length s ≤ n
      → length acc + length room + 1 ≡ m
      → Post n m (scan (at st acc x room) s)
  unfolding scan
  scan-Post [] st acc x room chars i h le all = finish-Post n m acc x st room i h (omega arith) all
  scan-Post (c ∷ s) st acc x room chars i h le all =
      let (to, e, edge) = next st c i chars.0.1 (kind c) in
      rw e (elim edge [
        | keep sl a b ↦
            rw (b, move_keep acc c st x room a)
              (scan-Post s 1 acc x room chars.1 (omega arith) (Stored-1 st acc h) (omega arith) all)
        | up_end sl a b ↦
            let two = h.2 a in
            rw (a, b, move_up acc c x room) (omega arith, size_at n m acc x x room all, chars, sl)
        | name_end sl a b ↦
            rw (a, b, move_name acc c x room)
              (
                acc,
                room,
                refl,
                record { chars = h.0; visible = h.3 a },
                le,
                size_at n m acc x 0 room all,
                chars,
                sl,
              )
        | put sl p ↦ put-Post n m acc x st to c s room p le all λ y left all'.
            scan-Post s to (acc ++ c ∷ []) y left chars.1 (Puts-InScan st to c p)
              (Puts-Stored st to c acc (λ z. absurd (omega arith), sl) p h)
              (omega (arith, length-append acc (c ∷ []))) all'
      ])

start_Stored : Stored 1 []
start_Stored = (tt, λ e. absurd (omega arith), λ e. absurd (omega arith), λ e. absurd (omega arith))

scan-Post_start :
    (n : ℕ) (s b : Bytes)
    → IsText s
    → length s ≤ n
    → 0 < length b
    → Post n (length b) (scan (record { state = 1; left = length b - 1; fill = 0; buf = b }) s)
scan-Post_start n s [] chars le pos = absurd (omega arith)
scan-Post_start n s (x ∷ room) chars le pos =
    let whole : length (x ∷ room) - 1 ≡ length room = omega arith in
    rw whole (
      scan-Post n (suc (length room)) s 1 [] x room chars (omega arith) start_Stored (omega arith)
        (omega arith))

-- A call of `s_parse_path` with a buffer of at least one byte never faults. It finds a name that is
-- not "", "." or ".." and holds no slash and no NUL, or a step up, and stops at the end of the
-- string or at a slash; or it finds the end of the string; or an error, and that only if the string
-- is at least as long as the buffer.
pub parse_path-Post :
    (p : Source)
    → IsText p.src
    → 0 < length p.buf
    → Post (length p.src) (length p.buf) (parse_path p)
unfolding parse_path
parse_path-Post p chars pos = scan-Post_start (length p.src) p.src p.buf chars (omega arith) pos

-- A leading slash takes no room.
pub parse_path-Post_slash :
    (s b : Bytes)
    → IsText s
    → 0 < length b
    → Post (length s) (length b) (parse_path (record { src = b'/' ∷ s; buf = b }))
unfolding parse_path scan move states
parse_path-Post_slash s b chars pos = scan-Post_start (length s) s b chars (omega arith) pos

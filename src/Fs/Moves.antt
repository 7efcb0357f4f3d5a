-- ===== src/Fs/Moves.antt =====
-- One round of the loop of `s_parse_path`, by state and kind of byte.
use mathlib.Core.List.{append_assoc}
use native.Mathlib.Decide.{ℕ_discrete}
use geminon.Base.{
  zero, suc, ℕ, ◌+◌, ◌-◌, ◌<◌, ◌≡◌, ◌≢◌, refl, ◌⊎◌, inl, inr, Bool, true, false, ◌&&◌, some, [],
  ◌∷◌, ◌++◌, ◌==◌, if◌then◌else◌, length, length-append, All, arith,
}
use geminon.Base.Arrays.Laws.{poke-append}
use geminon.Base.Arrays.{poke}
use geminon.Base.Bytes.{Bytes}
use geminon.Base.Run.{ok, ◌>>=◌}
use geminon.Fs.Table.{states}
use geminon.Fs.{err, dir, up, Scan, go, stop, move}

abbrev pub dots : Bytes → Bool
dots [] = true
dots (c ∷ n) = c == b'.' && dots n

-- Not empty, "." or "..".
abbrev pub IsVisible : Bytes → Type 0
IsVisible n = (dots n ≡ false) ⊎ (2 < length n)

abbrev pub IsNameChar : ℕ → Type 0
IsNameChar c = (c ≢ 0) × (c ≢ b'/')

-- The name of a file below a directory.
pub record IsName (n : Bytes) : Type 0 where
  pub chars : All IsNameChar n
  pub visible : IsVisible n

-- The scan in state `st` with `acc` stored, at the cell `x`.
abbrev pub at : ℕ → Bytes → ℕ → Bytes → Scan
at st acc x room = record {
  state = st;
  left = length room;
  fill = length acc;
  buf = acc ++ x ∷ room;
}

-- The moves that store a byte.
pub data Puts (st to c : ℕ) : Type 0 where
  first_dot : st ≡ 1 → to ≡ 2 → c ≡ b'.' → Puts st to c
  first : st ≡ 1 → to ≡ 4 → c ≢ b'.' → Puts st to c
  second_dot : st ≡ 2 → to ≡ 3 → c ≡ b'.' → Puts st to c
  hidden : st ≡ 2 → to ≡ 4 → c ≢ b'.' → Puts st to c
  third : st ≡ 3 → to ≡ 4 → Puts st to c
  more : st ≡ 4 → to ≡ 4 → Puts st to c

-- The moves of the table from the states that a scan goes through.
pub data Edge (st c to : ℕ) : Type 0 where
  keep : c ≡ b'/' → (st ≡ 1) ⊎ (st ≡ 2) → to ≡ 1 → Edge st c to
  up_end : c ≡ b'/' → st ≡ 3 → to ≡ 1 → Edge st c to
  name_end : c ≡ b'/' → st ≡ 4 → to ≡ 1 → Edge st c to
  put : c ≢ b'/' → Puts st to c → Edge st c to

module _ (acc : Bytes) (c : ℕ) where
  pub move_keep :
      (st x : ℕ) (room : Bytes)
      → (st ≡ 1) ⊎ (st ≡ 2)
      → move (at st acc x room) c (some 1) ≡ ok (go (at 1 acc x room))
  unfolding move
  move_keep st x room (inl a) = rw a
  move_keep st x room (inr a) = rw a

  pub move_up :
      (x : ℕ) (room : Bytes) → move (at 3 acc x room) c (some 1) ≡ ok (stop up (acc ++ x ∷ room))
  unfolding move
  move_up x room = refl

  pub move_name :
      (x : ℕ) (room : Bytes) → move (at 4 acc x room) c (some 1) ≡ ok (stop dir (acc ++ 0 ∷ room))
  unfolding move
  move_name x room = rw (poke-append acc x 0 room)

  pub move_full :
      {st to : ℕ} (x : ℕ)
      → Puts st to c
      → move (at st acc x []) c (some to) ≡ ok (stop err (acc ++ x ∷ []))
  unfolding move
  move_full x (first_dot a b d) = rw (a, b)
  move_full x (first a b d) = rw (a, b)
  move_full x (second_dot a b d) = rw (a, b)
  move_full x (hidden a b d) = rw (a, b)
  move_full x (third a b) = rw (a, b)
  move_full x (more a b) = rw (a, b)

  store_byte :
      (to x y : ℕ) (room : Bytes)
      → (if length (y ∷ room) == 0 then ok (stop err (acc ++ x ∷ y ∷ room)) else (do
        b ← poke (acc ++ x ∷ y ∷ room) (length acc) c
        ok (
            go (record {
              state = to;
              left = length (y ∷ room) - 1;
              fill = length acc + 1;
              buf = b;
            }))))
        ≡ ok (go (at to (acc ++ c ∷ []) y room))
  store_byte to x y room = ground (
    arith,
    poke-append acc x c (y ∷ room),
    append_assoc acc (c ∷ []) (y ∷ room),
    length-append acc (c ∷ []),
  )

  pub move_put :
      {st to : ℕ} (x y : ℕ) (room : Bytes)
      → Puts st to c
      → move (at st acc x (y ∷ room)) c (some to) ≡ ok (go (at to (acc ++ c ∷ []) y room))
  unfolding move
  move_put x y room (first_dot a b d) = rw (a, b) (store_byte 2 x y room)
  move_put x y room (first a b d) = rw (a, b) (store_byte 4 x y room)
  move_put x y room (second_dot a b d) = rw (a, b) (store_byte 3 x y room)
  move_put x y room (hidden a b d) = rw (a, b) (store_byte 4 x y room)
  move_put x y room (third a b) = rw (a, b) (store_byte 4 x y room)
  move_put x y room (more a b) = rw (a, b) (store_byte 4 x y room)

-- The states that a scan goes through.
abbrev pub InScan : ℕ → Type 0
InScan st = (0 < st) × (st < 5)

pub data Kind (c : ℕ) : Type 0 where
  dot : c ≡ b'.' → Kind c
  slash : c ≡ b'/' → Kind c
  other : c ≢ b'.' → c ≢ b'/' → Kind c

pub kind : (c : ℕ) → Kind c
kind c = elim (ℕ_discrete c b'.') [
  | yes e ↦ dot e
  | no d ↦ elim (ℕ_discrete c b'/') [ yes e ↦ slash e | no s ↦ other d s ]
]

abbrev pub Next : ℕ → ℕ → Type 0
Next st c = (to : ℕ) × (states st c ≡ some to) × Edge st c to

dot≢slash : {c : ℕ} → c ≡ b'.' → c ≢ b'/'
dot≢slash e = omega arith

-- The table, by state and kind of byte.
pub next : (st c : ℕ) → InScan st → c < 256 → Kind c → Next st c
unfolding states
next zero c i byte k = absurd (omega arith)
next (suc zero) c i byte (dot e) = (2, rw e, put (dot≢slash e) (first_dot refl refl e))
next (suc zero) c i byte (slash e) = (1, rw e, keep e (inl refl) refl)
next (suc zero) c i byte (other d s) = (4, ground arith, put s (first refl refl d))
next (suc (suc zero)) c i byte (dot e) = (3, rw e, put (dot≢slash e) (second_dot refl refl e))
next (suc (suc zero)) c i byte (slash e) = (1, rw e, keep e (inr refl) refl)
next (suc (suc zero)) c i byte (other d s) = (4, ground arith, put s (hidden refl refl d))
next (suc (suc (suc zero))) c i byte (dot e) = (4, rw e, put (dot≢slash e) (third refl refl))
next (suc (suc (suc zero))) c i byte (slash e) = (1, rw e, up_end e refl refl)
next (suc (suc (suc zero))) c i byte (other d s) = (4, ground arith, put s (third refl refl))
next (suc (suc (suc (suc zero)))) c i byte (dot e) = (4, rw e, put (dot≢slash e) (more refl refl))
next (suc (suc (suc (suc zero)))) c i byte (slash e) = (1, rw e, name_end e refl refl)
next (suc (suc (suc (suc zero)))) c i byte (other d s) = (4, ground arith, put s (more refl refl))
next (suc (suc (suc (suc (suc st))))) c i byte k = absurd (omega arith)

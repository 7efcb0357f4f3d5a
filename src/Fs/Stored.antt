-- ===== src/Fs/Stored.antt =====
-- The bytes that a scan of `s_parse_path` has stored, by its state.
use geminon.Base.{
  ℕ, ◌<◌, ◌≡◌, ◌≢◌, inl, inr, ◌&&◌, [], ◌∷◌, ◌++◌, ◌==◌, length, length-append, All, All-append,
  arith,
}
use geminon.Base.Bytes.{Bytes}
use geminon.Fs.Moves.{
  IsVisible, IsNameChar, dots, InScan, Puts, first_dot, first, second_dot, hidden, third, more,
}

-- What is known of the bytes stored on the way to a state.
abbrev pub Stored : ℕ → Bytes → Type 0
Stored st acc =
    All IsNameChar acc
    × (st ≡ 2 → 0 < length acc)
    × (st ≡ 3 → 1 < length acc)
    × (st ≡ 4 → IsVisible acc)

dots-concat : (acc : Bytes) (c : ℕ) → dots (acc ++ c ∷ []) ≡ (dots acc && c == b'.')
dots-concat [] c = ground arith
dots-concat (x ∷ acc) c = ground (arith, dots-concat acc c)

pub IsVisible-other : (acc : Bytes) (c : ℕ) → c ≢ b'.' → IsVisible (acc ++ c ∷ [])
IsVisible-other acc c d = inl (ground (arith, dots-concat acc c))

pub IsVisible-concat : (acc : Bytes) (c : ℕ) → IsVisible acc → IsVisible (acc ++ c ∷ [])
IsVisible-concat acc c (inl v) = inl (ground (arith, dots-concat acc c))
IsVisible-concat acc c (inr v) = inr (omega (arith, length-append acc (c ∷ [])))

Puts-IsVisible :
    (st to c : ℕ) (acc : Bytes) → Puts st to c → Stored st acc → to ≡ 4 → IsVisible (acc ++ c ∷ [])
Puts-IsVisible st to c acc (first_dot a b d) h e = absurd (omega arith)
Puts-IsVisible st to c acc (first a b d) h e = IsVisible-other acc c d
Puts-IsVisible st to c acc (second_dot a b d) h e = absurd (omega arith)
Puts-IsVisible st to c acc (hidden a b d) h e = IsVisible-other acc c d
Puts-IsVisible st to c acc (third a b) h e =
    let two = h.2 a in inr (omega (arith, length-append acc (c ∷ [])))
Puts-IsVisible st to c acc (more a b) h e = IsVisible-concat acc c (h.3 a)

Puts-third : (st to c : ℕ) (acc : Bytes) → Puts st to c → Stored st acc → to ≡ 3 → 0 < length acc
Puts-third st to c acc (second_dot a b d) h e = h.1 a
Puts-third st to c acc (first_dot a b d) h e = absurd (omega arith)
Puts-third st to c acc (first a b d) h e = absurd (omega arith)
Puts-third st to c acc (hidden a b d) h e = absurd (omega arith)
Puts-third st to c acc (third a b) h e = absurd (omega arith)
Puts-third st to c acc (more a b) h e = absurd (omega arith)

pub Puts-InScan : (st to c : ℕ) → Puts st to c → InScan to
Puts-InScan st to c (first_dot a b d) = omega arith
Puts-InScan st to c (first a b d) = omega arith
Puts-InScan st to c (second_dot a b d) = omega arith
Puts-InScan st to c (hidden a b d) = omega arith
Puts-InScan st to c (third a b) = omega arith
Puts-InScan st to c (more a b) = omega arith

pub Puts-Stored :
    (st to c : ℕ) (acc : Bytes)
    → IsNameChar c
    → Puts st to c
    → Stored st acc
    → Stored to (acc ++ c ∷ [])
Puts-Stored st to c acc n p h = (
  All-append IsNameChar acc (c ∷ []) h.0 (n, tt),
  λ e. omega (arith, length-append acc (c ∷ [])),
  λ e. omega (arith, length-append acc (c ∷ []), Puts-third st to c acc p h e),
  Puts-IsVisible st to c acc p h,
)

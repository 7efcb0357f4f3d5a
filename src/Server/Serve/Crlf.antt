-- ===== src/Server/Serve/Crlf.antt =====
-- Where `strstr` finds the end of a request line.
use geminon.Base.{
  ℕ, ◌<◌, ◌≡◌, ◌≢◌, refl, ap, false, some, none, [], ◌∷◌, ◌++◌, ◌==◌, length, All, length-append,
  arith,
}
use geminon.Base.Arrays.{strstr}
use geminon.Base.Bytes.{Bytes, IsChar}
use geminon.Base.Run.{ok}
use geminon.Server.Serve.{crlf}

-- A text with no CR.
abbrev pub IsLineChar : ℕ → Type 0
IsLineChar c = IsChar c × (c ≢ b'\r')

abbrev pub IsLine : Bytes → Type 0
IsLine = All IsLineChar

same_head : {a b : ℕ} {xs ys : Bytes} → a ∷ xs ≡ b ∷ ys → a ≡ b
same_head e = cc

same_tail : {a b : ℕ} {xs ys : Bytes} → a ∷ xs ≡ b ∷ ys → xs ≡ ys
same_tail e = cc

pub strstr-line :
    (line r : Bytes)
    → IsLine line
    → strstr (line ++ (b'\r' ∷ b'\n' ∷ r)) crlf ≡ ok (some (length line))
unfolding strstr
strstr-line [] r h = refl
strstr-line (c ∷ line) r h =
    let visible : (c == 0) ≡ false = ground arith in
    let other : (c == b'\r') ≡ false = ground arith in
    rw (strstr-line line r h.1, visible, other) refl

-- A part of a line and its end, that is not all of it.
pub strstr-part :
    (line pre later r : Bytes)
    → IsLine line
    → pre ++ later ≡ line ++ crlf
    → 0 < length later
    → strstr (pre ++ 0 ∷ r) crlf ≡ ok none
unfolding strstr
strstr-part line [] later r h e more = refl
strstr-part [] (x ∷ []) later r h e more = let cr : x ≡ b'\r' = same_head e in rw cr refl
strstr-part [] (x ∷ y ∷ pre) later r h e more =
    absurd (omega (arith, ap length e, length-append pre later))
strstr-part (c ∷ line) (x ∷ pre) later r h e more =
    let same : x ≡ c = same_head e in
    let visible : (x == 0) ≡ false = ground arith in
    let other : (x == b'\r') ≡ false = ground arith in
    rw (strstr-part line pre later r h.1 (same_tail e) more, visible, other) refl

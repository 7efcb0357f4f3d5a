-- ===== src/Server/Serve/Short.antt =====
-- Request lines of peers that send little, and the URLs in them.
use mathlib.Core.List.{append_assoc}
use geminon.Base.{
  ℕ, zero, suc, ◌+◌, ◌-◌, ◌<◌, ◌≤◌, ◌≡◌, refl, sym, ap, subst, ◌==◌, false, ◌∙◌, Option, none, some,
  [], ◌∷◌, ◌++◌, All-append, length, length-append, length-set, length-drop, set, drop, arith,
}
use geminon.Base.Arrays.{poke, strstr, write_at}
use geminon.Base.Arrays.Laws.{poke-set, strstr-set, AtMost, write_at-append}
use geminon.Base.Bytes.{Bytes, IsChar, IsText, c_string}
use geminon.Base.Run.{ok}
use geminon.Server.Serve.{crlf, got_bytes, readto_loop, readto}
use geminon.Tls.{Tls, ReadsLawful, Sending}

-- A C string of at most 2047 bytes.
abbrev pub IsBrief : Bytes → Type 0
IsBrief s = IsText s × (length s ≤ 2047)

All-split : (xs ys : Bytes) → IsText (xs ++ ys) → IsText xs × IsText ys
All-split [] ys h = (tt, h)
All-split (x ∷ xs) ys (first, h) = let (front, back) = All-split xs ys h in ((first, front), back)

-- what a NUL cuts off from an array that holds a text and a NUL
cut-IsText :
    (pre r : Bytes) (p : ℕ)
    → IsText pre
    → p ≤ length pre
    → IsText (c_string (set (set (pre ++ r) (length pre) 0) p 0))
      × (length (c_string (set (set (pre ++ r) (length pre) 0) p 0)) ≤ length pre)
cut-IsText [] [] p h le = (tt, omega arith)
cut-IsText [] (x ∷ r) zero h le = (tt, omega arith)
cut-IsText [] (x ∷ r) (suc p) h le = absurd (omega arith)
cut-IsText (b ∷ pre) r zero h le = (tt, omega arith)
cut-IsText (b ∷ pre) r (suc p) h le =
    let (chars, short) = cut-IsText pre r p h.1 (omega arith) in
    let kept : (b == 0) ≡ false = ground arith in rw kept ((h.0, chars), omega arith)

set-append : (pre r : Bytes) → set (pre ++ r) (length pre) 0 ≡ pre ++ set r 0 0
set-append [] r = refl
set-append (b ∷ pre) r = ap (λ z. b ∷ z) (set-append pre r)

ok-inj : {A : Type 0} {a b : A} → ok a ≡ ok b → a ≡ b
ok-inj e = cc

some_position : {a b : ℕ} → ok (some a) ≡ ok (some b) → a ≡ b
some_position e = cc

module _ (t : Tls) (i : Sending t) where
  open i use {pending}

  -- the line in a buffer that `s_readto` has filled
  abbrev pub Brief : Option ℕ × Bytes × t.Conn → Type 0
  Brief (none, dst, c) = Unit
  Brief (some n, dst, c) =
      (p : ℕ) → strstr dst crlf ≡ ok (some p) → IsBrief (c_string (set dst p 0))

  module _ (reads : ReadsLawful t) where
    -- what a round leaves, for the rounds to come
    abbrev Briefly : ℕ → Type 0
    Briefly k =
        (pre r : Bytes) (len : ℕ) (c : t.Conn) (y : Option ℕ × Bytes × t.Conn)
        → length (pre ++ r) ≡ len
        → length pre < len
        → IsText pre
        → IsText (pending c)
        → length pre + length (pending c) ≤ 2047
        → readto_loop t k (pre ++ r) len (length pre) crlf c ≡ ok y
        → Brief y

    -- the choice of a round, for the text `pre` that is in the buffer
    turn-Brief :
        (k : ℕ) (pre r : Bytes) (len n : ℕ) (c : t.Conn) (y : Option ℕ × Bytes × t.Conn)
        → Briefly k
        → n ≡ length pre
        → length (pre ++ r) ≡ len
        → length pre < len
        → IsText pre
        → IsText (pending c)
        → length pre + length (pending c) ≤ 2047
        → (o : Option ℕ) → strstr (set (pre ++ r) (length pre) 0) crlf ≡ ok o
        → AtMost (length pre) o
        → elim o [
          | some i ↦ ok (some n, set (pre ++ r) (length pre) 0, c)
          | none ↦ readto_loop t k (set (pre ++ r) (length pre) 0) len n crlf c
        ]
          ≡ ok y
        → Brief y
    turn-Brief k pre r len n c y again count size lt chars coming short (some q) found le e =
        subst Brief (ok-inj e) line
      where
        line : Brief (some n, set (pre ++ r) (length pre) 0, c)
        line p at =
            let same : q ≡ p = some_position (sym found ∙ at) in
            let (text, most) = cut-IsText pre r p chars (omega arith) in (text, omega arith)
    turn-Brief k pre r len n c y again count size lt chars coming short none found le e =
        again pre (set r 0 0) len c y
          (ap length (sym (set-append pre r)) ∙ length-set (pre ++ r) (length pre) 0 ∙ size) lt
          chars coming short (rw (set-append pre r, count) at e)

    round-Brief :
        (k : ℕ) (pre r : Bytes) (len : ℕ) (c : t.Conn) (y : Option ℕ × Bytes × t.Conn)
        → Briefly k
        → length (pre ++ r) ≡ len
        → length pre < len
        → IsText pre
        → IsText (pending c)
        → length pre + length (pending c) ≤ 2047
        → (x : Option Bytes × t.Conn) → t.read_ex c (len - 1 - length pre) ≡ x
        → got_bytes t (λ d n. readto_loop t k d len n crlf) (pre ++ r) (length pre) crlf x ≡ ok y
        → Brief y
    unfolding got_bytes
    round-Brief k pre r len c y again size lt chars coming short (none, c') read e =
        subst Brief (ok-inj e) tt
    round-Brief k pre r len c y again size lt chars coming short (some bs, c') read e =
        let got : (t.read_ex c (len - 1 - length pre)).0 ≡ some bs = ap (λ z. z.0) read in
        let most : length bs ≤ len - 1 - length pre = reads.bounded c (len - 1 - length pre) got in
        let all : pending c ≡ bs ++ pending c' =
          i.gives c (len - 1 - length pre) got ∙ ap (λ z. bs ++ pending z.1) read in
        let (bytes, later) = All-split bs (pending c') (subst IsText all coming) in
        let pre' = pre ++ bs in
        let r' = drop (length bs) r in
        let place : length pre + length bs ≡ length pre' = sym (length-append pre bs) in
        let room : length bs ≤ length r = omega (arith, length-append pre r) in
        let stored : write_at (pre ++ r) (length pre) bs ≡ ok (pre' ++ r') =
          write_at-append pre r bs room ∙ ap ok (sym (append_assoc pre bs r')) in
        let size' : length (pre' ++ r') ≡ len =
          omega (arith, length-append pre r, length-append pre' r', length-drop (length bs) r) in
        let lt' : length pre' < len = omega (arith, length-append pre r) in
        let ended : poke (pre' ++ r') (length pre + length bs) 0
            ≡ ok (set (pre' ++ r') (length pre') 0) =
          rw place (poke-set (pre' ++ r') (length pre') 0 (omega arith)) in
        let (o, found, le) =
          strstr-set (pre' ++ r') (length pre') b'\r' (b'\n' ∷ []) (omega arith) in
        turn-Brief k pre' r' len (length pre + length bs) c' y again place size' lt'
          (All-append IsChar pre bs chars bytes) later
          (omega (arith, ap length all, length-append bs (pending c'))) o found le
          (rw (stored, ended, found) at e)

    readto_loop-Brief : (k : ℕ) → Briefly k
    unfolding readto_loop
    readto_loop-Brief zero pre r len c y size lt chars coming short e = cc
    readto_loop-Brief (suc k) pre r len c y size lt chars coming short e =
        round-Brief k pre r len c y (readto_loop-Brief k) size lt chars coming short
          (t.read_ex c (len - 1 - length pre)) refl e

    -- Of a peer that is about to send a text of at most 2047 bytes, the line that `s_readto` finds is a
    -- text of at most so many bytes.
    pub readto-Brief :
        (r : Bytes) (len : ℕ) (c : t.Conn) (y : Option ℕ × Bytes × t.Conn)
        → length r ≡ len
        → 0 < len
        → IsBrief (pending c)
        → readto t r len crlf c ≡ ok y
        → Brief y
    unfolding readto
    readto-Brief r len c y size pos (chars, short) e =
        readto_loop-Brief (suc len) [] r len c y size pos tt chars (omega arith) e

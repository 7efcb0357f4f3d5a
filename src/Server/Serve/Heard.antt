-- ===== src/Server/Serve/Heard.antt =====
-- The request line that `s_readto` hears, of a peer that sends one.
use mathlib.Core.List.{append_assoc, append-nil}
use geminon.Base.{
  ℕ, zero, suc, ◌+◌, ◌-◌, ◌<◌, ◌≤◌, ◌≡◌, refl, sym, ap, ◌∙◌, Option, none, some, [], ◌∷◌, ◌++◌,
  length, length-append, length-drop, drop, arith,
}
use geminon.Base.Arrays.{poke, strstr, write_at}
use geminon.Base.Arrays.Laws.{poke-append, write_at-append}
use geminon.Base.Bytes.{Bytes}
use geminon.Base.Run.{Run, ok, ◌>>=◌}
use geminon.Fs.Path.{drop-cons}
use geminon.Server.Serve.Crlf.{IsLine, strstr-line, strstr-part}
use geminon.Server.Serve.{crlf, got_bytes, readto_loop, readto}
use geminon.Tls.{Tls, ReadsLawful, Sending}

-- bytes behind others, with room for one more
write_at-behind :
    (pre r bs : Bytes)
    → length bs < length r
    → (v : ℕ) × (rest : Bytes) × (write_at (pre ++ r) (length pre) bs
        ≡ ok ((pre ++ bs) ++ v ∷ rest))
      × (length rest + length bs + 1 ≡ length r)
write_at-behind pre r bs fits =
    let (v, at) = drop-cons (length bs) r fits in
    let rest = drop (suc (length bs)) r in
    (
      v,
      rest,
      write_at-append pre r bs (omega arith)
          ∙ ap ok (sym (append_assoc pre bs (drop (length bs) r)) ∙ ap (λ z. (pre ++ bs) ++ z) at),
      omega (arith, length-drop (suc (length bs)) r),
    )

module _ (t : Tls) (i : Sending t) (line : Bytes) where
  open i use {pending}

  -- The whole line is in the buffer, or a read with room for a byte has failed.
  abbrev pub Heard : ℕ → Option ℕ × Bytes × t.Conn → Type 0
  Heard len (none, dst, c') =
      (length dst ≡ len) × ((c : t.Conn) × (k : ℕ) × (0 < k) × (t.read_ex c k ≡ (none, c')))
  Heard len (some n, dst, c') =
      (n ≡ length line + 2)
      × (length dst ≡ len)
      × ((r : Bytes) × (dst ≡ line ++ (b'\r' ∷ b'\n' ∷ 0 ∷ r)))

  abbrev Ends : ℕ → Run (Option ℕ × Bytes × t.Conn) → Type 0
  Ends len run = (y : Option ℕ × Bytes × t.Conn) × (run ≡ ok y) × Heard len y

  module _ (reads : ReadsLawful t) (is : IsLine line) where
    -- what the rounds to come do
    abbrev Hears : ℕ → Type 0
    Hears k =
        (pre r : Bytes) (len n : ℕ) (c : t.Conn)
        → n ≡ length pre
        → length (pre ++ r) ≡ len
        → pre ++ pending c ≡ line ++ crlf
        → 0 < length (pending c)
        → length line + 2 < len
        → len ≤ k + n
        → Ends len (readto_loop t k (pre ++ r) len n crlf c)

    -- the choice of a round, for the bytes `pre` that are in the buffer
    turn-Ends :
        (k : ℕ) (pre rest : Bytes) (len n : ℕ) (c : t.Conn)
        → Hears k
        → n ≡ length pre
        → length (pre ++ 0 ∷ rest) ≡ len
        → pre ++ pending c ≡ line ++ crlf
        → length line + 2 < len
        → len ≤ k + n
        → (later : Bytes) → pending c ≡ later
        → Ends len (
            strstr (pre ++ 0 ∷ rest) crlf >>= λ o. elim o [
              | some i ↦ ok (some n, pre ++ 0 ∷ rest, c)
              | none ↦ readto_loop t k (pre ++ 0 ∷ rest) len n crlf c
            ])
    turn-Ends k pre rest len n c again count size parts room enough [] e =
        let whole : pre ≡ line ++ crlf =
          sym (append-nil pre) ∙ ap (λ z. pre ++ z) (sym e) ∙ parts in
        let shape : pre ++ 0 ∷ rest ≡ line ++ (b'\r' ∷ b'\n' ∷ 0 ∷ rest) =
          ap (λ z. z ++ 0 ∷ rest) whole ∙ append_assoc line crlf (0 ∷ rest) in
        let found : strstr (pre ++ 0 ∷ rest) crlf ≡ ok (some (length line)) =
          rw shape (strstr-line line (0 ∷ rest) is) in
        (
          (some n, pre ++ 0 ∷ rest, c),
          rw found refl,
          (omega (arith, ap length whole, length-append line crlf), size, (rest, shape)),
        )
    turn-Ends k pre rest len n c again count size parts room enough (b ∷ bs) e =
        let some_left : 0 < length (pending c) = omega (arith, ap length e) in
        rw (strstr-part line pre (pending c) rest is parts some_left)
          (again pre (0 ∷ rest) len n c count size parts some_left room enough)

    round-Ends :
        (k : ℕ) (pre r : Bytes) (len n : ℕ) (c : t.Conn)
        → Hears k
        → n ≡ length pre
        → length (pre ++ r) ≡ len
        → pre ++ pending c ≡ line ++ crlf
        → 0 < length (pending c)
        → length line + 2 < len
        → len ≤ suc k + n
        → (x : Option Bytes × t.Conn) → t.read_ex c (len - 1 - n) ≡ x
        → Ends len (got_bytes t (λ d m. readto_loop t k d len m crlf) (pre ++ r) n crlf x)
    unfolding got_bytes
    round-Ends k pre r len n c again count size parts more room enough (none, c') read =
        let part : length pre + length (pending c) ≡ length line + 2 =
          sym (length-append pre (pending c)) ∙ ap length parts ∙ length-append line crlf in
        ((none, pre ++ r, c'), refl, (size, (c, len - 1 - n, omega arith, read)))
    round-Ends k pre r len n c again count size parts more room enough (some bs, c') read =
        let got : (t.read_ex c (len - 1 - n)).0 ≡ some bs = ap (λ z. z.0) read in
        let most = reads.bounded c (len - 1 - n) got in
        let some_bytes = reads.progress c (len - 1 - n) got in
        let all : pending c ≡ bs ++ pending c' =
          i.gives c (len - 1 - n) got ∙ ap (λ z. bs ++ pending z.1) read in
        let (v, rest, stored, left) =
          write_at-behind pre r bs (omega (arith, length-append pre r)) in
        let stored' : write_at (pre ++ r) n bs ≡ ok ((pre ++ bs) ++ v ∷ rest) =
          ap (λ m. write_at (pre ++ r) m bs) count ∙ stored in
        let place : n + length bs ≡ length (pre ++ bs) = omega (arith, length-append pre bs) in
        let ended : poke ((pre ++ bs) ++ v ∷ rest) (n + length bs) 0
            ≡ ok ((pre ++ bs) ++ 0 ∷ rest) =
          rw place (poke-append (pre ++ bs) v 0 rest) in
        rw (stored', ended)
          (turn-Ends k (pre ++ bs) rest len (n + length bs) c' again place
            (omega (
              arith,
              length-append (pre ++ bs) (0 ∷ rest),
              length-append pre bs,
              length-append pre r,
              left,
            ))
            (append_assoc pre bs (pending c') ∙ ap (λ z. pre ++ z) (sym all) ∙ parts) room
            (omega arith) (pending c') refl)

    readto_loop-Hears : (k : ℕ) → Hears k
    unfolding readto_loop
    readto_loop-Hears zero pre r len n c count size parts more room enough = absurd (
        omega (
          arith,
          length-append pre r,
          length-append pre (pending c),
          ap length parts,
          length-append line crlf,
        ))
    readto_loop-Hears (suc k) pre r len n c count size parts more room enough =
        round-Ends k pre r len n c (readto_loop-Hears k) count size parts more room enough
          (t.read_ex c (len - 1 - n)) refl

    -- Of a peer that is about to send a line with room for it in the buffer, `s_readto` reads just this
    -- line, in however many reads, or one of them fails.
    pub readto-Heard :
        (buf : Bytes) (len : ℕ) (c : t.Conn)
        → length buf ≡ len
        → pending c ≡ line ++ crlf
        → length line + 2 < len
        → Ends len (readto t buf len crlf c)
    unfolding readto
    readto-Heard buf len c size coming room =
        readto_loop-Hears (suc len) [] buf len 0 c refl size coming
          (omega (arith, ap length coming, length-append line crlf)) room (omega arith)

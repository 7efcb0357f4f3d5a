-- ===== src/Server/Serve/Line.antt =====
-- The request line that `s_readto` reads.
use geminon.Base.{
  ℕ, zero, suc, ◌+◌, ◌-◌, ◌<◌, ◌≤◌, ◌≡◌, refl, ap, ◌∙◌, Option, none, some, ◌∷◌, length, length-set,
  set, arith,
}
use geminon.Base.Arrays.{poke, strstr}
use geminon.Base.Arrays.Laws.{AtMost, strstr-set, poke-set, length-write_at}
use geminon.Base.Bytes.{Bytes}
use geminon.Base.Run.{ok}
use geminon.Server.Serve.{got_bytes, readto_loop, readto}
use geminon.Tls.{Tls, ReadsLawful}

module _ (t : Tls) where
  -- What the call returns: -1, or a number of bytes for a string in the buffer that holds `end`.
  abbrev pub HasLine : (len : ℕ) → Bytes → Option ℕ × Bytes × t.Conn → Type 0
  HasLine len end (none, dst, c) = length dst ≡ len
  HasLine len end (some n, dst, c) =
      (length dst ≡ len)
      × (0 < n)
      × (n < len)
      × ((p : ℕ) × (strstr dst end ≡ ok (some p)) × (p < len))

  module _ (reads : ReadsLawful t) (x : ℕ) (more : Bytes) where
    abbrev end : Bytes
    end = x ∷ more

    -- the choice of a round
    turn :
        (k len ntotal : ℕ) (dst : Bytes) (c : t.Conn) (r : Option ℕ)
        → length dst ≡ len
        → 0 < ntotal
        → ntotal < len
        → strstr dst end ≡ ok r
        → AtMost ntotal r
        → (y : Option ℕ × Bytes × t.Conn) × (readto_loop t k dst len ntotal end c ≡ ok y)
          × HasLine len end y
        → (y : Option ℕ × Bytes × t.Conn) × (elim r [
          | some i ↦ ok (some ntotal, dst, c)
          | none ↦ readto_loop t k dst len ntotal end c
        ]
            ≡ ok y)
          × HasLine len end y
    turn k len ntotal dst c (some p) size pos lt e le again =
        ((some ntotal, dst, c), refl, (size, pos, lt, (p, e, omega arith)))
    turn k len ntotal dst c none size pos lt e le again = again

    -- a round, for rounds to come that do what they should
    got_bytes-HasLine :
        (k : ℕ) (dst : Bytes) (len ntotal : ℕ) (c : t.Conn)
        → length dst ≡ len
        → ntotal < len
        → len ≤ suc k + ntotal
        → ((d : Bytes) (n : ℕ) (c' : t.Conn)
            → length d ≡ len
            → n < len
            → len ≤ k + n
            → (y : Option ℕ × Bytes × t.Conn) × (readto_loop t k d len n end c' ≡ ok y)
              × HasLine len end y)
        → (r : Option Bytes × t.Conn) → t.read_ex c (len - 1 - ntotal) ≡ r
        → (y : Option ℕ × Bytes × t.Conn) × (got_bytes t
              (λ d n. readto_loop t k d len n end)
              dst
              ntotal
              end
              r
            ≡ ok y)
          × HasLine len end y
    unfolding got_bytes
    got_bytes-HasLine k dst len ntotal c size lt enough again (none, c') e =
        ((none, dst, c'), refl, size)
    got_bytes-HasLine k dst len ntotal c size lt enough again (some bs, c') e =
        let got : (t.read_ex c (len - 1 - ntotal)).0 ≡ some bs = ap (λ z. z.0) e in
        let most : length bs ≤ len - 1 - ntotal = reads.bounded c (len - 1 - ntotal) got in
        let some_bytes : 0 < length bs = reads.progress c (len - 1 - ntotal) got in
        let m = ntotal + length bs in
        let (d, stored, kept) = length-write_at dst ntotal bs (omega arith) in
        let ended : poke d m 0 ≡ ok (set d m 0) = poke-set d m 0 (omega arith) in
        let size' : length (set d m 0) ≡ len = length-set d m 0 ∙ kept ∙ size in
        let (r, found, le) = strstr-set d m x more (omega arith) in
        rw (stored, ended, found)
          (turn k len m (set d m 0) c' r size' (omega arith) (omega arith) found le
            (again (set d m 0) m c' size' (omega arith) (omega arith)))

    readto_loop-HasLine :
        (k : ℕ) (dst : Bytes) (len ntotal : ℕ) (c : t.Conn)
        → length dst ≡ len
        → ntotal < len
        → len ≤ k + ntotal
        → (y : Option ℕ × Bytes × t.Conn) × (readto_loop t k dst len ntotal end c ≡ ok y)
          × HasLine len end y
    unfolding readto_loop
    readto_loop-HasLine zero dst len ntotal c size lt enough = absurd (omega arith)
    readto_loop-HasLine (suc k) dst len ntotal c size lt enough =
        got_bytes-HasLine k dst len ntotal c size lt enough
          (λ d n c' s l m. readto_loop-HasLine k d len n c' s l m) (t.read_ex c (len - 1 - ntotal))
          refl

    -- `s_readto` ends, and stays within its buffer, however the bytes arrive: it returns -1, or a
    -- number of bytes that leaves room for the NUL, and then `strstr` finds `end` in the buffer.
    pub readto-HasLine :
        (dst : Bytes) (len : ℕ) (c : t.Conn)
        → length dst ≡ len
        → 0 < len
        → (y : Option ℕ × Bytes × t.Conn) × (readto t dst len end c ≡ ok y) × HasLine len end y
    unfolding readto
    readto-HasLine dst len c size pos =
        readto_loop-HasLine (suc len) dst len 0 c size pos (omega arith)

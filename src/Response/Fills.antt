-- ===== src/Response/Fills.antt =====
-- What `gemini_response_read` puts into its buffer.
use mathlib.Core.List.{append_assoc, append-nil}
use geminon.Base.{
  ℕ, zero, suc, ◌+◌, ◌-◌, ◌<◌, ◌≤◌, ◌≡◌, refl, sym, ap, ap₂, ◌∙◌, Bool, true, false, ◌⊎◌, inl, inr,
  Bool-cases, Option, none, some, [], ◌++◌, ltb, ◌==◌, ==_iff, length, length-append, length-drop,
  drop, drop-drop, arith,
}
use geminon.Base.Arrays.Laws.{write_at-append}
use geminon.Base.Bytes.{Bytes}
use geminon.Base.Run.{Run, ok}
use geminon.Response.{gained, read_loop, response_read}
use geminon.Tls.{Tls, Reading, got, shut, error, Incoming}

module _ (t : Tls) (i : Incoming t) where
  open t use {Conn, read}
  open i use {pending}

  -- A read failed, and the connection is as that read has left it.
  abbrev pub Broken : Conn → Type 0
  Broken c' = (c : Conn) × (n : ℕ) × (t.read c n ≡ (error, c'))

  -- The buffer `pre ++ r` after a call for `n` bytes behind `pre`, with `total` bytes before.
  abbrev pub Filled : (pre r : Bytes) (n total : ℕ) → Conn → Option ℕ × Bytes × Conn → Type 0
  Filled pre r n total c (none, m, c') = Broken c'
  Filled pre r n total c (some v, m, c') =
      (bs : Bytes) × (v ≡ total + length bs)
      × (length bs ≤ n)
      × (m ≡ (pre ++ bs) ++ drop (length bs) r)
      × (pending c ≡ bs ++ pending c')
      × ((length bs ≡ n) ⊎ (pending c' ≡ []))

  abbrev Fills : (pre r : Bytes) (n total : ℕ) → Conn → Run (Option ℕ × Bytes × Conn) → Type 0
  Fills pre r n total c run =
      (y : Option ℕ × Bytes × Conn) × (run ≡ ok y) × Filled pre r n total c y

  -- what later reads add to that of `bs`
  Filled-more :
      (pre r bs : Bytes) (n total : ℕ) (c c₁ : Conn) (y : Option ℕ × Bytes × Conn)
      → length bs ≤ n
      → pending c ≡ bs ++ pending c₁
      → Filled (pre ++ bs) (drop (length bs) r) (n - length bs) (total + length bs) c₁ y
      → Filled pre r n total c y
  Filled-more pre r bs n total c c₁ (none, m, c') le e h = h
  Filled-more pre r bs n total c c₁ (some v, m, c') le e (more, count, fits, shape, all, stop) =
      let size = length-append bs more in
      (
        bs ++ more,
        omega (arith, size),
        omega (arith, size),
        shape
            ∙ ap₂ (λ x z. x ++ z) (append_assoc pre bs more)
                (drop-drop (length bs) (length more) r ∙ ap (λ k. drop k r) (sym size)),
        e ∙ ap (λ z. bs ++ z) all ∙ sym (append_assoc bs more (pending c')),
        elim stop [ inl full ↦ inl (omega (arith, size)) | inr over ↦ inr over ],
      )

  -- a round, for rounds to come that do what they should
  gained-Fills :
      (k : ℕ) (pre r : Bytes) (n total : ℕ) (c : Conn)
      → n ≤ length r
      → n < suc k
      → 0 < n
      → ((pre r : Bytes) (n total : ℕ) (c : Conn)
          → n ≤ length r
          → n < k
          → Fills pre r n total c (read_loop t k true (pre ++ r) (length pre) n total c))
      → (x : Reading × Conn) → t.read c n ≡ x
      → Fills pre r n total c (gained t (read_loop t k true) (pre ++ r) (length pre) n total x)
  unfolding gained
  gained-Fills k pre r n total c room lt pos again (error, c') e = (_, refl, (c, n, e))
  gained-Fills k pre r n total c room lt pos again (shut, c') e =
      let (before, after) = i.ends c n e pos in
      (
        (some total, pre ++ r, c'),
        refl,
        (
          [],
          omega arith,
          omega arith,
          ap (λ z. z ++ r) (sym (append-nil pre)),
          before ∙ sym after,
          inr after,
        ),
      )
  gained-Fills k pre r n total c room lt pos again (got bs, c') e =
      let (some_bytes, fits, all) = i.gets c n e pos in
      let not_more : ltb n (length bs) ≡ false = ground arith in
      let size : length (pre ++ bs) ≡ length pre + length bs = length-append pre bs in
      let stored =
        write_at-append pre r bs (omega arith)
        ∙ ap ok (sym (append_assoc pre bs (drop (length bs) r))) in
      let (y, f, h) =
        again (pre ++ bs) (drop (length bs) r) (n - length bs) (total + length bs) c'
          (omega (arith, length-drop (length bs) r)) (omega arith) in
      (y, rw (not_more, stored, ← size) f, Filled-more pre r bs n total c c' y fits all h)

  read_loop-Fills :
      (k : ℕ) (nread : Bool) (pre r : Bytes) (n total : ℕ) (c : Conn)
      → n ≤ length r
      → n < k
      → (nread ≡ true) ⊎ (0 < n)
      → Fills pre r n total c (read_loop t k nread (pre ++ r) (length pre) n total c)
  unfolding read_loop
  read_loop-Fills zero nread pre r n total c room lt set = absurd (omega arith)
  read_loop-Fills (suc k) nread pre r n total c room lt set = elim (Bool-cases (n == 0)) [
    | inl none_left ↦
        let zero_left : n ≡ 0 = (==_iff n 0).0 none_left in
        let is_set : nread ≡ true = elim set [ inl s ↦ s | inr pos ↦ absurd (omega arith) ] in
        (
          (some total, pre ++ r, c),
          rw (none_left, is_set, read_loop) refl,
          (
            [],
            omega arith,
            omega arith,
            ap (λ z. z ++ r) (sym (append-nil pre)),
            refl,
            inl (sym zero_left),
          ),
        )
    | inr some_left ↦
        let (y, e, h) =
          gained-Fills k pre r n total c room lt (ground arith)
            (λ p q m v d a b. read_loop-Fills k true p q m v d a b (inl refl)) (read c n) refl in
        (y, rw (some_left, read_loop) e, h)
  ]

  -- `gemini_response_read` for at least one byte, into a buffer with room for them, ends: it has put
  -- the next bytes from the peer into the buffer, in order, as many as were asked for or all that the
  -- peer sends, and returns their number; or a read fails, and it returns -1.
  pub response_read-Filled :
      (pre r : Bytes) (n : ℕ) (c : Conn)
      → n ≤ length r
      → 0 < n
      → (y : Option ℕ × Bytes × Conn) × (response_read t (pre ++ r) (length pre) n c ≡ ok y)
        × Filled pre r n 0 c y
  unfolding response_read
  response_read-Filled pre r n c room pos =
      read_loop-Fills (suc n) false pre r n 0 c room (omega arith) (inr pos)

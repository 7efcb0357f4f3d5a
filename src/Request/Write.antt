-- ===== src/Request/Write.antt =====
-- `gemini_request_write` over connections that take all of a write or nothing, and over others.
use mathlib.Core.List.{append-nil}
use geminon.Base.{
  ℕ, zero, suc, ◌+◌, ◌-◌, ◌*◌, ◌<◌, ◌≤◌, ◌≡◌, refl, sym, ap, ap₂, subst, ◌∙◌, inl, inr, false,
  Option, none, some, ◌++◌, ◌==◌, le→leb, leb-false, Option-cases, length, length-take, take,
  take_all, drop, arith,
}
use geminon.Base.Bytes.{Bytes}
use geminon.Base.Run.{ok, fault}
use geminon.Request.{write_loop, request_write}
use geminon.Tls.{Failed, Tls, IsLawful, WritesWhole}

module _ (t : Tls) where
  open t use {Conn, write_ex, sent}

  write_loop_done :
      (k : ℕ) (mem : Bytes) (off total : ℕ) (c : Conn)
      → write_loop t (suc k) mem off 0 total c ≡ ok (some total, c)
  unfolding write_loop
  write_loop_done k mem off total c = refl

  -- A round whose write takes `w` bytes.
  write_loop-some :
      (k : ℕ) (mem : Bytes) (off n total w : ℕ) (c : Conn)
      → 0 < n
      → off + n ≤ length mem
      → (write_ex c (take n (drop off mem))).0 ≡ some w
      → write_loop t (suc k) mem off n total c
        ≡ write_loop t k mem
            (off + (n - w))
            (n - w)
            (total + w)
            (write_ex c (take n (drop off mem))).1
  unfolding write_loop
  write_loop-some k mem off n total w c pos fits took =
      let more : (n == 0) ≡ false = ground arith in
      rw (more, le→leb (off + n) (length mem) fits, took, write_loop)

  write_loop-none :
      (k : ℕ) (mem : Bytes) (off n total : ℕ) (c : Conn)
      → 0 < n
      → off + n ≤ length mem
      → (write_ex c (take n (drop off mem))).0 ≡ none
      → write_loop t (suc k) mem off n total c ≡ ok (none, (write_ex c (take n (drop off mem))).1)
  unfolding write_loop
  write_loop-none k mem off n total c pos fits failed =
      let more : (n == 0) ≡ false = ground arith in
      rw (more, le→leb (off + n) (length mem) fits, failed, write_loop)

  write_loop_fault :
      (k : ℕ) (mem : Bytes) (off n total : ℕ) (c : Conn)
      → 0 < n
      → length mem < off + n
      → write_loop t (suc k) mem off n total c ≡ fault
  unfolding write_loop
  write_loop_fault k mem off n total c pos past =
      let more : (n == 0) ≡ false = ground arith in
      rw (more, leb-false (off + n) (length mem) past, write_loop)

  -- What a caller can tell from the result: all of the bytes were sent; or, at -1, a write failed.
  abbrev pub AllOrFailure : Bytes → ℕ → Conn → Option ℕ → Conn → Type 0
  AllOrFailure mem n c none c' = Failed t c (take n mem) c'
  AllOrFailure mem n c (some k) c' = (k ≡ n) × (sent c' ≡ sent c ++ take n mem)

  -- Over a connection that takes a write as a whole, `gemini_request_write` ends within its buffer:
  -- it returns `n` and has sent the first `n` bytes in order, or a write fails, and it returns -1.
  pub request_write-whole :
      (lawful : IsLawful t) (whole : WritesWhole t) (mem : Bytes) (n : ℕ) (c : Conn)
      → n ≤ length mem
      → (r : Option ℕ) × (c' : Conn) × (request_write t mem n c ≡ ok (r, c'))
        × AllOrFailure mem n c r c'
  unfolding request_write
  request_write-whole lawful whole mem zero c fits =
      (some 0, c, write_loop_done 0 mem 0 0 c, (refl, sym (append-nil (sent c))))
  request_write-whole lawful whole mem (suc n) c fits =
      let pos : 0 < suc n = omega arith in
      let fits' : 0 + suc n ≤ length mem = omega arith in
      let c' = (write_ex c (take (suc n) mem)).1 in
      elim (Option-cases (write_ex c (take (suc n) mem)).0) [
        | inl failed ↦
            (none, c', write_loop-none (suc n) mem 0 (suc n) 0 c pos fits' failed, (failed, refl))
        | inr (w, took) ↦
            let all : w ≡ suc n =
              whole c (take (suc n) mem) w took ∙ omega (arith, length-take (suc n) mem) in
            let round : write_loop t (suc (suc n)) mem 0 (suc n) 0 c ≡ ok (some (suc n), c') =
              write_loop-some (suc n) mem 0 (suc n) 0 w c pos fits' took
              ∙ ap₂ (λ a b. write_loop t (suc n) mem a b (0 + w) c') {y = 0} {v = 0} (omega arith)
                  (omega arith)
              ∙ write_loop_done n mem 0 (0 + w) c'
              ∙ ap (λ k. ok (some k, c')) (omega arith) in
            (
              some (suc n),
              c',
              round,
              (
                refl,
                lawful.sends c (take (suc n) mem) took
                    ∙ ap (λ x. sent c ++ x)
                        (take_all w (take (suc n) mem) (omega (arith, length-take (suc n) mem))),
              ),
            )
      ]

  two_rounds :
      (k w : ℕ) (mem : Bytes) (c : Conn)
      → (write_ex c mem).0 ≡ some w
      → 2 * w < length mem
      → write_loop t (suc (suc k)) mem 0 (length mem) 0 c ≡ fault
  two_rounds k w mem c took less =
      let whole : (write_ex c (take (length mem) mem)).0 ≡ some w =
        ap (λ x. (write_ex c x).0) (take_all (length mem) mem (omega arith)) ∙ took in
      write_loop-some (suc k) mem 0 (length mem) 0 w c (omega arith) (omega arith) whole
      ∙ write_loop_fault k mem (0 + (length mem - w)) (length mem - w) (0 + w)
          (write_ex c (take (length mem) mem)).1 (omega arith) (omega arith)

  -- After a write of less than half of the buffer the next one would start so far on that it reads
  -- past the end of the buffer.
  pub request_write-partial :
      (mem : Bytes) (w : ℕ) (c : Conn)
      → (write_ex c mem).0 ≡ some w
      → 2 * w < length mem
      → request_write t mem (length mem) c ≡ fault
  unfolding request_write
  request_write-partial mem w c took less =
      let e : length mem ≡ suc (length mem - 1) = omega arith in
      subst (λ x. write_loop t (suc x) mem 0 (length mem) 0 c ≡ fault) (sym e)
        (two_rounds (length mem - 1) w mem c took less)

-- ===== src/Request/Stream/Sends.antt =====
-- What `gemini_request_stream` sends.
use mathlib.Core.List.{append_assoc, append-nil}
use geminon.Base.{
  ℕ, zero, suc, ◌+◌, ◌-◌, ◌<◌, ◌≤◌, ◌≡◌, refl, sym, ap, ap₂, subst, ◌∙◌, Bool, true, false, Option,
  none, some, [], ◌++◌, ◌==◌, length, take, drop, arith, length-append, length-drop,
}
use geminon.Base.Arrays.{write_at}
use geminon.Base.Arrays.Laws.{take-length-append, write_at-append}
use geminon.Base.Bytes.{Bytes}
use geminon.Base.Run.{Run, ok}
use geminon.Request.Write.{AllOrFailure, request_write-whole}
use geminon.Request.Stream.{move_down, settle, flush, drain, got, stream_loop, request_stream}
use geminon.System.{System}
use geminon.Request.Failures.{Stopped-first, Stopped-behind}
use geminon.Tls.{Failed, Stopped, Tls, IsLawful, WritesWhole}

move_down_none : (a : Bytes) (w : ℕ) → w ≤ length a → move_down a w 0 ≡ ok a
unfolding move_down write_at
move_down_none a w h = ground arith

module _ (t : Tls) (sys : System) where
  open t use {Conn, sent}
  open sys use {State, read}

  -- Reads of at most `block` bytes that give a file bit by bit, up to its end.
  pub data Reads (fd block : ℕ) : State → Bytes → State → Type 0 where
    end : {s s' : State} → read s fd block ≡ (some [], s') → Reads fd block s [] s'
    more :
        {s s' s'' : State} (bs rest : Bytes)
        → read s fd block ≡ (some bs, s')
        → 0 < length bs
        → length bs ≤ block
        → Reads fd block s' rest s''
        → Reads fd block s (bs ++ rest) s''

  -- The bytes at the start of the buffer are sent and none is left, or a write has failed.
  abbrev Flushed : Bytes → ℕ → Conn → Option (Bytes × ℕ) → Conn → Type 0
  Flushed buf n c none c' = Failed t c (take n buf) c'
  Flushed buf n c (some y) c' = (y.0 ≡ buf) × (y.1 ≡ 0) × (sent c' ≡ sent c ++ take n buf)

  settle-Flushed :
      (buf : Bytes) (n : ℕ) (c : Conn) (r : Option ℕ) (c' : Conn)
      → n ≤ length buf
      → AllOrFailure t buf n c r c'
      → (r' : Option (Bytes × ℕ)) × (settle t sys buf n (r, c') ≡ ok (r', c'))
        × Flushed buf n c r' c'
  unfolding settle
  settle-Flushed buf n c none c' fits h = (none, refl, h)
  settle-Flushed buf n c (some w) c' fits (all, h) =
      let left : n - w ≡ 0 = omega arith in
      let kept : move_down buf w 0 ≡ ok buf = move_down_none buf w (omega arith) in
      (some (buf, n - w), ground (arith, left, kept), (refl, left, h))

  flush-Flushed :
      (lawful : IsLawful t) (whole : WritesWhole t) (buf : Bytes) (n : ℕ) (c : Conn)
      → n ≤ length buf
      → (r : Option (Bytes × ℕ)) × (c' : Conn) × (flush t sys buf n c ≡ ok (r, c'))
        × Flushed buf n c r c'
  unfolding flush
  flush-Flushed lawful whole buf n c fits =
      let (w, c', e, all) = request_write-whole t lawful whole buf n c fits in
      let (r, f, h) = settle-Flushed buf n c w c' fits all in (r, c', rw e f, h)

  -- All of the content has been sent and the file is at its end; or the call has returned -1, a first
  -- part has been sent, and the write behind it has failed.
  abbrev pub Streamed : Bytes → State → Conn → Bool → State → Conn → Type 0
  Streamed content end_state c false s' c' = Stopped t content c c'
  Streamed content end_state c true s' c' = (s' ≡ end_state) × (sent c' ≡ sent c ++ content)

  -- What a run of the loops must give.
  abbrev Streams : Bytes → State → Conn → Run (Bool × State × Conn) → Type 0
  Streams content end_state c run =
      (r : Bool) × (s : State) × (c' : Conn) × (run ≡ ok (r, s, c'))
      × Streamed content end_state c r s c'

  Streamed-append :
      (bs rest : Bytes) (s' : State) (c c₁ : Conn) (r : Bool) (s : State) (c' : Conn)
      → sent c₁ ≡ sent c ++ bs
      → Streamed rest s' c₁ r s c'
      → Streamed (bs ++ rest) s' c r s c'
  Streamed-append bs rest s' c c₁ false s c' e h = Stopped-behind t bs rest c c₁ c' e h
  Streamed-append bs rest s' c c₁ true s c' e (at_end, h) =
      (at_end, h ∙ ap (λ x. x ++ rest) e ∙ append_assoc (sent c) bs rest)

  -- the rest of the loop, behind the write of what a read gave
  resume :
      (k fd block : ℕ) (buf bs rest : Bytes) (n : ℕ) (s₁ s' : State) (c c₁ : Conn)
      (r : Option (Bytes × ℕ))
      → Flushed buf n c r c₁
      → take n buf ≡ bs
      → ((c₁ : Conn) → Streams rest s' c₁ (stream_loop t sys k fd block buf 0 s₁ c₁))
      → Streams (bs ++ rest) s' c (elim r [
        | none ↦ ok (false, s₁, c₁)
        | some y ↦ stream_loop t sys k fd block y.0 y.1 s₁ c₁
      ])
  resume k fd block buf bs rest n s₁ s' c c₁ none h cut again =
      (false, s₁, c₁, refl, Stopped-first t bs rest c c₁ (subst (λ z. Failed t c z c₁) cut h))
  resume k fd block buf bs rest n s₁ s' c c₁ (some (b, m)) (same, done, all) cut again =
      let (r, s, c', e, h) = again c₁ in
      (
        r,
        s,
        c',
        ap₂ (λ x y. stream_loop t sys k fd block x y s₁ c₁) same done ∙ e,
        Streamed-append bs rest s' c c₁ r s c' (all ∙ ap (λ x. sent c ++ x) cut) h,
      )

  stream_loop-Streams :
      (lawful : IsLawful t) (whole : WritesWhole t) (k fd block : ℕ) (buf : Bytes) (s : State)
      (c : Conn)
      → (content : Bytes) (s' : State) → length buf ≡ block
      → Reads fd block s content s'
      → length content < k
      → Streams content s' c (stream_loop t sys k fd block buf 0 s c)
  unfolding stream_loop got drain
  stream_loop-Streams lawful whole zero fd block buf s c content s' size reads lt =
      absurd (omega arith)
  stream_loop-Streams lawful whole (suc k) fd block buf s c _ s' size (end e) lt =
      let first : read s fd (block - 0) ≡ (some [], s') = ap (read s fd) (omega arith) ∙ e in
      (true, s', c, rw first refl, (refl, sym (append-nil (sent c))))
  stream_loop-Streams lawful whole (suc k) fd block buf s c _ s' size
        (more {s' = s₁} bs rest e pos le reads) lt =
      let first : read s fd (block - 0) ≡ (some bs, s₁) = ap (read s fd) (omega arith) ∙ e in
      let some_bytes : (length bs == 0) ≡ false = ground arith in
      let buf' = bs ++ drop (length bs) buf in
      let stored : write_at buf 0 bs ≡ ok buf' = write_at-append [] buf bs (omega arith) in
      let size' : length buf' ≡ block =
        omega (arith, length-append bs (drop (length bs) buf), length-drop (length bs) buf) in
      let (r, c₁, f, h) = flush-Flushed lawful whole buf' (0 + length bs) c (omega arith) in
      let cut : take (0 + length bs) buf' ≡ bs =
        ap (λ m. take m buf') (omega arith) ∙ take-length-append bs (drop (length bs) buf) in
      let (q, s₂, c₂, g, all) =
        resume k fd block buf' bs rest (0 + length bs) s₁ s' c c₁ r h cut (λ c₁.
          stream_loop-Streams lawful whole k fd block buf' s₁ c₁ rest s' size' reads
            (omega (arith, length-append bs rest))) in
      (q, s₂, c₂, rw (first, some_bytes, stored, f, got) g, all)

  -- Over a connection that takes writes as a whole, `gemini_request_stream` ends, for a file that ends
  -- and a buffer of the size that it was asked for: it returns 0, has read the file to its end, and has
  -- sent its content in order; or it returns -1, has sent a first part of it, and the write of what
  -- follows has failed. Each read gives a byte, so as many reads and one more are enough.
  pub request_stream-Streamed :
      (lawful : IsLawful t) (whole : WritesWhole t) (k fd block : ℕ) (buf : Bytes) (s : State)
      (c : Conn)
      → (content : Bytes) (s' : State) → length buf ≡ block
      → Reads fd block s content s'
      → length content < k
      → (r : Bool) × (s'' : State) × (c' : Conn) × (request_stream t sys k (some buf) fd block s c
          ≡ ok (r, s'', c'))
        × Streamed content s' c r s'' c'
  unfolding request_stream
  request_stream-Streamed lawful whole k fd block buf s c content s' size reads lt =
      stream_loop-Streams lawful whole k fd block buf s c content s' size reads lt

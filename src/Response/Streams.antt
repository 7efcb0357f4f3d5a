-- ===== src/Response/Streams.antt =====
-- What `gemini_response_stream` writes, when a write may take only a part of what it is given.
use mathlib.Core.List.{append_assoc, append-nil}
use geminon.Base.{
  ℕ, zero, suc, ◌+◌, ◌-◌, ◌<◌, ◌≡◌, refl, sym, ap, ap₂, subst, ◌∙◌, Bool, true, false, ◌⊎◌, inl,
  inr, Bool-cases, Option, none, some, [], ◌∷◌, ◌++◌, ltb, leb, le→leb, ◌==◌, ==_iff, length,
  length-append, length-drop, take, take-append-drop, drop, arith,
}
use geminon.Base.Arrays.Laws.{take-length-append}
use geminon.Base.Bytes.{Bytes}
use geminon.Base.Run.{Run, ok}
use geminon.Response.{shift, put_out, finish_loop, copied, copy_loop, response_stream}
use geminon.Response.Fills.{Broken, Filled, response_read-Filled}
use geminon.System.{System, Outgoing}
use geminon.Tls.{Tls, Incoming}
use geminon.Response.Queue.{length_zero, move_down-drop}

module _ (t : Tls) (sys : System) (i : Incoming t) (fd : ℕ) (o : Outgoing sys fd) where
  open t use {Conn}
  open sys use {State, write}
  open i use {pending}
  open o use {written}

  -- A write failed, and the system is as that write has left it.
  abbrev pub Stuck : State → Type 0
  Stuck s' = (s : State) × (bs : Bytes) × (write s fd bs ≡ (none, s'))

  -- A buffer that holds a queue of `n` bytes, of which `m` at most are to be kept.
  abbrev Shifted : (q r : Bytes) → State → Option (Bytes × ℕ) × State → Type 0
  Shifted q r s (none, s') = Stuck s'
  Shifted q r s (some (b, m), s') =
      (q' r' : Bytes) × (b ≡ q' ++ r')
      × (m ≡ length q')
      × (length b ≡ length (q ++ r))
      × (length q' < length q)
      × (written s' ++ q' ≡ written s ++ q)

  shift-Shifted :
      (q r : Bytes) (s : State)
      → 0 < length q
      → (x : Option ℕ × State) → write s fd q ≡ x
      → (y : Option (Bytes × ℕ) × State) × (shift t sys (q ++ r) (length q) x ≡ ok y)
        × Shifted q r s y
  unfolding shift
  shift-Shifted q r s pos (none, s') e = ((none, s'), refl, (s, q, e))
  shift-Shifted q r s pos (some w, s') e =
      let (some_bytes, fits, all) = o.writes s q e pos in
      let not_more : ltb (length q) w ≡ false = ground arith in
      let (r', moved, size) = move_down-drop w q r fits in
      (
        (some (drop w q ++ r', length q - w), s'),
        rw (not_more, moved) refl,
        (
          drop w q,
          r',
          refl,
          sym (length-drop w q),
          size,
          omega (arith, length-drop w q),
          ap (λ z. z ++ drop w q) all
              ∙ append_assoc (written s) (take w q) (drop w q)
              ∙ ap (λ z. written s ++ z) (take-append-drop w q),
        ),
      )

  put_out-Shifted :
      (q r : Bytes) (s : State)
      → 0 < length q
      → (y : Option (Bytes × ℕ) × State) × (put_out t sys fd (q ++ r) (length q) s ≡ ok y)
        × Shifted q r s y
  unfolding put_out
  put_out-Shifted q r s pos =
      let within : leb (length q) (length (q ++ r)) ≡ true =
        le→leb _ _ (omega (arith, length-append q r)) in
      let (y, e, h) = shift-Shifted q r s pos (write s fd q) refl in
      (y, rw (within, take-length-append q r) e, h)

  -- All of `bs` has been written, or a read or a write failed.
  abbrev pub Written : Bytes → State → Bool × State × Conn → Type 0
  Written bs s (true, s', c') = written s' ≡ written s ++ bs
  Written bs s (false, s', c') = Broken t i c' ⊎ Stuck s'

  abbrev Writes : Bytes → State → Run (Bool × State × Conn) → Type 0
  Writes bs s run = (y : Bool × State × Conn) × (run ≡ ok y) × Written bs s y

  Written-more :
      (q q' bs : Bytes) (s s' : State) (y : Bool × State × Conn)
      → written s' ++ q' ≡ written s ++ q
      → Written (q' ++ bs) s' y
      → Written (q ++ bs) s y
  Written-more q q' bs s s' (false, s'', c') e h = h
  Written-more q q' bs s s' (true, s'', c') e h =
      h
      ∙ sym (append_assoc (written s') q' bs)
      ∙ ap (λ z. z ++ bs) e
      ∙ append_assoc (written s) q bs

  -- the rest of a loop, behind a write
  resumed :
      (again : Bytes → ℕ → State → Conn → Run (Bool × State × Conn))
      → (q r bs : Bytes) (s : State) (c : Conn) (y : Option (Bytes × ℕ) × State) → Shifted q r s y
      → ((q' r' : Bytes) (s' : State)
          → length (q' ++ r') ≡ length (q ++ r)
          → length q' < length q
          → Writes (q' ++ bs) s' (again (q' ++ r') (length q') s' c))
      → Writes (q ++ bs) s (elim y.0 [ none ↦ ok (false, y.1, c) | some z ↦ again z.0 z.1 y.1 c ])
  resumed again q r bs s c (none, s') h next = ((false, s', c), refl, inr h)
  resumed again q r bs s c (some (b, m), s') (q', r', shape, count, size, less, all) next =
      let (y, e, h) = next q' r' s' (ap length (sym shape) ∙ size) less in
      (y, ap₂ (λ u v. again u v s' c) shape count ∙ e, Written-more q q' bs s s' y all h)

  finish_loop-Writes :
      (k : ℕ) (q r bs : Bytes) (s : State) (c : Conn)
      → bs ≡ []
      → length q < k
      → Writes (q ++ bs) s (finish_loop t sys k fd (q ++ r) (length q) s c)
  unfolding finish_loop
  finish_loop-Writes zero q r bs s c done lt = absurd (omega arith)
  finish_loop-Writes (suc k) [] r bs s c done lt =
      ((true, s, c), refl, rw done (sym (append-nil (written s))))
  finish_loop-Writes (suc k) (x ∷ q) r bs s c done lt =
      let (y, e, h) = put_out-Shifted (x ∷ q) r s (omega arith) in
      let more : (length {A = ℕ} (x ∷ q) == 0) ≡ false = ground arith in
      let (z, f, w) =
        resumed (finish_loop t sys k fd) (x ∷ q) r bs s c y h
          (λ q' r' s' size less. finish_loop-Writes k q' r' bs s' c done (omega arith)) in
      (z, rw (more, e, finish_loop) f, w)

  -- a round, for rounds to come that do what they should
  copied-Writes :
      (k block : ℕ) (q r : Bytes) (s : State) (c : Conn)
      → length (q ++ r) ≡ block
      → length q < block
      → length (pending c) < suc k
      → ((q r : Bytes) (s : State) (c : Conn)
          → length (q ++ r) ≡ block
          → length q < block
          → length (pending c) < k
          → Writes (q ++ pending c) s (copy_loop t sys k fd block (q ++ r) (length q) s c))
      → (y : Option ℕ × Bytes × Conn) → Filled t i q r (block - length q) 0 c y
      → Writes (q ++ pending c) s (copied t sys (copy_loop t sys k fd block) fd (length q) s y)
  unfolding copied
  copied-Writes k block q r s c size room lt again (none, m, c') h = ((false, s, c'), refl, inl h)
  copied-Writes k block q r s c size room lt again (some v, m, c')
        (bs, count, fits, shape, all, stop) =
      elim (Bool-cases (v == 0)) [
        | inl end ↦
            let zero_read : v ≡ 0 = (==_iff v 0).0 end in
            let empty : bs ≡ [] = length_zero bs (omega arith) in
            let over : pending c' ≡ [] = elim stop [
              | inl full ↦ absurd (omega arith)
              | inr o ↦ o
            ] in
            let whole : m ≡ q ++ (bs ++ drop (length bs) r) =
              shape ∙ append_assoc q bs (drop (length bs) r) in
            let (z, f, w) =
              finish_loop-Writes (suc (length q)) q (bs ++ drop (length bs) r) (pending c) s c'
                (all ∙ ap₂ (λ a b. a ++ b) empty over) (omega arith) in
            (z, rw (end, whole, copied) f, w)
        | inr more ↦
            let some_read : 0 < v = ground arith in
            let rest = drop (length bs) r in
            let size_q = length-append q bs in
            let size_m = length-append (q ++ bs) rest in
            let size_r = length-append q r in
            let count' : length q + v ≡ length (q ++ bs) = omega (arith, size_q) in
            let same : length ((q ++ bs) ++ rest) ≡ block =
              omega (arith, size_q, size_m, size_r, length-drop (length bs) r) in
            let (y, e, h') = put_out-Shifted (q ++ bs) rest s (omega (arith, size_q)) in
            let (z, f, w) =
              resumed (copy_loop t sys k fd block) (q ++ bs) rest (pending c') s c' y h'
                (λ q' r' s' kept less.
                  again q' r' s' c' (kept ∙ same) (omega (arith, size_q))
                    (omega (arith, ap length all, length-append bs (pending c')))) in
            (
              z,
              rw (more, shape, count', e, copied) f,
              subst (λ b. Written b s z)
                  (append_assoc q bs (pending c') ∙ ap (λ b. q ++ b) (sym all)) w,
            )
      ]

  copy_loop-Writes :
      (k block : ℕ) (q r : Bytes) (s : State) (c : Conn)
      → length (q ++ r) ≡ block
      → length q < block
      → length (pending c) < k
      → Writes (q ++ pending c) s (copy_loop t sys k fd block (q ++ r) (length q) s c)
  unfolding copy_loop
  copy_loop-Writes zero block q r s c size room lt = absurd (omega arith)
  copy_loop-Writes (suc k) block q r s c size room lt =
      let (y, e, h) =
        response_read-Filled t i q r (block - length q) c (omega (arith, length-append q r))
          (omega arith) in
      let (z, f, w) =
        copied-Writes k block q r s c size room lt
          (λ q r s c size room lt. copy_loop-Writes k block q r s c size room lt) y h in
      (z, rw e f, w)

  -- `gemini_response_stream`, with a buffer of at least one byte, ends also if writes take only a part
  -- of what they are given: it returns 0 and has written all that the peer sends, in order, to `fd`; or
  -- it returns -1, and a read or a write has failed. Each round reads a byte.
  pub response_stream-Written :
      (k block : ℕ) (buf : Bytes) (s : State) (c : Conn)
      → length buf ≡ block
      → 0 < block
      → length (pending c) < k
      → (y : Bool × State × Conn) × (response_stream t sys k (some buf) fd block s c ≡ ok y)
        × Written (pending c) s y
  unfolding response_stream
  response_stream-Written k block buf s c size pos lt =
      copy_loop-Writes k block [] buf s c size pos lt

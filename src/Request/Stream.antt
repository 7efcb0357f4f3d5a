-- ===== src/Request/Stream.antt =====
-- `gemini_request_stream`: a file, copied to the client through a buffer.
pub mod Sends
use geminon.Base.{
  ℕ, zero, suc, ◌+◌, ◌-◌, Bool, true, false, Option, none, some, [], ltb, leb, ◌==◌, if◌then◌else◌,
  length, take, drop,
}
use geminon.Base.Arrays.{write_at}
use geminon.Base.Bytes.{Bytes}
use geminon.Base.Run.{Run, ok, fault, no_fuel, ◌>>=◌}
use geminon.Request.{request_write}
use geminon.System.{System}
use geminon.Tls.{Tls}

-- `memmove (a, a + w, n)`
unfoldable pub move_down : Bytes → (w n : ℕ) → Run Bytes
move_down a w n = if leb (w + n) (length a) then write_at a 0 (take n (drop w a)) else fault

module _ (t : Tls) (sys : System) where
  open t use {Conn}
  open sys use {State, read}

  -- behind a write of the `n` bytes at the start of the buffer; a count above `n` would make the
  -- length negative
  unfoldable pub settle : Bytes → (n : ℕ) → Option ℕ × Conn → Run (Option (Bytes × ℕ) × Conn)
  settle buf n (none, c) = ok (none, c)
  settle buf n (some w, c) =
      if ltb n w then fault else (move_down buf w (n - w) >>= λ b. ok (some (b, n - w), c))

  -- What both loops do with the `n` bytes at the start of the buffer: `none` for a `return -1`, or
  -- the buffer and the number of bytes that are left.
  unfoldable pub flush : Bytes → (n : ℕ) → Conn → Run (Option (Bytes × ℕ) × Conn)
  flush buf n c = request_write t buf n c >>= settle buf n

  -- the second loop, `while (n > 0)`; true stands for 0 and false for -1
  unfoldable pub drain : ℕ → Bytes → (n : ℕ) → State → Conn → Run (Bool × State × Conn)
  drain zero buf n s c = no_fuel
  drain (suc k) buf n s c = elim (n == 0) [
    | true ↦ ok (true, s, c)
    | false ↦ flush buf n c >>= λ x. elim x.0 [
      | none ↦ ok (false, s, x.1)
      | some y ↦ drain k y.0 y.1 s x.1
    ]
  ]

  -- a round of the first loop, behind its read, and the second loop if it was the last; `again` is
  -- the next round
  unfoldable pub got :
      (Bytes → ℕ → State → Conn → Run (Bool × State × Conn))
      → Bytes
      → (n : ℕ) → Conn
      → Option Bytes × State
      → Run (Bool × State × Conn)
  got again buf n c (none, s) = ok (false, s, c)
  got again buf n c (some bs, s) = elim (length bs == 0) [
    | true ↦ drain (suc n) buf n s c
    | false ↦ write_at buf n bs >>= λ b. flush b (n + length bs) c >>= λ x. elim x.0 [
      | none ↦ ok (false, s, x.1)
      | some y ↦ again y.0 y.1 s x.1
    ]
  ]

  -- the first loop
  unfoldable pub stream_loop :
      ℕ → (fd block : ℕ) → Bytes → (n : ℕ) → State → Conn → Run (Bool × State × Conn)
  stream_loop zero fd block buf n s c = no_fuel
  stream_loop (suc k) fd block buf n s c =
      got (stream_loop k fd block) buf n c (read s fd (block - n))

  -- `gemini_request_stream (req, fd, block)`, with the block that `malloc` gives for the buffer and a
  -- bound on the number of reads
  unfoldable pub request_stream :
      ℕ → Option Bytes → (fd block : ℕ) → State → Conn → Run (Bool × State × Conn)
  request_stream k none fd block s c = ok (false, s, c)
  request_stream k (some buf) fd block s c = stream_loop k fd block buf 0 s c

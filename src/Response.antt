-- ===== src/Response.antt =====
-- response.c: what a client reads from a server.
pub mod Fills
pub mod Queue
pub mod Streams
use geminon.Base.{
  ℕ, zero, suc, ◌+◌, ◌-◌, Bool, true, false, Option, none, some, List, ◌∷◌, ltb, leb, ◌==◌,
  if◌then◌else◌, length, take,
}
use geminon.Base.Arrays.{write_at}
use geminon.Base.Bytes.{Bytes}
use geminon.Base.Run.{Run, ok, fault, no_fuel, ◌>>=◌}
use geminon.Request.Stream.{move_down}
use geminon.System.{System}
use geminon.Tls.{Tls, Reading, got, shut, error}

module _ (t : Tls) where
  open t use {Conn, read}

  -- what a read does, in the loop of `gemini_response_read`; `again` is the next round
  unfoldable pub gained :
      (Bytes → (off n total : ℕ) → Conn → Run (Option ℕ × Bytes × Conn))
      → Bytes
      → (off n total : ℕ) → Reading × Conn
      → Run (Option ℕ × Bytes × Conn)
  gained again mem off n total (error, c) = ok (none, mem, c)
  gained again mem off n total (shut, c) = ok (some total, mem, c)
  gained again mem off n total (got bs, c) =
      if ltb n (length bs)
      then fault
      else (write_at mem off bs >>= λ m.
          again m (off + length bs) (n - length bs) (total + length bs) c)

  -- The loop of `gemini_response_read`, for `n` bytes at the offset `off`; `nread` tells whether that
  -- variable has been set. `n` is given to `SSL_read` as it is, which is exact below 2 ^ 31; the program
  -- asks for 8192.
  unfoldable pub read_loop :
      ℕ → (nread : Bool) → Bytes → (off n total : ℕ) → Conn → Run (Option ℕ × Bytes × Conn)
  read_loop zero nread mem off n total c = no_fuel
  read_loop (suc k) nread mem off n total c = elim (n == 0) [
    | true ↦ if nread then ok (some total, mem, c) else fault
    | false ↦ gained (read_loop k true) mem off n total (read c n)
  ]

  -- `gemini_response_read (res, mem + off, n)`: the bytes read, `none` for -1. Each round reads a byte.
  unfoldable pub response_read : Bytes → (off n : ℕ) → Conn → Run (Option ℕ × Bytes × Conn)
  response_read mem off n c = read_loop (suc n) false mem off n 0 c

module _ (t : Tls) (sys : System) where
  open t use {Conn}
  open sys use {State, write}

  -- behind `write (fd, buf, n)`, which takes at most `n` bytes; `none` for -1, or the buffer and the
  -- bytes that are left
  unfoldable pub shift : Bytes → (n : ℕ) → Option ℕ × State → Run (Option (Bytes × ℕ) × State)
  shift buf n (none, s) = ok (none, s)
  shift buf n (some w, s) =
      if ltb n w then fault else (move_down buf w (n - w) >>= λ b. ok (some (b, n - w), s))

  unfoldable pub put_out : (fd : ℕ) → Bytes → (n : ℕ) → State → Run (Option (Bytes × ℕ) × State)
  put_out fd buf n s = if leb n (length buf) then shift buf n (write s fd (take n buf)) else fault

  -- the second loop of `gemini_response_stream`, `while (n > 0)`; true stands for 0, false for -1
  unfoldable pub finish_loop :
      ℕ → (fd : ℕ) → Bytes → (n : ℕ) → State → Conn → Run (Bool × State × Conn)
  finish_loop zero fd buf n s c = no_fuel
  finish_loop (suc k) fd buf n s c = elim (n == 0) [
    | true ↦ ok (true, s, c)
    | false ↦ put_out fd buf n s >>= λ x. elim x.0 [
      | none ↦ ok (false, x.1, c)
      | some y ↦ finish_loop k fd y.0 y.1 x.1 c
    ]
  ]

  -- a round of the first loop, behind its read
  unfoldable pub copied :
      (Bytes → (n : ℕ) → State → Conn → Run (Bool × State × Conn))
      → (fd n : ℕ) → State
      → Option ℕ × Bytes × Conn
      → Run (Bool × State × Conn)
  copied again fd n s (none, buf, c) = ok (false, s, c)
  copied again fd n s (some nread, buf, c) = elim (nread == 0) [
    | true ↦ finish_loop (suc n) fd buf n s c
    | false ↦ put_out fd buf (n + nread) s >>= λ x. elim x.0 [
      | none ↦ ok (false, x.1, c)
      | some y ↦ again y.0 y.1 x.1 c
    ]
  ]

  -- the first loop
  unfoldable pub copy_loop :
      ℕ → (fd block : ℕ) → Bytes → (n : ℕ) → State → Conn → Run (Bool × State × Conn)
  copy_loop zero fd block buf n s c = no_fuel
  copy_loop (suc k) fd block buf n s c =
      response_read t buf n (block - n) c >>= copied (copy_loop k fd block) fd n s

  -- `gemini_response_stream (res, fd, block)`, with the block that `malloc` gives for the buffer and a
  -- bound on the rounds
  unfoldable pub response_stream :
      ℕ → Option Bytes → (fd block : ℕ) → State → Conn → Run (Bool × State × Conn)
  response_stream k none fd block s c = ok (false, s, c)
  response_stream k (some buf) fd block s c = copy_loop k fd block buf 0 s c

-- `struct gemini_response`; `fd` is `none` for -1
pub record Response (Conn : Type 0) : Type 0 where
  pub fd : Option ℕ
  pub ssl : Option Conn

-- `gemini_response_close`: the response, with the SSL object that it has freed and the descriptor that
-- it has closed
unfoldable pub response_close :
    {Conn : Type 0} → Response Conn → Response Conn × Option Conn × Option ℕ
response_close res = (record { fd = none; ssl = none }, res.ssl, res.fd)

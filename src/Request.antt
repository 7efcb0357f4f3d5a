-- ===== src/Request.antt =====
-- request.c: the responses of a server to one request.
pub mod Calls
pub mod Close
pub mod Failures
pub mod Write
pub mod Respond
pub mod Stream
use geminon.Base.{
  ℕ, zero, suc, ◌+◌, ◌-◌, ◌*◌, ◌/◌, ◌%◌, Bool, true, false, Option, none, some, [], ◌∷◌, ◌++◌, leb,
  ◌==◌, if◌then◌else◌, length, take, drop, replicate,
}
use geminon.Base.Arrays.{strlen, strncpy, strcat, write_at}
use geminon.Base.Bytes.{Bytes, codes}
use geminon.Base.Run.{Run, ok, fault, no_fuel, ◌>>=◌}
use geminon.Tls.{Tls}

-- GEMINI_MAX_RESPONSE
abbrev pub max_response : ℕ
max_response = 256

module _ (t : Tls) where
  open t use {Conn, write_ex}

  -- The loop of `gemini_request_write`: `n` bytes of `mem` from the offset `off` on are left. After
  -- a write of `w` bytes the code lowers `n` by `w` and moves the pointer by the new `n`. A write takes at
  -- most the bytes that it is given, so that the difference does not wrap around.
  unfoldable pub write_loop : ℕ → Bytes → (off n total : ℕ) → Conn → Run (Option ℕ × Conn)
  write_loop zero mem off n total c = no_fuel
  write_loop (suc k) mem off n total c = elim (n == 0) [
    | true ↦ ok (some total, c)
    | false ↦ elim (leb (off + n) (length mem)) [
      | false ↦ fault
      | true ↦
          let (r, c') = write_ex c (take n (drop off mem)) in
          elim r [
            | none ↦ ok (none, c')
            | some w ↦ write_loop k mem (off + (n - w)) (n - w) (total + w) c'
          ]
    ]
  ]

  -- `gemini_request_write (req, mem, n)`: the bytes written, `none` for -1. A write takes at least
  -- one byte, so the fuel is enough.
  unfoldable pub request_write : Bytes → ℕ → Conn → Run (Option ℕ × Conn)
  request_write mem n c = write_loop (suc n) mem 0 n 0 c

  -- `gemini_request_respond`; a `size_t` result is at most `max_response`, so the `int` is exact
  unfoldable pub request_respond : ℕ → Bytes → Conn → Run (Option ℕ × Conn)
  request_respond status meta c = do
    buf ←
        write_at (replicate max_response 0) 0
          ((b'0' + status / 10 % 10) ∷ (b'0' + status % 10) ∷ b' ' ∷ [])
    buf ← strncpy buf 3 meta (max_response - 3 - 2 - 1)
    buf ← strcat buf (b'\r' ∷ b'\n' ∷ [])
    n ← strlen buf
    request_write buf n c

-- ===== src/Cli/Fuzz.antt =====
-- fuzz-url.c: a driver that parses a line of its input.
pub mod Ends
use geminon.Base.{
  ℕ, ◌+◌, ◌-◌, ◌^◌, ◌<◌, ◌≤◌, ◌≡◌, refl, ◌∙◌, Option, none, some, [], ◌∷◌, length, length-set, set,
  arith,
}
use geminon.Base.Arrays.{poke, strstr, write_at}
use geminon.Base.Arrays.Laws.{AtMost, poke-set, strstr-set, length-write_at, length-c_string}
use geminon.Base.Bytes.{Bytes, c_string}
use geminon.Base.Run.{Run, ok, fault, ◌>>=◌}
use geminon.Server.Serve.{max_request}
use geminon.Url.Bounds.{parse_url-ends}
use geminon.Url.{Url, parse_url}

-- `strchr`, for a character that is not NUL: the offset of the first one in a string
abbrev pub strchr : Bytes → ℕ → Run (Option ℕ)
strchr buf c = strstr buf (c ∷ [])

-- `if (!p) p = strchr (buf, '\n')`
unfoldable pub or_newline : Bytes → Option ℕ → Run (Option ℕ)
or_newline buf (some p) = ok (some p)
or_newline buf none = strchr buf b'\n'

-- `if (p) *p = '\0'`
unfoldable pub cut_line : Bytes → Option ℕ → Run Bytes
cut_line buf none = ok buf
cut_line buf (some p) = poke buf p 0

-- behind the read, for the number of bytes that it has put into the buffer; `block` is what `malloc`
-- gives for a URL
unfoldable pub take_input : Option Url → ℕ → Bytes → Run ℕ
take_input block n buf = do
  buf ← poke buf n 0
  p ← strchr buf b'\r'
  p ← or_newline buf p
  buf ← cut_line buf p
  u ← parse_url block (c_string buf)
  ok 0

-- `main`, for a buffer and what `read` puts into it, `none` for -1, which is the largest size_t once
-- it is taken for one; the result is the exit code
unfoldable pub main : (block : Option Url) → (buf : Bytes) → Option Bytes → Run ℕ
main block buf none = take_input block (2 ^ 64 - 1) buf
main block buf (some []) = ok 1
main block buf (some (b ∷ bs)) = write_at buf 0 (b ∷ bs) >>= take_input block (length (b ∷ bs))

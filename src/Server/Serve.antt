-- ===== src/Server/Serve.antt =====
-- `gemini_serve`: connections that are accepted one by one, each with a request line and its answer.
pub mod Answers
pub mod Closes
pub mod Crlf
pub mod Heard
pub mod Line
pub mod Served
pub mod Short
use geminon.Base.{
  ℕ, zero, suc, ◌+◌, ◌-◌, ◌%◌, ◌^◌, Bool, true, false, ◌&&◌, Option, none, some, List, [], ◌∷◌, ltb,
  ◌==◌, if◌then◌else◌, length,
}
use geminon.Base.Arrays.{poke, strlen, strstr, write_at}
use geminon.Base.Bytes.{Bytes, codes, c_string}
use geminon.Base.Run.{Run, ok, fault, no_fuel, ◌>>=◌}
use geminon.Request.Close.{Request, Req, Here, hang_up, request_close, dismiss}
use geminon.Server.Dispatch.{Item, Handled, walk}
use geminon.Server.Handlers.{Memory, Verifier}
use geminon.Server.{Server}
use geminon.System.{System}
use geminon.Tls.{Tls}
use geminon.Url.{Url, parse_url}

-- GEMINI_MAX_REQUEST
abbrev pub max_request : ℕ
max_request = 8192

abbrev pub crlf : Bytes
crlf = b'\r' ∷ b'\n' ∷ []

-- A connection that `accept` returns: its descriptor, the SSL object after `SSL_accept`, `none` if that
-- fails, and the certificate of the peer.
pub record Arrival (Conn Cert : Type 0) : Type 0 where
  pub fd : ℕ
  pub session : Option Conn
  pub cert : Option Cert

-- `server->requests++`, for a request that counts
abbrev pub tally : Bool → ℕ → ℕ
tally true requests = (requests + 1) % 2 ^ 32
tally false requests = requests

module _ (t : Tls) where
  open t use {Conn, read_ex}

  -- a round of the loop of `s_readto`, behind its read; `again` is the next round
  unfoldable pub got_bytes :
      (Bytes → (ntotal : ℕ) → Conn → Run (Option ℕ × Bytes × Conn))
      → (dst : Bytes) (ntotal : ℕ) → (end : Bytes) → Option Bytes × Conn
      → Run (Option ℕ × Bytes × Conn)
  got_bytes again dst ntotal end (none, c) = ok (none, dst, c)
  got_bytes again dst ntotal end (some bs, c) = do
    dst ← write_at dst ntotal bs
    dst ← poke dst (ntotal + length bs) 0
    found ← strstr dst end
    elim found [
      | some i ↦ ok (some (ntotal + length bs), dst, c)
      | none ↦ again dst (ntotal + length bs) c
    ]

  unfoldable pub readto_loop :
      ℕ → (dst : Bytes) (len ntotal : ℕ) (end : Bytes) → Conn → Run (Option ℕ × Bytes × Conn)
  readto_loop zero dst len ntotal end c = no_fuel
  readto_loop (suc k) dst len ntotal end c =
      got_bytes (λ d n. readto_loop k d len n end) dst ntotal end (read_ex c (len - 1 - ntotal))

  -- `s_readto (ssl, dst, len, end)`: the bytes read, `none` for -1. Each round but the last reads a
  -- byte, and there is room for `len` less one.
  unfoldable pub readto :
      (dst : Bytes) (len : ℕ) (end : Bytes) → Conn → Run (Option ℕ × Bytes × Conn)
  readto dst len end c = readto_loop (suc len) dst len 0 end c

module _ (t : Tls) (sys : System) (x : Verifier) (mem : Memory) where
  -- how the body of the loop ends for a connection: whether the request counts, the request, the
  -- buffer, which is used again, and the world
  abbrev pub Served : Type 0
  Served = Bool × Req t sys x.Cert × Bytes × Here t sys x.Cert

  -- behind the walk
  unfoldable pub fall_back : Bytes → Handled t sys x mem → Run Served
  fall_back buf (true, req, w) = ok (true, req, buf, w)
  fall_back buf (false, req, w) =
      dismiss t sys x.Cert 51 (codes "Not Found") req w >>= λ y. ok (true, y.0, buf, y.1)

  -- behind `gemini_parse_url`
  unfoldable pub answer :
      Server (Item t sys x mem)
      → Option Url
      → Req t sys x.Cert
      → Bytes
      → Here t sys x.Cert
      → Run Served
  answer s none req buf w =
      dismiss t sys x.Cert 50 (codes "Bad URL") (record req { url = none }) w >>= λ y.
      ok (false, y.0, buf, y.1)
  answer s (some u) req buf w =
      walk t sys x mem (length s.heap + 2) s.heap s.first (record req { url = some u }) w
      >>= fall_back buf

  -- behind `s_readto`; the `assert` is a fault
  unfoldable pub take_line :
      Server (Item t sys x mem)
      → Req t sys x.Cert
      → Here t sys x.Cert
      → Option ℕ × Bytes × t.Conn
      → Run Served
  take_line s req w (none, buf, c) =
      let (req', w') = request_close t sys x.Cert (record req { ssl = some c }) w in
      ok (false, req', buf, w')
  take_line s req w (some n, buf, c) = elim (n == 0) [
    | true ↦
        let (req', w') = request_close t sys x.Cert (record req { ssl = some c }) w in
        ok (false, req', buf, w')
    | false ↦ do
      found ← strstr buf crlf
      elim found [
        | none ↦ fault
        | some p ↦ do
          buf ← poke buf p 0
          u ← parse_url mem.url (c_string buf)
          answer s u (record req { ssl = some c }) buf w
      ]
  ]

  -- behind `SSL_accept`
  unfoldable pub begin :
      Option t.Conn
      → Server (Item t sys x mem)
      → Arrival t.Conn x.Cert
      → Req t sys x.Cert
      → Bytes
      → Here t sys x.Cert
      → Run Served
  begin none s a req buf w =
      ok (false, record req { fd = some a.fd; ssl = none }, buf, hang_up t sys x.Cert a.fd w)
  begin (some c) s a req buf w =
      readto t buf max_request crlf c
      >>= take_line s (record req { fd = some a.fd; ssl = some c; cert = a.cert }) w

  -- the body of the loop, for a request that keeps the URL of the one before
  unfoldable pub serve_one :
      Server (Item t sys x mem)
      → Arrival t.Conn x.Cert
      → Req t sys x.Cert
      → Bytes
      → Here t sys x.Cert
      → Run Served
  serve_one s a req buf w = begin a.session s a req buf w

  -- the end of the loop's body; `again` is the next round
  unfoldable pub onward :
      (ℕ → Req t sys x.Cert → Bytes → Here t sys x.Cert → Run (Bool × ℕ × Here t sys x.Cert))
      → (requests max_requests : ℕ) → Served
      → Run (Bool × ℕ × Here t sys x.Cert)
  onward again requests max_requests (counts, req, buf, w) =
      let n = tally counts requests in
      elim (counts && (ltb 0 max_requests && ltb max_requests n)) [
        | true ↦ ok (true, n, w)
        | false ↦ again n req buf w
      ]

  -- The loop of `gemini_serve`, with the counters of the server; true stands for 0 and false for -1,
  -- which is returned when `accept` gives no more connections.
  unfoldable pub serve_loop :
      Server (Item t sys x mem)
      → (requests max_requests : ℕ) → List (Arrival t.Conn x.Cert)
      → Req t sys x.Cert
      → Bytes
      → Here t sys x.Cert
      → Run (Bool × ℕ × Here t sys x.Cert)
  serve_loop s requests max_requests [] req buf w = ok (false, requests, w)
  serve_loop s requests max_requests (a ∷ later) req buf w =
      serve_one s a req buf w
      >>= onward (λ n. serve_loop s n max_requests later) requests max_requests

  -- `gemini_serve`; `buf` is what its array holds at first
  unfoldable pub serve :
      Server (Item t sys x mem)
      → (requests max_requests : ℕ) → List (Arrival t.Conn x.Cert)
      → Bytes
      → Here t sys x.Cert
      → Run (Bool × ℕ × Here t sys x.Cert)
  serve s requests max_requests arrivals buf w =
      serve_loop s requests max_requests arrivals
        (record { fd = some 0; ssl = none; url = none; cert = none }) buf w

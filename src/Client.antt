-- ===== src/Client.antt =====
-- client.c: a request of a client. A `struct gemini_client` is its SSL_CTX, `none` for NULL.
pub mod Port
pub mod Requests
use geminon.Base.{
  ℕ, zero, suc, ◌+◌, ◌/◌, ◌%◌, Bool, true, false, ◌&&◌, Option, none, some, List, [], ◌∷◌, ltb,
  if◌then◌else◌, drop,
}
use geminon.Base.Arrays.{poke}
use geminon.Base.Bytes.{Bytes, c_string}
use geminon.Base.Run.{Run, ok, ◌>>=◌}
use geminon.Response.{Response}
use geminon.Url.{Url, host_string, parse_url}

-- The loop that writes a port in decimal, from the right: `i` is the offset behind `service`.
unfoldable pub service_loop : (i port : ℕ) → Bytes → Run (ℕ × Bytes)
service_loop zero port p = ok (0, p)
service_loop (suc i) port p =
    if ltb 0 port
    then (poke p i (b'0' + port % 10) >>= service_loop i (port / 10))
    else ok (suc i, p)

-- the string that `service` points at, for what the array `p` holds at first
unfoldable pub service_of : Bytes → ℕ → Run Bytes
service_of p port = do p ← poke p 5 0; (i, p) ← service_loop 5 port p; ok (c_string (drop i p))

-- What the client asks of the system and of OpenSSL: names, sockets and SSL objects.
pub record Dialer (Conn : Type 0) : Type 1 where
  pub State : Type 0
  pub Addr : Type 0
  -- `getaddrinfo`: the addresses, or `none` for an error
  pub lookup : State → (host service : Bytes) → Option (List Addr) × State
  -- `none` for -1
  pub socket : State → Addr → Option ℕ × State
  -- whether `connect` returns 0
  pub connect : State → ℕ → Addr → Bool × State
  -- `SSL_new` and `SSL_set_fd`; `none` for NULL
  pub session : State → ℕ → Option Conn × State
  -- whether `SSL_connect` returns 1
  pub handshake : Conn → Bool × Conn
  -- `SSL_write`, whose result the client does not look at
  pub write : Conn → Bytes → Conn

module _ {Conn : Type 0} (d : Dialer Conn) where
  open d use {Addr, lookup, socket, connect, session, handshake, write}

  -- the state of the system, with the sockets that have been opened and those that have been closed
  pub record Net : Type 0 where
    pub state : d.State
    pub opened : List ℕ
    pub closed : List ℕ

  abbrev pub close : ℕ → Net → Net
  close fd n = record n { closed = fd ∷ n.closed }

  -- behind `connect`; `again` is the next round of the loop
  unfoldable pub connected : (Net → Option ℕ × Net) → ℕ → Net → Bool × d.State → Option ℕ × Net
  connected again fd n (true, s) = (some fd, record n { state = s })
  connected again fd n (false, s) = again (close fd (record n { state = s }))

  -- behind `socket`
  unfoldable pub tried : (Net → Option ℕ × Net) → Addr → Net → Option ℕ × d.State → Option ℕ × Net
  tried again a n (none, s) = again (record n { state = s })
  tried again a n (some fd, s) =
      connected again fd (record n { state = s; opened = fd ∷ n.opened }) (connect s fd a)

  -- the loop over the addresses; `none` for an `fd` of -1
  unfoldable pub connect_loop : List Addr → Net → Option ℕ × Net
  connect_loop [] n = (none, n)
  connect_loop (a ∷ later) n = tried (connect_loop later) a n (socket n.state a)

  -- behind `SSL_connect`, for a response whose `fd` holds `junk`
  unfoldable pub greet :
      Bytes → (junk : Option ℕ) → ℕ → Net → Bool × Conn → Option (Response Conn) × Net
  greet url junk fd n (false, c) = (none, close fd n)
  greet url junk fd n (true, c) =
      (some (record { fd = junk; ssl = some (write (write c url) (b'\r' ∷ b'\n' ∷ [])) }), n)

  -- behind `SSL_new`
  unfoldable pub secure :
      Bytes → (junk : Option ℕ) → ℕ → Net → Option Conn × d.State → Option (Response Conn) × Net
  secure url junk fd n (none, s) = (none, close fd (record n { state = s }))
  secure url junk fd n (some c, s) = greet url junk fd (record n { state = s }) (handshake c)

  -- behind the loop over the addresses; the flag says whether `malloc` gives a block
  unfoldable pub converse :
      Bytes → Bool → (junk : Option ℕ) → Option ℕ × Net → Option (Response Conn) × Net
  converse url memory junk (none, n) = (none, n)
  converse url false junk (some fd, n) = (none, close fd n)
  converse url true junk (some fd, n) = secure url junk fd n (session n.state fd)

  -- behind `getaddrinfo`
  unfoldable pub dial :
      Bytes
      → Bool
      → (junk : Option ℕ) → Net
      → Option (List Addr) × d.State
      → Option (Response Conn) × Net
  dial url memory junk n (none, s) = (none, record n { state = s })
  dial url memory junk n (some info, s) =
      converse url memory junk (connect_loop info (record n { state = s }))

  -- behind `gemini_parse_url`
  unfoldable pub request_url :
      Bytes
      → Bool
      → (junk : Option ℕ) → (p : Bytes) → Net
      → Option Url
      → Run (Option (Response Conn) × Net)
  request_url url memory junk p n none = ok (none, n)
  request_url url memory junk p n (some u) = service_of p u.port >>= λ service.
      ok (dial url memory junk n (lookup n.state (host_string u) service))

  -- `gemini_client_request`: the block that `malloc` gives for the URL, whether it gives one for the
  -- response, what that block holds in its `fd`, and what the array `p` holds
  unfoldable pub client_request :
      Option Url
      → Bool
      → (junk : Option ℕ) → (p : Bytes) → Bytes
      → Net
      → Run (Option (Response Conn) × Net)
  client_request block memory junk p url n = parse_url block url >>= request_url url memory junk p n

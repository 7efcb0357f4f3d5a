-- ===== src/Client/Requests.antt =====
-- The sockets of `gemini_client_request`.
use geminon.Base.{
  ℕ, ◌+◌, ◌<◌, ◌≡◌, refl, ap, ◌^◌, Bool, true, false, Option, none, some, List, [], ◌∷◌, ◌++◌,
  length, arith,
}
use geminon.Base.Bytes.{Bytes, IsText}
use geminon.Base.Run.{ok}
use geminon.Client.{
  Dialer, Net, close, connected, tried, connect_loop, greet, secure, converse, dial, request_url,
  client_request,
}
use geminon.Client.Port.{service_of-number}
use geminon.Response.{Response}
use geminon.Url.{Url, host_string, parse_url}
use geminon.Url.Bounds.{parse_url-ends}
use geminon.Url.Exact.{parse_url_sound}
use geminon.Url.Grammar.{IsPort, default, explicit}

port-bounded : {ds : Bytes} {port : ℕ} → IsPort ds port → port < 65536
port-bounded default = ground arith
port-bounded (explicit ds digits most) = omega (arith, most)

without_block : (url : Bytes) → parse_url none url ≡ ok none
unfolding parse_url
without_block url = refl

module _ {Conn : Type 0} (d : Dialer Conn) where
  open d use {Addr, lookup, socket, connect, session, handshake, write}

  -- the socket that is still open, in front of others
  abbrev pub holding : Option ℕ → List ℕ → List ℕ
  holding none fds = fds
  holding (some fd) fds = fd ∷ fds

  -- The sockets `tried` have been opened and closed again, and but for them one at most has been
  -- opened, which is left open.
  abbrev pub Balanced : (held : Option ℕ) → Net d → Net d → Type 0
  Balanced held n n' =
      (tried : List ℕ) × (n'.opened ≡ holding held (tried ++ n.opened))
      × (n'.closed ≡ tried ++ n.closed)

  -- what a loop over addresses has to do, for the sockets `tail` that are opened and closed already
  abbrev Fair : Net d → (Net d → Option ℕ × Net d) → Type 0
  Fair n₀ again =
      (n : Net d) (tail : List ℕ)
      → n.opened ≡ tail ++ n₀.opened
      → n.closed ≡ tail ++ n₀.closed
      → Balanced (again n).0 n₀ (again n).1

  connected-Fair :
      (again : Net d → Option ℕ × Net d) (n₀ : Net d)
      → Fair n₀ again
      → (fd : ℕ) (m : Net d) (x : Bool × d.State) (tail : List ℕ)
      → m.opened ≡ fd ∷ (tail ++ n₀.opened)
      → m.closed ≡ tail ++ n₀.closed
      → Balanced (connected d again fd m x).0 n₀ (connected d again fd m x).1
  unfolding connected
  connected-Fair again n₀ fair fd m (true, s) tail o c = (tail, o, c)
  connected-Fair again n₀ fair fd m (false, s) tail o c =
      fair (close d fd (record m { state = s })) (fd ∷ tail) o (ap (λ fds. fd ∷ fds) c)

  tried-Fair :
      (again : Net d → Option ℕ × Net d) (n₀ : Net d)
      → Fair n₀ again
      → (a : Addr) (n : Net d) (x : Option ℕ × d.State) (tail : List ℕ)
      → n.opened ≡ tail ++ n₀.opened
      → n.closed ≡ tail ++ n₀.closed
      → Balanced (tried d again a n x).0 n₀ (tried d again a n x).1
  unfolding tried
  tried-Fair again n₀ fair a n (none, s) tail o c = fair (record n { state = s }) tail o c
  tried-Fair again n₀ fair a n (some fd, s) tail o c =
      connected-Fair again n₀ fair fd (record n { state = s; opened = fd ∷ n.opened })
        (connect s fd a) tail (ap (λ fds. fd ∷ fds) o) c

  -- The loop over the addresses leaves the socket open that it returns, and no other.
  connect_loop-Fair : (info : List Addr) (n₀ : Net d) → Fair n₀ (connect_loop d info)
  unfolding connect_loop
  connect_loop-Fair [] n₀ n tail o c = (tail, o, c)
  connect_loop-Fair (a ∷ later) n₀ n tail o c =
      tried-Fair (connect_loop d later) n₀ (connect_loop-Fair later n₀) a n (socket n.state a) tail
        o c

  -- For a response, the one socket that is open is its connection's, which has been given the URL and
  -- the end of its line, and its own `fd` is what the block held; without one every socket that has
  -- been opened is closed again.
  abbrev pub Requested :
      (url : Bytes) (junk : Option ℕ) → Net d → Option (Response Conn) → Net d → Type 0
  Requested url junk n none n' = Balanced none n n'
  Requested url junk n (some r) n' =
      (fd : ℕ) × Balanced (some fd) n n'
      × (r.fd ≡ junk)
      × ((c : Conn) × (r.ssl ≡ some (write (write c url) (b'\r' ∷ b'\n' ∷ []))))

  greet-Requested :
      (url : Bytes) (junk : Option ℕ) (fd : ℕ) (n₀ n : Net d) (x : Bool × Conn)
      → Balanced (some fd) n₀ n
      → Requested url junk n₀ (greet d url junk fd n x).0 (greet d url junk fd n x).1
  unfolding greet
  greet-Requested url junk fd n₀ n (false, c) (tail, o, e) = (fd ∷ tail, o, ap (λ fds. fd ∷ fds) e)
  greet-Requested url junk fd n₀ n (true, c) b = (fd, b, refl, (c, refl))

  secure-Requested :
      (url : Bytes) (junk : Option ℕ) (fd : ℕ) (n₀ n : Net d) (x : Option Conn × d.State)
      → Balanced (some fd) n₀ n
      → Requested url junk n₀ (secure d url junk fd n x).0 (secure d url junk fd n x).1
  unfolding secure
  secure-Requested url junk fd n₀ n (none, s) (tail, o, e) = (fd ∷ tail, o, ap (λ fds. fd ∷ fds) e)
  secure-Requested url junk fd n₀ n (some c, s) b =
      greet-Requested url junk fd n₀ (record n { state = s }) (handshake c) b

  converse-Requested :
      (url : Bytes) (memory : Bool) (junk : Option ℕ) (n₀ : Net d) (x : Option ℕ × Net d)
      → Balanced x.0 n₀ x.1
      → Requested url junk n₀ (converse d url memory junk x).0 (converse d url memory junk x).1
  unfolding converse
  converse-Requested url memory junk n₀ (none, n) b = b
  converse-Requested url false junk n₀ (some fd, n) (tail, o, e) =
      (fd ∷ tail, o, ap (λ fds. fd ∷ fds) e)
  converse-Requested url true junk n₀ (some fd, n) b =
      secure-Requested url junk fd n₀ n (session n.state fd) b

  dial-Requested :
      (url : Bytes) (memory : Bool) (junk : Option ℕ) (n : Net d) (x : Option (List Addr) × d.State)
      → Requested url junk n (dial d url memory junk n x).0 (dial d url memory junk n x).1
  unfolding dial
  dial-Requested url memory junk n (none, s) = ([], refl, refl)
  dial-Requested url memory junk n (some info, s) =
      converse-Requested url memory junk n (connect_loop d info (record n { state = s }))
        (connect_loop-Fair info n (record n { state = s }) [] refl refl)

  at_port :
      (url : Bytes) (memory : Bool) (junk : Option ℕ) (p : Bytes) (u : Url) (n : Net d)
      → length p ≡ 6
      → u.port < 65536
      → (r : Option (Response Conn)) × (n' : Net d) × (request_url d url memory junk p n (some u)
          ≡ ok (r, n'))
        × Requested url junk n r n'
  unfolding request_url
  at_port url memory junk p u n size fits =
      let (service, e, digits, value) = service_of-number p u.port size fits in
      let found = lookup n.state (host_string u) service in
      let x = dial d url memory junk n found in
      (x.0, x.1, rw e refl, dial-Requested url memory junk n found)

  -- A request for a URL whose size fits 32 bits always comes to an end without a fault. It gives
  -- either NULL, with every socket closed again that it has opened, or a response, for which one
  -- socket is left open, all others it has opened are closed, the URL and CR LF have been written to
  -- its connection, and its `fd` is the one that the block held before.
  pub client_request-Requested :
      (block : Option Url) (memory : Bool) (junk : Option ℕ) (p url : Bytes) (n : Net d)
      → IsText url
      → length url + 1 < 2 ^ 32
      → length p ≡ 6
      → (r : Option (Response Conn)) × (n' : Net d) × (client_request d block memory junk p url n
          ≡ ok (r, n'))
        × Requested url junk n r n'
  unfolding client_request request_url
  client_request-Requested block memory junk p url n chars short size =
      let (r, e) = parse_url-ends block url short in by_url block r e
    where
      by_url :
          (b : Option Url) (u : Option Url)
          → parse_url b url ≡ ok u
          → (r : Option (Response Conn)) × (n' : Net d) × (client_request d b memory junk p url n
              ≡ ok (r, n'))
            × Requested url junk n r n'
      by_url b none e = (none, n, rw e refl, ([], refl, refl))
      by_url none (some u) e = (none, n, rw (without_block url) refl, ([], refl, refl))
      by_url (some b) (some u) e =
          let (parts, i, shape, host, port, path) = parse_url_sound b u url chars short e in
          let (r, n', e', q) = at_port url memory junk p u n size (rw port (port-bounded i.port)) in
          (r, n', rw e e', q)

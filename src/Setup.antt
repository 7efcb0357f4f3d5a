-- ===== src/Setup.antt =====
-- The listening socket of a server (server.c) and the TLS contexts of both sides (server.c, client.c).
use geminon.Base.{
  ℕ, ◌%◌, ◌^◌, ◌≡◌, refl, ap, Bool, true, false, Option, none, some, List, [], ◌∷◌, ◌++◌,
}
use geminon.Base.Bytes.{Bytes}

-- What `gemini_bind` asks of the system; `none` stands for -1 and the flags say whether a call succeeds.
pub record Sockets : Type 1 where
  pub State : Type 0
  pub socket : State → Option ℕ × State
  -- `setsockopt`, for SO_REUSEADDR
  pub reuse : State → ℕ → Bool × State
  -- `bind`, to a port on any address
  pub bind_to : State → (fd port : ℕ) → Bool × State
  pub listen : State → (fd backlog : ℕ) → Bool × State

-- GEMINI_LISTEN_BACKLOG
abbrev pub listen_backlog : ℕ
listen_backlog = 1024

module _ (k : Sockets) where
  open k use {State, socket, reuse, bind_to, listen}

  -- the `sockfd` of a server, and the sockets that have been opened and closed
  pub record Host : Type 0 where
    pub state : k.State
    pub opened : List ℕ
    pub closed : List ℕ
    pub sockfd : ℕ

  -- a call failed: `close (fd)`, and its negative result is returned
  abbrev pub abandon : ℕ → Host → Bool × Host
  abandon fd h = (false, record h { closed = fd ∷ h.closed })

  -- behind `listen`; true stands for 0 and false for a negative number
  unfoldable pub listening : ℕ → Host → Bool × State → Bool × Host
  listening fd h (false, s) = abandon fd (record h { state = s })
  listening fd h (true, s) = (true, record h { state = s; sockfd = fd })

  -- behind `bind`
  unfoldable pub bound : ℕ → Host → Bool × State → Bool × Host
  bound fd h (false, s) = abandon fd (record h { state = s })
  bound fd h (true, s) = listening fd (record h { state = s }) (listen s fd listen_backlog)

  -- behind `setsockopt`; `htons` takes the last 16 bits of the port
  unfoldable pub reusing : ℕ → (port : ℕ) → Host → Bool × State → Bool × Host
  reusing fd port h (false, s) = abandon fd (record h { state = s })
  reusing fd port h (true, s) = bound fd (record h { state = s }) (bind_to s fd (port % 2 ^ 16))

  -- behind `socket`
  unfoldable pub created : (port : ℕ) → Host → Option ℕ × State → Bool × Host
  created port h (none, s) = (false, record h { state = s })
  created port h (some fd, s) =
      reusing fd port (record h { state = s; opened = fd ∷ h.opened }) (reuse s fd)

  -- `gemini_bind`
  unfoldable pub bind_server : (port : ℕ) → Host → Bool × Host
  bind_server port h = created port h (socket h.state)

  -- The calls that make a socket of the system listen on a port, each of which has succeeded.
  abbrev pub Listens : (port : ℕ) → Host → Host → Type 0
  Listens port h h' =
      (s₁ s₂ s₃ : State) × (socket h.state ≡ (some h'.sockfd, s₁))
      × (reuse s₁ h'.sockfd ≡ (true, s₂))
      × (bind_to s₂ h'.sockfd (port % 2 ^ 16) ≡ (true, s₃))
      × (listen s₃ h'.sockfd listen_backlog ≡ (true, h'.state))

  -- A server that listens on a new socket, which stays open, or one that is as before, with each new
  -- socket closed again.
  abbrev pub Bound : (port : ℕ) → Host → Bool × Host → Type 0
  Bound port h (true, h') =
      (h'.opened ≡ h'.sockfd ∷ h.opened) × (h'.closed ≡ h.closed) × Listens port h h'
  Bound port h (false, h') =
      (h'.sockfd ≡ h.sockfd)
      × ((fds : List ℕ) × (h'.opened ≡ fds ++ h.opened) × (h'.closed ≡ fds ++ h.closed))

  -- One new socket is open.
  abbrev Fresh : ℕ → Host → Host → Type 0
  Fresh fd h h' = (h'.opened ≡ fd ∷ h.opened) × (h'.closed ≡ h.closed) × (h'.sockfd ≡ h.sockfd)

  abandon-Bound : (fd port : ℕ) (h h' : Host) → Fresh fd h h' → Bound port h (abandon fd h')
  abandon-Bound fd port h h' (o, c, s) = (s, (fd ∷ [], o, ap (λ fds. fd ∷ fds) c))

  module _ (fd port : ℕ) (h : Host) (s₁ : State) (made : socket h.state ≡ (some fd, s₁)) where
    listening-Bound :
        (h' : Host) (s₂ s₃ : State) (y : Bool × State)
        → Fresh fd h h'
        → reuse s₁ fd ≡ (true, s₂)
        → bind_to s₂ fd (port % 2 ^ 16) ≡ (true, s₃)
        → listen s₃ fd listen_backlog ≡ y
        → Bound port h (listening fd h' y)
    unfolding listening
    listening-Bound h' s₂ s₃ (false, s) new reused placed e =
        abandon-Bound fd port h (record h' { state = s }) new
    listening-Bound h' s₂ s₃ (true, s) (o, c, same) reused placed e =
        (o, c, (s₁, s₂, s₃, made, reused, placed, e))

    bound-Bound :
        (h' : Host) (s₂ : State) (y : Bool × State)
        → Fresh fd h h'
        → reuse s₁ fd ≡ (true, s₂)
        → bind_to s₂ fd (port % 2 ^ 16) ≡ y
        → Bound port h (bound fd h' y)
    unfolding bound
    bound-Bound h' s₂ (false, s) new reused e =
        abandon-Bound fd port h (record h' { state = s }) new
    bound-Bound h' s₂ (true, s) new reused e =
        listening-Bound (record h' { state = s }) s₂ s (listen s fd listen_backlog) new reused e
          refl

    reusing-Bound :
        (h' : Host) (y : Bool × State)
        → Fresh fd h h'
        → reuse s₁ fd ≡ y
        → Bound port h (reusing fd port h' y)
    unfolding reusing
    reusing-Bound h' (false, s) new e = abandon-Bound fd port h (record h' { state = s }) new
    reusing-Bound h' (true, s) new e =
        bound-Bound (record h' { state = s }) s (bind_to s fd (port % 2 ^ 16)) new e refl

  created-Bound :
      (port : ℕ) (h : Host) (y : Option ℕ × State)
      → socket h.state ≡ y
      → Bound port h (created port h y)
  unfolding created
  created-Bound port h (none, s) e = (refl, ([], refl, refl))
  created-Bound port h (some fd, s) e =
      reusing-Bound fd port h s e (record h { state = s; opened = fd ∷ h.opened }) (reuse s fd)
        (refl, refl, refl) refl

  -- `gemini_bind` either returns 0, and the server has a new socket, the only one that has been opened
  -- and not been closed, which `bind` has given the port and `listen` has made listen; or it fails, at
  -- any of its calls, and then the server is as before and the socket, if there was one, has been closed.
  pub bind_server-Bound : (port : ℕ) (h : Host) → Bound port h (bind_server port h)
  unfolding bind_server
  bind_server-Bound port h = created-Bound port h (socket h.state) refl

-- What the program asks of an SSL_CTX.
pub record Contexts : Type 1 where
  pub State : Type 0
  pub Ctx : Type 0
  -- `SSL_CTX_new`; `none` for NULL
  pub new : State → Option Ctx × State
  -- whether a file is taken as a certificate and as a private key
  pub use_certificate : Ctx → Bytes → Bool × Ctx
  pub use_key : Ctx → Bytes → Bool × Ctx
  -- `SSL_CTX_set_verify`, which asks a client for its certificate or asks none
  pub set_verify : (ask : Bool) → Ctx → Ctx

module _ (c : Contexts) where
  open c use {State, Ctx, use_certificate, use_key, set_verify}

  -- a result, 0 or the number `n` for `-n`, and the `ssl` of the server or of the client
  abbrev pub Outcome : Type 0
  Outcome = ℕ × Option Ctx

  -- behind the calls for the key, and for the certificate
  unfoldable pub keyed : (ask : Bool) → Bool × Ctx → Outcome
  keyed ask (false, x) = (3, some x)
  keyed ask (true, x) = (0, some (set_verify ask x))

  unfoldable pub certified : (ask : Bool) → (key : Bytes) → Bool × Ctx → Outcome
  certified ask key (false, x) = (2, some x)
  certified ask key (true, x) = keyed ask (use_key x key)

  -- behind `SSL_CTX_new`, for a server
  unfoldable pub armed : (cert key : Bytes) → Option Ctx → Outcome
  armed cert key none = (1, none)
  armed cert key (some x) = certified true key (use_certificate x cert)

  -- `gemini_tls`
  unfoldable pub tls : (cert key : Bytes) → State → Outcome × State
  tls cert key s = let (x, s') = c.new s in (armed cert key x, s')

  -- `if (cert && key)`, for a client
  unfoldable pub identified : (cert key : Option Bytes) → Ctx → Outcome
  identified (some cert) (some key) x = certified false key (use_certificate x cert)
  identified (some cert) none x = (0, some (set_verify false x))
  identified none key x = (0, some (set_verify false x))

  -- `gemini_client_tls`
  unfoldable pub client_tls : (cert key : Option Bytes) → State → Outcome × State
  client_tls cert key s =
      let (x, s') = c.new s in (elim x [ none ↦ (1, none) | some y ↦ identified cert key y ], s')

  -- `gemini_client_close`: the SSL_CTX of the client, `none` for NULL, and those that are freed
  unfoldable pub client_close : Option Ctx → Option Ctx × List Ctx
  client_close none = (none, [])
  client_close (some x) = (none, x ∷ [])

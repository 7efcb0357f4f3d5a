-- ===== src/Server/Handlers/Proper.antt =====
-- What the server relies on in a handler: it answers and closes, or it leaves the request as it was.
use geminon.Base.{ℕ, ◌≡◌, refl, Option, none, some, ◌∷◌}
use geminon.Base.Bytes.{Bytes, IsText}
use geminon.Base.Run.{Run, ok, fault, no_fuel}
use geminon.Request.{request_respond}
use geminon.Request.Close.{Request, Req, Here, on_ssl, dismiss, request_close}
use geminon.Request.Respond.{Answered, request_respond-sends}
use geminon.Server.Handlers.{continue, done, abort, other, Memory, Verifier, Reply}
use geminon.System.{System}
use geminon.Tls.{Tls, IsLawful, WritesWhole}
use geminon.Url.{Url}

-- A request in progress, on a socket and an SSL object, for a URL.
pub record IsOpen {Conn Cert : Type 0} (fd : ℕ) (c : Conn) (u : Url) (req : Request Conn Cert)
    : Type 0 where
  pub fd_is : req.fd ≡ some fd
  pub ssl_is : req.ssl ≡ some c
  pub url_is : req.url ≡ some u

-- A request that has been closed.
pub record IsClosed {Conn Cert : Type 0} (req : Request Conn Cert) : Type 0 where
  pub no_fd : req.fd ≡ none
  pub no_ssl : req.ssl ≡ none
  pub no_url : req.url ≡ none

module _ (t : Tls) (sys : System) (Cert : Type 0) where
  -- A request on a socket and an SSL object, with a URL or none.
  abbrev pub OnSocket : ℕ → t.Conn → Req t sys Cert → Type 0
  OnSocket fd c req = (req.fd ≡ some fd) × (req.ssl ≡ some c)

  -- The socket has been closed, once, and the SSL object freed, in a state that satisfies `P`.
  abbrev pub Gone :
      (t.Conn → Type 0) → ℕ → Here t sys Cert → Req t sys Cert → Here t sys Cert → Type 0
  Gone P fd w req' w' =
      (c : t.Conn) × IsClosed req'
      × (w'.hung_up ≡ fd ∷ w.hung_up)
      × (w'.sessions ≡ c ∷ w.sessions)
      × P c

  -- what the client has been sent when a request is dismissed: the status line, unless a write failed
  abbrev pub Told : ℕ → Bytes → t.Conn → t.Conn → Type 0
  Told status meta c c' = (r : Option ℕ) × Answered t status meta c r c'

  pub close-Gone :
      (P : t.Conn → Type 0) (fd : ℕ) (c : t.Conn) (req : Req t sys Cert) (w : Here t sys Cert)
      → OnSocket fd c req
      → P c
      → Gone P fd w (request_close t sys Cert req w).0 (request_close t sys Cert req w).1
  unfolding request_close
  close-Gone P fd c req w h p = (
    c,
    record { no_fd = refl; no_ssl = refl; no_url = refl },
    rw (h.0, h.1) refl,
    rw (h.0, h.1) refl,
    p,
  )

  module _ (lawful : IsLawful t) (whole : WritesWhole t) where
    respond-OnSocket :
        (status : ℕ) (meta : Bytes) (fd : ℕ) (c : t.Conn) (req : Req t sys Cert)
        → IsText meta
        → OnSocket fd c req
        → (r : Option ℕ) × (c' : t.Conn) × (req' : Req t sys Cert) × (on_ssl t sys Cert
              (request_respond t status meta)
              req
            ≡ ok (r, req'))
          × OnSocket fd c' req'
          × Answered t status meta c r c'
    unfolding on_ssl
    respond-OnSocket status meta fd c req chars h =
        let (r, c', e, short, told) = request_respond-sends t lawful whole status meta c chars in
        (r, c', record req { ssl = some c' }, rw (h.1, e) refl, (h.0, refl), told)

    pub dismiss-Gone :
        (status : ℕ) (meta : Bytes) (fd : ℕ) (c : t.Conn) (req : Req t sys Cert)
        (w : Here t sys Cert)
        → IsText meta
        → OnSocket fd c req
        → (req' : Req t sys Cert) × (w' : Here t sys Cert) × (dismiss t sys Cert status meta req w
            ≡ ok (req', w'))
          × Gone (Told status meta c) fd w req' w'
    unfolding dismiss
    dismiss-Gone status meta fd c req w chars h =
        let (r, c', req₁, e, h', told) = respond-OnSocket status meta fd c req chars h in
        let (req', w') = request_close t sys Cert req₁ w in
        (req', w', rw e refl, close-Gone (Told status meta c) fd c' req₁ w h' (r, told))

module _ (t : Tls) (sys : System) (x : Verifier) (mem : Memory) where
  -- The request is as open as it was, with its certificate.
  abbrev pub Kept :
      ℕ → Url → Req t sys x.Cert → Here t sys x.Cert → Req t sys x.Cert → Here t sys x.Cert → Type 0
  Kept fd u req w req' w' =
      (c : t.Conn) × IsOpen fd c u req'
      × (req'.cert ≡ req.cert)
      × (w'.hung_up ≡ w.hung_up)
      × (w'.sessions ≡ w.sessions)

  -- What a handler may come to: GEMINI_HANDLER_DONE for a request that it has closed, or another
  -- result for one that it has left open.
  abbrev pub Proper :
      ℕ → Url → Req t sys x.Cert → Here t sys x.Cert → Run (Reply t sys x mem) → Type 0
  Proper fd u req w (ok (done, req', w')) = Gone t sys x.Cert (λ _. Unit) fd w req' w'
  Proper fd u req w (ok (continue, req', w')) = Kept fd u req w req' w'
  Proper fd u req w (ok (abort, req', w')) = Kept fd u req w req' w'
  Proper fd u req w (ok (other, req', w')) = Kept fd u req w req' w'
  Proper fd u req w fault = ⊥
  Proper fd u req w no_fuel = ⊥

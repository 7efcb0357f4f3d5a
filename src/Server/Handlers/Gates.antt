-- ===== src/Server/Handlers/Gates.antt =====
-- The two handlers that guard the others: client certificates and virtual hosts.
use geminon.Base.{
  ℕ, ◌≡◌, refl, Bool, true, false, ◌&&◌, ◌==◌, ==_iff, ◌⊎◌, Option, none, some, List, [], ◌∷◌, inl,
  inr, Bool-cases, if◌then◌else◌, arith,
}
use geminon.Base.Bytes.{equal-eq, equal_self, Bytes, codes, equal, IsText}
use geminon.Base.Run.{Run, ok}
use geminon.Request.Close.{Req, Here}
use geminon.Server.Handlers.Proper.{IsOpen, Gone, Told, dismiss-Gone}
use geminon.Server.Handlers.{
  continue, done, Memory, Verifier, Reply, refuse, inspect, judge, screen, handler_authn,
  handler_vhosts, known_host,
}
use geminon.System.{System}
use geminon.Tls.{Tls, IsLawful, WritesWhole}
use geminon.Url.{Url, host_string}

pub some-inj {ℓ} : {A : Type ℓ} {a b : A} → some a ≡ some b → a ≡ b
some-inj e = cc

-- One of the URLs has the host and the port of the request.
abbrev pub Listed : List Url → Url → Type 0
Listed [] u = ⊥
Listed (v ∷ vs) u = ((host_string v ≡ host_string u) × (v.port ≡ u.port)) ⊎ Listed vs u

known_host-Listed : (urls : List Url) (u : Url) → known_host urls u ≡ true → Listed urls u
unfolding known_host
known_host-Listed [] u e = cc
known_host-Listed (v ∷ vs) u e = elim (Bool-cases (equal (host_string v) (host_string u))) [
  | inl same ↦ elim (Bool-cases (v.port == u.port)) [
    | inl port ↦ inl (equal-eq _ _ same, (==_iff v.port u.port).0 port)
    | inr port ↦ inr (known_host-Listed vs u (rw (same, port) at e))
  ]
  | inr differ ↦ inr (known_host-Listed vs u (rw differ at e))
]

either : (b : Bool) → (if b then true else true) ≡ true
either true = refl
either false = refl

Listed-known_host : (urls : List Url) (u : Url) → Listed urls u → known_host urls u ≡ true
unfolding known_host
Listed-known_host [] u h = absurd h
Listed-known_host (v ∷ vs) u (inl (same, port)) =
    let hosts : equal (host_string v) (host_string u) ≡ true =
      rw same (equal_self (host_string u)) in
    let ports : (v.port == u.port) ≡ true = (==_iff v.port u.port).1 port in rw (hosts, ports) refl
Listed-known_host (v ∷ vs) u (inr h) =
    rw (Listed-known_host vs u h)
      (either (equal (host_string v) (host_string u) && v.port == u.port))

module _ (t : Tls) (sys : System) (x : Verifier) (mem : Memory) where
  -- An untouched request, or one that has been refused with a status and a text.
  abbrev pub Passed :
      Req t sys x.Cert → Here t sys x.Cert → Req t sys x.Cert → Here t sys x.Cert → Type 0
  Passed req w req' w' = (req' ≡ req) × (w' ≡ w)

  abbrev pub Refused :
      ℕ → Bytes → t.Conn → ℕ → Here t sys x.Cert → Req t sys x.Cert → Here t sys x.Cert → Type 0
  Refused status meta c = Gone t sys x.Cert (Told t sys x.Cert status meta c)

  -- A request goes on just if it has a certificate that the store verifies; else it ends with status
  -- 60 or 61.
  abbrev pub Guarded :
      x.Store → ℕ → t.Conn → Req t sys x.Cert → Here t sys x.Cert → Run (Reply t sys x mem) → Type 0
  Guarded store fd c req w (ok (continue, req', w')) =
      ((cert : x.Cert) × (req.cert ≡ some cert) × (x.verify store cert ≡ true))
      × Passed req w req' w'
  Guarded store fd c req w (ok (done, req', w')) =
      ((req.cert ≡ none) × Refused 60 (codes "Certificate Required") c fd w req' w')
      ⊎ ((cert : x.Cert) × (req.cert ≡ some cert)
          × (x.verify store cert ≡ false)
          × Refused 61 (codes "Unauthorized") c fd w req' w')
  Guarded store fd c req w _ = ⊥

  -- A request goes on just if it is for a host and a port of the list; else it ends with status 53.
  abbrev pub Hosted :
      List Url
      → ℕ
      → t.Conn
      → Url
      → Req t sys x.Cert
      → Here t sys x.Cert
      → Run (Reply t sys x mem)
      → Type 0
  Hosted urls fd c u req w (ok (continue, req', w')) = Listed urls u × Passed req w req' w'
  Hosted urls fd c u req w (ok (done, req', w')) =
      (¬ Listed urls u) × Refused 53 (codes "Not Found") c fd w req' w'
  Hosted urls fd c u req w _ = ⊥

  module _ (lawful : IsLawful t) (whole : WritesWhole t) where
    refuse-Refused :
        (status : ℕ) (meta : Bytes) (fd : ℕ) (c : t.Conn) (u : Url) (req : Req t sys x.Cert)
        (w : Here t sys x.Cert)
        → IsText meta
        → IsOpen fd c u req
        → (req' : Req t sys x.Cert) × (w' : Here t sys x.Cert) × (refuse t sys x mem status meta req
              w
            ≡ ok (done, req', w'))
          × Refused status meta c fd w req' w'
    unfolding refuse
    refuse-Refused status meta fd c u req w chars h =
        let (req', w', e, gone) =
          dismiss-Gone t sys x.Cert lawful whole status meta fd c req w chars (h.fd_is, h.ssl_is) in
        (req', w', rw e refl, gone)

    -- `s_handler_authn` lets a request pass, untouched, just if it comes with a certificate that the
    -- store verifies. Else it returns GEMINI_HANDLER_DONE, has closed the request, and has told the
    -- client 60 for no certificate and 61 for another, unless a write failed.
    pub handler_authn-Guarded :
        (store : x.Store) (fd : ℕ) (c : t.Conn) (u : Url) (req : Req t sys x.Cert)
        (w : Here t sys x.Cert)
        → IsOpen fd c u req
        → Guarded store fd c req w (handler_authn t sys x mem req store w)
    unfolding handler_authn inspect judge
    handler_authn-Guarded store fd c u req w h = by_cert req.cert refl
      where
        by_cert :
            (o : Option x.Cert)
            → req.cert ≡ o
            → Guarded store fd c req w (inspect t sys x mem o req store w)
        by_cert none e =
            let (req', w', f, gone) =
              refuse-Refused 60 (codes "Certificate Required") fd c u req w (ground arith) h in
            rw f (inl (e, gone))
        by_cert (some cert) e = elim (Bool-cases (x.verify store cert)) [
          | inl v ↦ rw v ((cert, e, v), (refl, refl))
          | inr v ↦
              let (req', w', f, gone) =
                refuse-Refused 61 (codes "Unauthorized") fd c u req w (ground arith) h in
              rw (v, f) (inr (cert, e, v, gone))
        ]

    -- `s_handler_vhosts` lets a request pass, untouched, just if one of its URLs has the host and the
    -- port of the request. Else it returns GEMINI_HANDLER_DONE, has closed the request, and has told
    -- the client 53, where gemini.h says 51, unless a write failed.
    pub handler_vhosts-Hosted :
        (urls : List Url) (fd : ℕ) (c : t.Conn) (u : Url) (req : Req t sys x.Cert)
        (w : Here t sys x.Cert)
        → IsOpen fd c u req
        → Hosted urls fd c u req w (handler_vhosts t sys x mem req urls w)
    unfolding handler_vhosts screen
    handler_vhosts-Hosted urls fd c u req w h = by_url req.url h.url_is
      where
        by_url :
            (o : Option Url)
            → o ≡ some u
            → Hosted urls fd c u req w (screen t sys x mem o req urls w)
        by_url none e = cc
        by_url (some v) e =
            let same : v ≡ u = some-inj e in
            elim (Bool-cases (known_host urls u)) [
              | inl known ↦ rw (same, known, screen) (known_host-Listed urls u known, (refl, refl))
              | inr new ↦
                  let (req', w', f, gone) =
                    refuse-Refused 53 (codes "Not Found") fd c u req w (ground arith) h in
                  rw (same, new, screen, f) (λ l. cc (Listed-known_host urls u l), gone)
            ]

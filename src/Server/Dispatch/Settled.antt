-- ===== src/Server/Dispatch/Settled.antt =====
-- Handlers that behave settle a request: it is closed, or it is as open as it was.
use geminon.Base.{
  ℕ, ◌≡◌, refl, ap, ◌∙◌, true, false, Option, none, some, List, [], ◌∷◌, inl, inr, Bool-cases, All,
  arith,
}
use geminon.Base.Bytes.{Bytes, codes}
use geminon.Base.Run.{Run, ok, fault, no_fuel, ◌>>=◌}
use geminon.Request.Close.{Req, Here}
use geminon.Server.Dispatch.{Item, Handled, call, conclude, tried, consider, applies}
use geminon.Server.Dispatch.Route.{route}
use geminon.Server.Handlers.Gates.{some-inj}
use geminon.Server.Handlers.Proper.{IsOpen, Gone, Kept, Proper, dismiss-Gone}
use geminon.Server.Handlers.{continue, done, abort, other, Memory, Verifier, path_of, Reply}
use geminon.System.{System}
use geminon.Tls.{Tls, IsLawful, WritesWhole}
use geminon.Url.{Url, path_string}

module _ (t : Tls) (sys : System) (x : Verifier) (mem : Memory) where
  abbrev pub Settled : ℕ → Url → Req t sys x.Cert → Here t sys x.Cert → Handled t sys x mem → Type 0
  Settled fd u req w (true, req', w') = Gone t sys x.Cert (λ _. Unit) fd w req' w'
  Settled fd u req w (false, req', w') = Kept t sys x mem fd u req w req' w'

  abbrev Settles :
      ℕ → Url → Req t sys x.Cert → Here t sys x.Cert → Run (Handled t sys x mem) → Type 0
  Settles fd u req w run = (y : Handled t sys x mem) × (run ≡ ok y) × Settled fd u req w y

  Kept-Settled :
      (fd : ℕ) (u : Url) (req req₁ : Req t sys x.Cert) (w w₁ : Here t sys x.Cert)
      (y : Handled t sys x mem)
      → Kept t sys x mem fd u req w req₁ w₁
      → Settled fd u req₁ w₁ y
      → Settled fd u req w y
  Kept-Settled fd u req req₁ w w₁ (true, req', w') (c, h, same, fds, sessions)
        (c', closed, fds', sessions', p) =
      (c', closed, fds' ∙ ap (λ z. fd ∷ z) fds, sessions' ∙ ap (λ z. c' ∷ z) sessions, p)
  Kept-Settled fd u req req₁ w w₁ (false, req', w') (c, h, same, fds, sessions)
        (c', h', same', fds', sessions') =
      (c', h', same' ∙ same, fds' ∙ fds, sessions' ∙ sessions)

module _ (t : Tls) (sys : System) (x : Verifier) (mem : Memory) (Fine : Url → Type 0) where
  -- A handler with a prefix that, given an open request for a fine URL whose path has the prefix,
  -- answers and closes it or leaves it open.
  abbrev pub Behaves : Item t sys x mem → Type 0
  Behaves h =
      (prefix : Bytes) × (h.prefix ≡ some prefix)
      × ((fd : ℕ) (c : t.Conn) (u : Url) (req : Req t sys x.Cert) (w : Here t sys x.Cert)
          → Fine u
          → IsOpen fd c u req
          → applies (path_string u) prefix ≡ true
          → Proper t sys x mem fd u req w (call t sys x mem h.handler h.user_data prefix req w))

  module _ (lawful : IsLawful t) (whole : WritesWhole t) (fd : ℕ) (u : Url) (fine : Fine u) where
    abbrev Goes : (Req t sys x.Cert → Here t sys x.Cert → Run (Handled t sys x mem)) → Type 0
    Goes again =
        (c : t.Conn) (req : Req t sys x.Cert) (w : Here t sys x.Cert)
        → IsOpen fd c u req
        → Settles t sys x mem fd u req w (again req w)

    onward :
        (again : Req t sys x.Cert → Here t sys x.Cert → Run (Handled t sys x mem))
        → (req req' : Req t sys x.Cert) (w w' : Here t sys x.Cert) → Goes again
        → Kept t sys x mem fd u req w req' w'
        → Settles t sys x mem fd u req w (again req' w')
    onward again req req' w w' goes kept =
        let (y, e, s) = goes kept.0 req' w' kept.1 in
        (y, e, Kept-Settled t sys x mem fd u req req' w w' y kept s)

    conclude-Settles :
        (again : Req t sys x.Cert → Here t sys x.Cert → Run (Handled t sys x mem))
        → (req : Req t sys x.Cert) (w : Here t sys x.Cert) (reply : Run (Reply t sys x mem))
        → Goes again
        → Proper t sys x mem fd u req w reply
        → Settles t sys x mem fd u req w (reply >>= conclude t sys x mem again)
    unfolding conclude
    conclude-Settles again req w (ok (done, req', w')) goes p = ((true, req', w'), refl, p)
    conclude-Settles again req w (ok (continue, req', w')) goes p =
        onward again req req' w w' goes p
    conclude-Settles again req w (ok (other, req', w')) goes p = onward again req req' w w' goes p
    conclude-Settles again req w (ok (abort, req', w')) goes p =
        let (r, v, e, gone) =
          dismiss-Gone t sys x.Cert lawful whole 59 (codes "Internal Error") fd p.0 req' w'
            (ground arith) (p.1.fd_is, p.1.ssl_is) in
        (
          (true, r, v),
          rw e refl,
          Kept-Settled t sys x mem fd u req req' w w' (true, r, v) p
              (gone.0, gone.1, gone.2, gone.3, tt),
        )
    conclude-Settles again req w fault goes p = absurd p
    conclude-Settles again req w no_fuel goes p = absurd p

    tried-Settles :
        (again : Req t sys x.Cert → Here t sys x.Cert → Run (Handled t sys x mem))
        → (h : Item t sys x mem) (c : t.Conn) (req : Req t sys x.Cert) (w : Here t sys x.Cert)
        → Behaves h
        → Goes again
        → (o : Option Bytes) → o ≡ h.prefix
        → IsOpen fd c u req
        → Settles t sys x mem fd u req w (tried t sys x mem again h (path_string u) o req w)
    unfolding tried
    tried-Settles again h c req w (prefix, e, proper) goes none same open_req = cc
    tried-Settles again h c req w (prefix, e, proper) goes (some p) same open_req =
        let is : p ≡ prefix = some-inj (same ∙ e) in
        elim (Bool-cases (applies (path_string u) p)) [
          | inl fits ↦
              rw (fits, tried)
                (conclude-Settles again req w _ goes
                  (rw is (proper fd c u req w fine open_req (rw is at fits))))
          | inr not ↦ rw (not, tried) (goes c req w open_req)
        ]

    -- Such handlers, considered in turn, end, and settle the request.
    pub route-Settles :
        (hs : List (Item t sys x mem))
        → All Behaves hs
        → (c : t.Conn) (req : Req t sys x.Cert) (w : Here t sys x.Cert) → IsOpen fd c u req
        → (y : Handled t sys x mem) × (route t sys x mem hs req w ≡ ok y)
          × Settled t sys x mem fd u req w y
    unfolding route consider path_of
    route-Settles [] all c req w h = ((false, req, w), refl, (c, h, refl, refl, refl))
    route-Settles (g ∷ hs) all c req w h =
        let e : path_of req.url ≡ ok (path_string u) = rw h.url_is refl in
        rw e (
          tried-Settles (route t sys x mem hs) g c req w all.0 (route-Settles hs all.1) g.prefix
            refl h)

-- ===== src/Server/Dispatch/Guards.antt =====
-- The handlers of server.c that guard others, in the walk of `gemini_serve`.
use geminon.Base.{ℕ, ◌≡◌, refl, ap₂, true, ◌⊎◌, inl, inr, some, List, ◌∷◌}
use geminon.Base.Bytes.{Bytes, codes}
use geminon.Base.Run.{Run, ok, fault, no_fuel, ◌>>=◌}
use geminon.Request.Close.{Req, Here}
use geminon.Server.Dispatch.{
  Item, Handled, authn, vhosts, store, hosts, applies, call, conclude, consider, tried,
}
use geminon.Server.Dispatch.Route.{route}
use geminon.Server.Dispatch.Settled.{Behaves}
use geminon.Server.Handlers.Gates.{
  Guarded, Hosted, Refused, handler_authn-Guarded, handler_vhosts-Hosted,
}
use geminon.Server.Handlers.Proper.{IsOpen, Proper}
use geminon.Server.Handlers.{
  Memory, Verifier, Reply, continue, done, abort, other, path_of, handler_authn, handler_vhosts,
}
use geminon.System.{System}
use geminon.Tls.{Tls, IsLawful, WritesWhole}
use geminon.Url.{Url, path_string}

module _ (t : Tls) (sys : System) (x : Verifier) (mem : Memory) where
  Guarded-Proper :
      (s : x.Store) (fd : ℕ) (c : t.Conn) (u : Url) (req : Req t sys x.Cert) (w : Here t sys x.Cert)
      → IsOpen fd c u req
      → (reply : Run (Reply t sys x mem)) → Guarded t sys x mem s fd c req w reply
      → Proper t sys x mem fd u req w reply
  Guarded-Proper s fd c u req w h (ok (continue, r, v)) (_, (same, here)) =
      rw (same, here) (c, h, refl, refl, refl)
  Guarded-Proper s fd c u req w h (ok (done, r, v)) (inl (_, (c', closed, fds, sessions, _))) =
      (c', closed, fds, sessions, tt)
  Guarded-Proper s fd c u req w h (ok (done, r, v))
        (inr (_, _, _, (c', closed, fds, sessions, _))) =
      (c', closed, fds, sessions, tt)
  Guarded-Proper s fd c u req w h (ok (abort, r, v)) g = absurd g
  Guarded-Proper s fd c u req w h (ok (other, r, v)) g = absurd g
  Guarded-Proper s fd c u req w h fault g = absurd g
  Guarded-Proper s fd c u req w h no_fuel g = absurd g

  Hosted-Proper :
      (urls : List Url) (fd : ℕ) (c : t.Conn) (u : Url) (req : Req t sys x.Cert)
      (w : Here t sys x.Cert)
      → IsOpen fd c u req
      → (reply : Run (Reply t sys x mem)) → Hosted t sys x mem urls fd c u req w reply
      → Proper t sys x mem fd u req w reply
  Hosted-Proper urls fd c u req w h (ok (continue, r, v)) (_, (same, here)) =
      rw (same, here) (c, h, refl, refl, refl)
  Hosted-Proper urls fd c u req w h (ok (done, r, v)) (_, (c', closed, fds, sessions, _)) =
      (c', closed, fds, sessions, tt)
  Hosted-Proper urls fd c u req w h (ok (abort, r, v)) g = absurd g
  Hosted-Proper urls fd c u req w h (ok (other, r, v)) g = absurd g
  Hosted-Proper urls fd c u req w h fault g = absurd g
  Hosted-Proper urls fd c u req w h no_fuel g = absurd g

  -- The handlers, as `gemini_handle_authn` and `gemini_handle_vhosts` register them.
  abbrev pub authn_item : Bytes → x.Store → Item t sys x mem
  authn_item prefix s = record { prefix = some prefix; handler = authn; user_data = store s }

  abbrev pub vhosts_item : Bytes → List Url → Item t sys x mem
  vhosts_item prefix urls = record {
    prefix = some prefix;
    handler = vhosts;
    user_data = hosts urls;
  }

  -- The request comes with a certificate that the store verifies.
  abbrev pub Verified : x.Store → Req t sys x.Cert → Type 0
  Verified s req = (cert : x.Cert) × (req.cert ≡ some cert) × (x.verify s cert ≡ true)

  -- What a walk comes to behind a guard: it goes on as if the guard were not there, or it is over,
  -- and the request has been refused.
  abbrev pub Gated :
      (passes : Type 0)
      → (Req t sys x.Cert → Here t sys x.Cert → Type 0)
      → (behind run : Run (Handled t sys x mem)) → Type 0
  Gated passes Refusal behind run =
      (passes × (run ≡ behind))
      ⊎ ((¬ passes)
          × ((r : Req t sys x.Cert) × (v : Here t sys x.Cert) × (run ≡ ok (true, r, v))
              × Refusal r v))

  Guarded-Gated :
      (s : x.Store) (fd : ℕ) (c : t.Conn) (req : Req t sys x.Cert) (w : Here t sys x.Cert)
      → (again : Req t sys x.Cert → Here t sys x.Cert → Run (Handled t sys x mem))
      → (reply : Run (Reply t sys x mem)) → Guarded t sys x mem s fd c req w reply
      → Gated
          (Verified s req)
          (λ r v.
            Refused t sys x mem 60 (codes "Certificate Required") c fd w r v
            ⊎ Refused t sys x mem 61 (codes "Unauthorized") c fd w r v)
          (again req w)
          (reply >>= conclude t sys x mem again)
  unfolding conclude
  Guarded-Gated s fd c req w again (ok (continue, r, v)) (cert, (same, here)) =
      inl (cert, ap₂ again same here)
  Guarded-Gated s fd c req w again (ok (done, r, v)) (inl (without, gone)) =
      inr (λ (cert, e, ok_). cc, (r, v, refl, inl gone))
  Guarded-Gated s fd c req w again (ok (done, r, v)) (inr (cert, e, bad, gone)) =
      inr (λ (cert', e', good). cc, (r, v, refl, inr gone))
  Guarded-Gated s fd c req w again (ok (abort, r, v)) g = absurd g
  Guarded-Gated s fd c req w again (ok (other, r, v)) g = absurd g
  Guarded-Gated s fd c req w again fault g = absurd g
  Guarded-Gated s fd c req w again no_fuel g = absurd g

  module _ (lawful : IsLawful t) (whole : WritesWhole t) where
    pub authn-Behaves :
        (Fine : Url → Type 0) (prefix : Bytes) (s : x.Store)
        → Behaves t sys x mem Fine (authn_item prefix s)
    unfolding call
    authn-Behaves Fine prefix s = (
      prefix,
      refl,
      λ fd c u req w fine h _.
          Guarded-Proper s fd c u req w h (handler_authn t sys x mem req s w)
            (handler_authn-Guarded t sys x mem lawful whole s fd c u req w h),
    )

    pub vhosts-Behaves :
        (Fine : Url → Type 0) (prefix : Bytes) (urls : List Url)
        → Behaves t sys x mem Fine (vhosts_item prefix urls)
    unfolding call
    vhosts-Behaves Fine prefix urls = (
      prefix,
      refl,
      λ fd c u req w fine h _.
          Hosted-Proper urls fd c u req w h (handler_vhosts t sys x mem req urls w)
            (handler_vhosts-Hosted t sys x mem lawful whole urls fd c u req w h),
    )

    -- In front of other handlers, and for a path with its prefix, `s_handler_authn` lets a request on
    -- to them just if it comes with a certificate that the store verifies. Else the walk is over,
    -- whatever those handlers are: the request has been closed, and its client told 60 or 61 unless a
    -- write failed.
    pub route-Gated :
        (prefix : Bytes) (s : x.Store) (hs : List (Item t sys x mem)) (fd : ℕ) (c : t.Conn)
        (u : Url)
        → (req : Req t sys x.Cert) (w : Here t sys x.Cert) → IsOpen fd c u req
        → applies (path_string u) prefix ≡ true
        → Gated
            (Verified s req)
            (λ r v.
              Refused t sys x mem 60 (codes "Certificate Required") c fd w r v
              ⊎ Refused t sys x mem 61 (codes "Unauthorized") c fd w r v)
            (route t sys x mem hs req w)
            (route t sys x mem (authn_item prefix s ∷ hs) req w)
    unfolding route consider path_of call tried
    route-Gated prefix s hs fd c u req w h fits =
        let e : path_of req.url ≡ ok (path_string u) = rw h.url_is refl in
        rw (e, tried, fits)
          (Guarded-Gated s fd c req w (route t sys x mem hs) (handler_authn t sys x mem req s w)
            (handler_authn-Guarded t sys x mem lawful whole s fd c u req w h))

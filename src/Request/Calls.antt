-- ===== src/Request/Calls.antt =====
-- The calls on a request, where its SSL object is known, and what they send.
use geminon.Base.{
  ℕ, ◌≡◌, refl, ap, ◌∙◌, inl, inr, Bool, true, false, Option, none, some, [], ◌++◌, length,
  take_all, subst, arith,
}
use geminon.Base.Bytes.{Bytes}
use geminon.Base.Run.{Run, ok}
use geminon.Request.Close.{Req, Here, on_ssl, stream}
use geminon.Request.Failures.{Sends, Stopped-first}
use geminon.Request.Respond.{Answered, line}
use geminon.Request.Stream.Sends.{Streamed}
use geminon.Request.Stream.{request_stream}
use geminon.Request.Write.{AllOrFailure}
use geminon.System.{System}
use geminon.Tls.{Tls, Failed, Stopped}
use mathlib.Core.List.{append-nil}

module _ (t : Tls) where
  open t use {Conn}

  Failed-Sends : (bs : Bytes) (c c' : Conn) → Failed t c bs c' → Sends t bs c c'
  Failed-Sends bs c c' h =
      inr (c', subst (λ z. Stopped t z c c') (append-nil bs) (Stopped-first t bs [] c c' h))

  pub Answered-Sends :
      (status : ℕ) (meta : Bytes) (c : Conn) (r : Option ℕ) (c' : Conn)
      → Answered t status meta c r c'
      → Sends t (line status meta) c c'
  Answered-Sends status meta c none c' h = Failed-Sends (line status meta) c c' h
  Answered-Sends status meta c (some k) c' h = inl h.1

  pub AllOrFailure-Sends :
      (bs : Bytes) (c : Conn) (r : Option ℕ) (c' : Conn)
      → AllOrFailure t bs (length bs) c r c'
      → Sends t bs c c'
  AllOrFailure-Sends bs c none c' h =
      Failed-Sends bs c c' (subst (λ z. Failed t c z c') (take_all (length bs) bs (omega arith)) h)
  AllOrFailure-Sends bs c (some k) c' h =
      inl (h.1 ∙ ap (λ z. t.sent c ++ z) (take_all (length bs) bs (omega arith)))

module _ (t : Tls) (sys : System) where
  pub Streamed-Sends :
      (content : Bytes) (e : sys.State) (c : t.Conn) (r : Bool) (s : sys.State) (c' : t.Conn)
      → Streamed t sys content e c r s c'
      → Sends t content c c'
  Streamed-Sends content e c true s c' (same, all) = inl all
  Streamed-Sends content e c false s c' h = inr (c', h)

module _ (t : Tls) (sys : System) (Cert : Type 0) where
  pub on_ssl-some :
      (f : t.Conn → Run (Option ℕ × t.Conn)) (req : Req t sys Cert) {c : t.Conn} {r : Option ℕ}
      {c' : t.Conn}
      → req.ssl ≡ some c
      → f c ≡ ok (r, c')
      → on_ssl t sys Cert f req ≡ ok (r, record req { ssl = some c' })
  unfolding on_ssl
  on_ssl-some f req e h = rw (e, h) refl

  pub stream-some :
      (k : ℕ) (buf : Option Bytes) (fd block : ℕ) (req : Req t sys Cert) (w : Here t sys Cert)
      → (c : t.Conn) (r : Bool) (s : sys.State) (c' : t.Conn) → req.ssl ≡ some c
      → request_stream t sys k buf fd block w.files c ≡ ok (r, s, c')
      → stream t sys Cert k buf fd block req w
        ≡ ok (r, record req { ssl = some c' }, record w { files = s })
  unfolding stream
  stream-some k buf fd block req w c r s c' e f = rw (e, f) refl

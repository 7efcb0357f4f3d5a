-- ===== src/Cli/Handlers.antt =====
-- geminon.c: the handlers of the server's command line.
pub mod Echo
use geminon.Base.{ℕ, Option, length}
use geminon.Base.Bytes.{Bytes, codes}
use geminon.Base.Run.{Run, ok, ◌>>=◌}
use geminon.Request.Close.{Req, Here, on_ssl, request_close}
use geminon.Request.{request_respond, request_write}
use geminon.Server.Dispatch.{UserData}
use geminon.Server.Handlers.{Memory, Verifier, Reply, done, path_of}
use geminon.Server.Serve.{crlf}
use geminon.System.{System}
use geminon.Tls.{Tls}

module _ (t : Tls) (sys : System) (x : Verifier) (mem : Memory) where
  -- `echo_handler`
  unfoldable pub echo_handler :
      (prefix : Bytes)
      → Req t sys x.Cert
      → UserData t sys x mem
      → Here t sys x.Cert
      → Run (Reply t sys x mem)
  echo_handler prefix req d w = do
    (r, req) ← on_ssl t sys x.Cert (request_respond t 20 (codes "text/plain")) req
    path ← path_of req.url
    (r, req) ← on_ssl t sys x.Cert (request_write t path (length path)) req
    (r, req) ← on_ssl t sys x.Cert (request_write t crlf 2) req
    let (req, w) = request_close t sys x.Cert req w
    ok (done, req, w)

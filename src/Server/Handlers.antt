-- ===== src/Server/Handlers.antt =====
-- The handlers that server.c has: files, client certificates and virtual hosts.
pub mod Files
pub mod Gates
pub mod Overflow
pub mod Proper
use geminon.Base.{
  ℕ, ◌+◌, Bool, true, false, ◌&&◌, Option, none, some, List, [], ◌∷◌, ◌==◌, length, drop, ltb,
  if◌then◌else◌,
}
use geminon.Base.Bytes.{Bytes, codes, equal}
use geminon.Base.Run.{Run, ok, fault, ◌>>=◌}
use geminon.Fs.Open.{fs_open}
use geminon.Request.{request_respond}
use geminon.Request.Close.{Request, World, Req, Here, on_ssl, dismiss, request_close, stream}
use geminon.System.{System}
use geminon.Tls.{Tls}
use geminon.Url.{Url, host_string, path_string}

-- GEMINI_HANDLER_CONTINUE, GEMINI_HANDLER_DONE, GEMINI_HANDLER_ABORT, and any other result
pub data Verdict : Type 0 where
  continue done abort other : Verdict

-- What `malloc` gives when it is asked for a URL, a path and a buffer for a stream, and how many reads
-- a stream may make.
pub record Memory : Type 0 where
  pub url : Option Url
  pub path : Bool
  pub buffer : Option Bytes
  pub reads : ℕ

-- GEMINI_STREAM_BLOCK_SIZE
abbrev pub stream_block_size : ℕ
stream_block_size = 8192

-- `p + n`, for a string of which no more than the terminator may be passed
unfoldable pub skip : Bytes → ℕ → Run Bytes
skip s n = if ltb (length s) n then fault else ok (drop n s)

-- the string at `req->url->path`
unfoldable pub path_of : Option Url → Run Bytes
path_of none = fault
path_of (some u) = ok (path_string u)

-- the loop of `s_handler_vhosts`
unfoldable pub known_host : List Url → Url → Bool
known_host [] u = false
known_host (v ∷ vs) u =
    let rest = known_host vs u in
    if equal (host_string v) (host_string u) && v.port == u.port then true else rest

-- A store of certificate authorities, and whether `X509_verify_cert` returns 1 for a certificate.
pub record Verifier : Type 1 where
  pub Cert : Type 0
  pub Store : Type 0
  pub verify : Store → Cert → Bool

module _ (t : Tls) (sys : System) (x : Verifier) (mem : Memory) where
  abbrev pub Reply : Type 0
  Reply = Verdict × Req t sys x.Cert × Here t sys x.Cert

  -- behind `gemini_fs_open`
  unfoldable pub send_file : Req t sys x.Cert → Here t sys x.Cert → Option ℕ × sys.State → Run Reply
  send_file req w (none, s) = ok (continue, req, record w { files = s })
  send_file req w (some fd, s) = do
    (r, req) ← on_ssl t sys x.Cert (request_respond t 20 (codes "text/plain")) req
    (r, req, w) ←
        stream t sys x.Cert mem.reads mem.buffer fd stream_block_size req (record w { files = s })
    let (req, w) = request_close t sys x.Cert req (record w { files = sys.close w.files fd })
    ok (done, req, w)

  -- `s_handler_fs`, with the flags O_RDONLY
  unfoldable pub handler_fs : Bytes → Req t sys x.Cert → Bytes → Here t sys x.Cert → Run Reply
  handler_fs prefix req root w = do
    path ← path_of req.url
    file ← skip path (length prefix)
    fs_open sys mem.path root (some file) 0 w.files >>= send_file req w

  -- a refusal, after which the request is closed
  unfoldable pub refuse : ℕ → Bytes → Req t sys x.Cert → Here t sys x.Cert → Run Reply
  refuse status meta req w = dismiss t sys x.Cert status meta req w >>= λ y. ok (done, y.0, y.1)

  -- what `s_handler_authn` does with the certificate of a request, and with the result of its check
  unfoldable pub judge : Bool → Req t sys x.Cert → Here t sys x.Cert → Run Reply
  judge true req w = ok (continue, req, w)
  judge false req w = refuse 61 (codes "Unauthorized") req w

  unfoldable pub inspect :
      Option x.Cert → Req t sys x.Cert → x.Store → Here t sys x.Cert → Run Reply
  inspect none req store w = refuse 60 (codes "Certificate Required") req w
  inspect (some cert) req store w = judge (x.verify store cert) req w

  -- `s_handler_authn`
  unfoldable pub handler_authn : Req t sys x.Cert → x.Store → Here t sys x.Cert → Run Reply
  handler_authn req store w = inspect req.cert req store w

  -- what `s_handler_vhosts` does with the URL of a request
  unfoldable pub screen : Option Url → Req t sys x.Cert → List Url → Here t sys x.Cert → Run Reply
  screen none req urls w = fault
  screen (some u) req urls w = elim (known_host urls u) [
    | true ↦ ok (continue, req, w)
    | false ↦ refuse 53 (codes "Not Found") req w
  ]

  -- `s_handler_vhosts`
  unfoldable pub handler_vhosts : Req t sys x.Cert → List Url → Here t sys x.Cert → Run Reply
  handler_vhosts req urls w = screen req.url req urls w

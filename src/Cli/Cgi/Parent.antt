-- ===== src/Cli/Cgi/Parent.antt =====
-- What `cgi_handler` does with a program.
use geminon.Base.{ℕ, ◌<◌, ◌≡◌, refl, Bool, true, false, some, ◌++◌, length}
use geminon.Base.Bytes.{Bytes}
use geminon.Base.Run.{Run, ok}
use geminon.Cli.Cgi.{Processes, waited, parent}
use geminon.Request.Calls.{stream-some}
use geminon.Request.Close.{Req, Here}
use geminon.Request.Stream.Sends.{Reads, Streamed, request_stream-Streamed}
use geminon.Request.Stream.{request_stream}
use geminon.Server.Handlers.Proper.{IsOpen, Gone, Kept, close-Gone}
use geminon.Server.Handlers.{Memory, Verifier, Reply, done, abort}
use geminon.System.{System}
use geminon.Tls.{Stopped, Tls, IsLawful, WritesWhole}
use geminon.Url.{Url}

module _ (t : Tls) (sys : System) (x : Verifier) (mem : Memory) (procs : Processes sys) where
  open procs use {pipe, fork}

  -- The output of a program has been sent and the request closed; or the handler returns
  -- GEMINI_HANDLER_ABORT for a request that is still open, when a write has failed.
  abbrev pub Ran :
      ℕ
      → Url
      → t.Conn
      → (output : Bytes) → Req t sys x.Cert
      → Here t sys x.Cert
      → Run (Reply t sys x mem)
      → Type 0
  Ran fd u c output req w (ok (done, req', w')) =
      Gone t sys x.Cert (λ c'. t.sent c' ≡ t.sent c ++ output) fd w req' w'
  Ran fd u c output req w (ok (abort, req', w')) =
      Kept t sys x mem fd u req w req' w'
      × ((c' : t.Conn) × (req'.ssl ≡ some c') × Stopped t output c c')
  Ran fd u c output req w _ = ⊥

  module _ (lawful : IsLawful t) (whole : WritesWhole t) where
    -- For a request that is open, and a pipe from which a child's output can be read up to its end,
    -- what follows `fork` in the parent ends: the output has been sent and the request closed, with
    -- GEMINI_HANDLER_DONE; or a first part of it has been sent and the write behind it has failed, and it returns
    -- GEMINI_HANDLER_ABORT for an open request.
    pub parent-Ran :
        (kid read_end write_end fd : ℕ) (u : Url) (c : t.Conn) (buf output : Bytes) (s : sys.State)
        → (req : Req t sys x.Cert) (w : Here t sys x.Cert) → IsOpen fd c u req
        → mem.buffer ≡ some buf
        → length buf ≡ 8192
        → Reads t sys read_end 8192 (sys.close w.files write_end) output s
        → length output < mem.reads
        → Ran fd u c output req w (parent t sys x mem procs kid (read_end, write_end) req w)
    unfolding parent waited
    parent-Ran kid read_end write_end fd u c buf output s req w h memory size reads lt =
        let w₁ = record w { files = sys.close w.files write_end } in
        let (r, s', c', e, streamed) =
          request_stream-Streamed t sys lawful whole mem.reads read_end 8192 buf
            (sys.close w.files write_end) c output s size reads lt in
        let e' : request_stream t sys mem.reads mem.buffer read_end 8192 w₁.files c
            ≡ ok (r, s', c') =
          rw memory e in
        rw
          (stream-some t sys x.Cert mem.reads mem.buffer read_end 8192 req w₁ c r s' c' h.ssl_is e')
          (after r s' c' streamed)
      where
        after :
            (r : Bool) (s' : sys.State) (c' : t.Conn)
            → Streamed t sys output s c r s' c'
            → Ran fd u c output req w (
                ok (
                  waited t sys x mem procs
                    (r, record req { ssl = some c' }, record w { files = procs.wait s' kid })))
        after true s' c' (same, all) =
            close-Gone t sys x.Cert (λ c'. t.sent c' ≡ t.sent c ++ output) fd c'
              (record req { ssl = some c' }) (record w { files = procs.wait s' kid })
              (h.fd_is, refl) all
        after false s' c' failed = (
          (c', record { fd_is = h.fd_is; ssl_is = refl; url_is = h.url_is }, refl, refl, refl),
          (c', refl, failed),
        )

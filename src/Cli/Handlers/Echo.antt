-- ===== src/Cli/Handlers/Echo.antt =====
-- What `echo_handler` sends.
use geminon.Base.{ℕ, ◌≡◌, refl, some, ◌++◌, length, arith}
use geminon.Base.Bytes.{Bytes, codes}
use geminon.Base.Run.{ok}
use geminon.Cli.Handlers.{echo_handler}
use geminon.Request.Calls.{on_ssl-some, Answered-Sends, AllOrFailure-Sends}
use geminon.Request.Failures.{Sends, Sends-append}
use geminon.Request.Close.{Req, Here, request_close}
use geminon.Request.Respond.{line, request_respond-sends}
use geminon.Request.Write.{request_write-whole}
use geminon.Request.{request_respond, request_write}
use geminon.Server.Dispatch.Settled.{Behaves}
use geminon.Server.Dispatch.{UserData, own, call}
use geminon.Server.Handlers.Proper.{IsOpen, Gone, close-Gone}
use geminon.Server.Handlers.{Memory, Verifier, done, path_of}
use geminon.Server.Serve.{crlf}
use geminon.System.{System}
use geminon.Tls.{Tls, IsLawful, WritesWhole}
use geminon.Url.{Url, path_string}

module _ (t : Tls) (sys : System) (x : Verifier) (mem : Memory) where
  module _ (lawful : IsLawful t) (whole : WritesWhole t) where
    -- `echo_handler` returns GEMINI_HANDLER_DONE for an open request, which it has closed, and has sent
    -- a status line for 20 and text/plain, the path of the request, and CR LF;
    -- or a first part of these, and the write behind it has failed.
    pub echo_handler-Sends :
        (prefix : Bytes) (d : UserData t sys x mem) (fd : ℕ) (c : t.Conn) (u : Url)
        (req : Req t sys x.Cert)
        → (w : Here t sys x.Cert) → IsOpen fd c u req
        → (req' : Req t sys x.Cert) × (w' : Here t sys x.Cert) × (echo_handler t sys x mem prefix
              req d w
            ≡ ok (done, req', w'))
          × Gone t sys x.Cert
              (Sends t (line 20 (codes "text/plain") ++ (path_string u ++ crlf)) c)
              fd
              w
              req'
              w'
    unfolding echo_handler path_of
    echo_handler-Sends prefix d fd c u req w h =
        let (r₁, c₁, e₁, short, told) =
          request_respond-sends t lawful whole 20 (codes "text/plain") c (ground arith) in
        let (r₂, c₂, e₂, all₂) =
          request_write-whole t lawful whole (path_string u) (length (path_string u)) c₁
            (omega arith) in
        let (r₃, c₃, e₃, all₃) = request_write-whole t lawful whole crlf 2 c₂ (ground arith) in
        let step₁ =
          on_ssl-some t sys x.Cert (request_respond t 20 (codes "text/plain")) req h.ssl_is e₁ in
        let path : path_of req.url ≡ ok (path_string u) = rw h.url_is refl in
        let all =
          Sends-append t (line 20 (codes "text/plain")) (path_string u ++ crlf) c c₁ c₃
            (Answered-Sends t 20 (codes "text/plain") c r₁ c₁ told)
            (Sends-append t (path_string u) crlf c₁ c₂ c₃
              (AllOrFailure-Sends t (path_string u) c₁ r₂ c₂ all₂)
              (AllOrFailure-Sends t crlf c₂ r₃ c₃ all₃)) in
        let step₂ =
          on_ssl-some t sys x.Cert (request_write t (path_string u) (length (path_string u)))
            (record req { ssl = some c₁ }) refl e₂ in
        let step₃ =
          on_ssl-some t sys x.Cert (request_write t crlf 2) (record req { ssl = some c₂ }) refl
            e₃ in
        let req₃ = record req { ssl = some c₃ } in
        let (req', w') = request_close t sys x.Cert req₃ w in
        (
          req',
          w',
          rw (step₁, path, step₂, step₃) refl,
          close-Gone t sys x.Cert _ fd c₃ req₃ w (h.fd_is, refl) all,
        )

    -- the handler, as `configure` registers it
    pub echo-Behaves :
        (Fine : Url → Type 0) (prefix : Bytes) (d : UserData t sys x mem)
        → Behaves t sys x mem Fine (record {
          prefix = some prefix;
          handler = own (echo_handler t sys x mem);
          user_data = d;
        })
    unfolding call
    echo-Behaves Fine prefix d = (
      prefix,
      refl,
      λ fd c u req w fine h fits.
          let (req', w', e, (c', closed, fds, sessions, told)) =
            echo_handler-Sends prefix d fd c u req w h in
          rw e (c', closed, fds, sessions, tt),
    )

-- ===== src/Server/Handlers/Files.antt =====
-- What `s_handler_fs` serves.
use geminon.Base.{
  ℕ, zero, suc, ◌<◌, ◌≤◌, ◌≡◌, refl, true, false, Bool-cases, inl, inr, Option, none, some, [], ◌∷◌,
  ◌++◌, length, length-drop, drop, ltb, arith,
}
use geminon.Base.Bytes.{Bytes, codes, IsText}
use geminon.Base.Run.{Run, ok, fault, no_fuel}
use geminon.Fs.Open.Checks.{Outcome, Outcome-IsRegular, fs_open-Outcome}
use geminon.Fs.Open.{fs_open}
use geminon.Request.Calls.{on_ssl-some, stream-some, Answered-Sends, Streamed-Sends}
use geminon.Request.Close.{Req, Here, request_close}
use geminon.Request.Failures.{Sends, Sends-append}
use geminon.Request.Respond.{line, request_respond-sends}
use geminon.Request.Stream.Sends.{Reads, request_stream-Streamed}
use geminon.Request.Stream.{request_stream}
use geminon.Request.{request_respond}
use geminon.Server.Dispatch.{files, root, applies, call}
use geminon.Server.Dispatch.Settled.{Behaves}
use geminon.Server.Handlers.Proper.{IsOpen, Gone, Proper, close-Gone}
use geminon.Server.Handlers.{
  Memory, Verifier, Reply, continue, done, abort, other, stream_block_size, skip, path_of,
  send_file, handler_fs,
}
use geminon.System.{System}
use geminon.Tls.{Tls, IsLawful, WritesWhole}
use geminon.Url.{Url, path_string}

-- A URL with a path that `gemini_fs_resolve` has room for.
abbrev pub IsShort : Url → Type 0
IsShort u = IsText (path_string u) × (length (path_string u) ≤ 2047)

pub IsText-drop : (n : ℕ) (s : Bytes) → IsText s → IsText (drop n s)
IsText-drop zero s h = h
IsText-drop (suc n) [] h = tt
IsText-drop (suc n) (b ∷ s) h = IsText-drop n s h.1

pub applies-length :
    (path prefix : Bytes) → applies path prefix ≡ true → ltb (length path) (length prefix) ≡ false
unfolding applies
applies-length path prefix e = elim (Bool-cases (ltb (length path) (length prefix))) [
  | inl short ↦ cc (rw short at e)
  | inr long ↦ long
]

-- Memory for a path and for the buffer of a stream.
pub record HasMemory (mem : Memory) : Type 0 where
  pub path : mem.path ≡ true
  pub buf : Bytes
  pub buffer : mem.buffer ≡ some buf
  pub size : length buf ≡ stream_block_size

module _ (t : Tls) (sys : System) (x : Verifier) (mem : Memory) where
  -- A regular file can be read to its end, in fewer reads than the bound.
  abbrev pub Readable : Type 0
  Readable =
      (fd : ℕ) (s : sys.State)
      → sys.fstat s fd ≡ some true
      → (content : Bytes) × (s' : sys.State) × Reads t sys fd stream_block_size s content s'
        × (length content < mem.reads)

  -- The request is untouched, and no regular file was found below the root; or such a file, and no
  -- other, has been sent behind a status line, its descriptor has been closed, and so has the request.
  abbrev pub Served :
      (dir file : Bytes)
      → ℕ
      → t.Conn
      → Req t sys x.Cert
      → Here t sys x.Cert
      → Run (Reply t sys x mem)
      → Type 0
  Served dir file fd c req w (ok (continue, req', w')) =
      Outcome sys dir 0 w.files file none w'.files
      × (req' ≡ req)
      × (w'.hung_up ≡ w.hung_up)
      × (w'.sessions ≡ w.sessions)
  Served dir file fd c req w (ok (done, req', w')) =
      (res : ℕ) × (s s' : sys.State) × (content : Bytes) × Outcome sys dir 0 w.files file (some res)
        s
      × Reads t sys res stream_block_size s content s'
      × ((v : sys.State) × (w'.files ≡ sys.close (sys.close v res) fd))
      × Gone t sys x.Cert (Sends t (line 20 (codes "text/plain") ++ content) c) fd w req' w'
  Served dir file fd c req w _ = ⊥

  module _ (lawful : IsLawful t) (whole : WritesWhole t) (has : HasMemory mem)
      (readable : Readable) where
    send_file-Served :
        (dir file : Bytes) (fd : ℕ) (c : t.Conn) (u : Url) (req : Req t sys x.Cert)
        (w : Here t sys x.Cert)
        → IsOpen fd c u req
        → (r : Option ℕ) (s : sys.State) → Outcome sys dir 0 w.files file r s
        → Served dir file fd c req w (send_file t sys x mem req w (r, s))
    unfolding send_file request_close
    send_file-Served dir file fd c u req w h none s outcome = (outcome, refl, refl, refl)
    send_file-Served dir file fd c u req w h (some res) s outcome =
        let (content, s', reads, short) =
          readable res s (Outcome-IsRegular sys dir 0 w.files file outcome) in
        let (r₁, c₁, e₁, size, told) =
          request_respond-sends t lawful whole 20 (codes "text/plain") c (ground arith) in
        let req₁ = record req { ssl = some c₁ } in
        let w₁ = record w { files = s } in
        let (r₂, v, c₂, e₂, streamed) =
          request_stream-Streamed t sys lawful whole mem.reads res stream_block_size has.buf s c₁
            content s' has.size reads short in
        let e₂' : request_stream t sys mem.reads mem.buffer res stream_block_size s c₁
            ≡ ok (r₂, v, c₂) =
          rw has.buffer e₂ in
        let step₁ =
          on_ssl-some t sys x.Cert (request_respond t 20 (codes "text/plain")) req h.ssl_is e₁ in
        let step₂ =
          stream-some t sys x.Cert mem.reads mem.buffer res stream_block_size req₁ w₁ c₁ r₂ v c₂
            refl e₂' in
        let all =
          Sends-append t (line 20 (codes "text/plain")) content c c₁ c₂
            (Answered-Sends t 20 (codes "text/plain") c r₁ c₁ told)
            (Streamed-Sends t sys content s' c₁ r₂ v c₂ streamed) in
        let req₂ = record req { ssl = some c₂ } in
        let w₂ = record w { files = sys.close v res } in
        rw (step₁, step₂)
          (
            res,
            s,
            s',
            content,
            outcome,
            reads,
            (v, rw h.fd_is refl),
            close-Gone t sys x.Cert (Sends t (line 20 (codes "text/plain") ++ content) c) fd c₂ req₂
                w₂ (h.fd_is, refl) all,
          )

    -- Over a connection that behaves as documented and takes writes as a whole, given memory, a system
    -- where each regular file can be read to its end within a bound, and for an open request whose path
    -- has at most 2047 bytes and the prefix, `s_handler_fs` ends. It lets the request pass, its
    -- connection untouched, if the names that the path stands for behind the prefix are those of no
    -- regular file below the root; else it returns GEMINI_HANDLER_DONE, has sent a status line for 20 and
    -- the content of this file, the one that it has opened, or a first part of these if a write has
    -- failed, and has closed the file and the request.
    pub handler_fs-Served :
        (prefix dir : Bytes) (fd : ℕ) (c : t.Conn) (u : Url) (req : Req t sys x.Cert)
        (w : Here t sys x.Cert)
        → IsOpen fd c u req
        → IsShort u
        → applies (path_string u) prefix ≡ true
        → Served dir
            (drop (length prefix) (path_string u))
            fd
            c
            req
            w
            (handler_fs t sys x mem prefix req dir w)
    unfolding handler_fs path_of skip
    handler_fs-Served prefix dir fd c u req w h (chars, short) fits =
        let path : path_of req.url ≡ ok (path_string u) = rw h.url_is refl in
        let file = drop (length prefix) (path_string u) in
        let (r, s, e, outcome) =
          fs_open-Outcome sys dir 0 w.files file (IsText-drop (length prefix) (path_string u) chars)
            (omega (arith, length-drop (length prefix) (path_string u))) in
        let opened : fs_open sys mem.path dir (some file) 0 w.files ≡ ok (r, s) = rw has.path e in
        rw (path, applies-length (path_string u) prefix fits, opened)
          (send_file-Served dir file fd c u req w h r s outcome)

    Served-Proper :
        (dir file : Bytes) (fd : ℕ) (c : t.Conn) (u : Url) (req : Req t sys x.Cert)
        (w : Here t sys x.Cert)
        → IsOpen fd c u req
        → (reply : Run (Reply t sys x mem)) → Served dir file fd c req w reply
        → Proper t sys x mem fd u req w reply
    Served-Proper dir file fd c u req w h (ok (continue, r, v)) (_, same, fds, sessions) =
        rw same (c, h, refl, fds, sessions)
    Served-Proper dir file fd c u req w h (ok (done, r, v))
          (_, _, _, _, _, _, _, (c', closed, fds, sessions, _)) =
        (c', closed, fds, sessions, tt)
    Served-Proper dir file fd c u req w h (ok (abort, r, v)) g = absurd g
    Served-Proper dir file fd c u req w h (ok (other, r, v)) g = absurd g
    Served-Proper dir file fd c u req w h fault g = absurd g
    Served-Proper dir file fd c u req w h no_fuel g = absurd g

    pub files-Behaves :
        (prefix dir : Bytes)
        → Behaves t sys x mem IsShort
            (record { prefix = some prefix; handler = files; user_data = root dir })
    unfolding call
    files-Behaves prefix dir = (
      prefix,
      refl,
      λ fd c u req w short h fits.
          Served-Proper dir (drop (length prefix) (path_string u)) fd c u req w h
            (handler_fs t sys x mem prefix req dir w)
            (handler_fs-Served prefix dir fd c u req w h short fits),
    )

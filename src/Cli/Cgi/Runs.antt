-- ===== src/Cli/Cgi/Runs.antt =====
-- The programs that `cgi_handler` runs, in the walk of `gemini_serve`.
use geminon.Base.{
  ℕ, ◌+◌, ◌<◌, ◌≡◌, ◌^◌, refl, Bool, true, false, Option, none, some, length, length-drop, drop,
  arith,
}
use geminon.Base.Bytes.{Bytes, IsText}
use geminon.Base.Run.{Run, ok, fault, no_fuel}
use geminon.Cli.Cgi.Parent.{Ran, parent-Ran}
use geminon.Cli.Cgi.{Processes, Blocks, forked, piped, run_program, cgi_handler}
use geminon.Fs.Root.Names.{Gives, fs_path-names}
use geminon.Fs.Root.{fs_path}
use geminon.Request.Close.{Req, Here}
use geminon.Request.Stream.Sends.{Reads}
use geminon.Server.Dispatch.Settled.{Behaves}
use geminon.Server.Dispatch.{own, root, call, applies}
use geminon.Server.Handlers.Files.{IsShort, HasMemory, IsText-drop, applies-length}
use geminon.Server.Handlers.Proper.{IsOpen, Kept, Proper}
use geminon.Server.Handlers.{Memory, Verifier, Reply, done, continue, abort, other, path_of, skip}
use geminon.System.{System}
use geminon.Tls.{Tls, IsLawful, WritesWhole}
use geminon.Url.{Url, path_string}

module _ (t : Tls) (sys : System) (x : Verifier) (mem : Memory) (procs : Processes sys) where
  open procs use {pipe, fork}

  -- What a child writes to a pipe comes to an end, in fewer reads than the bound.
  abbrev pub Outputs : Type 0
  Outputs =
      (s : sys.State) (read_end write_end : ℕ) (s₁ : sys.State)
      → (pipe s ≡ (some (read_end, write_end), s₁))
      → (kid : ℕ) (s₂ : sys.State) → (fork s₁ ≡ (some kid, s₂))
      → (output : Bytes) × (s' : sys.State) × Reads t sys read_end 8192 (sys.close s₂ write_end)
          output s'
        × (length output < mem.reads)

  -- The blocks that a path needs, and a root that leaves room for one within an `int`.
  pub record HasRoom (blocks : Blocks) (dir : Bytes) : Type 0 where
    pub path : Gives blocks.path
    pub fs : blocks.fs ≡ true
    pub text : IsText dir
    pub small : length dir + 2050 < 2 ^ 31

  module _ (lawful : IsLawful t) (whole : WritesWhole t) (has : HasMemory mem) (outputs : Outputs)
      (fd : ℕ) (c : t.Conn) (u : Url) where
    kept :
        (req : Req t sys x.Cert) (w : Here t sys x.Cert) (s : sys.State)
        → IsOpen fd c u req
        → Kept t sys x mem fd u req w req (record w { files = s })
    kept req w s h = (c, h, refl, refl, refl)

    Ran-Proper :
        (output : Bytes) (s : sys.State) (req : Req t sys x.Cert) (w : Here t sys x.Cert)
        (reply : Run (Reply t sys x mem))
        → Ran t sys x mem procs fd u c output req (record w { files = s }) reply
        → Proper t sys x mem fd u req w reply
    Ran-Proper output s req w (ok (done, r, v)) (c', closed, fds, sessions, told) =
        (c', closed, fds, sessions, tt)
    Ran-Proper output s req w (ok (abort, r, v)) (open_still, _) = open_still
    Ran-Proper output s req w (ok (continue, r, v)) g = absurd g
    Ran-Proper output s req w (ok (other, r, v)) g = absurd g
    Ran-Proper output s req w fault g = absurd g
    Ran-Proper output s req w no_fuel g = absurd g

    forked-Proper :
        (s s₁ : sys.State) (read_end write_end : ℕ) (req : Req t sys x.Cert) (w : Here t sys x.Cert)
        → IsOpen fd c u req
        → pipe s ≡ (some (read_end, write_end), s₁)
        → (y : Option ℕ × sys.State) → fork s₁ ≡ y
        → Proper t sys x mem fd u req w
            (forked t sys x mem procs (read_end, write_end) req (record w { files = s₁ }) y)
    unfolding forked
    forked-Proper s s₁ read_end write_end req w h piped (none, s₂) e = kept req w s₂ h
    forked-Proper s s₁ read_end write_end req w h piped (some kid, s₂) e =
        let (output, s', reads, lt) = outputs s read_end write_end s₁ piped kid s₂ e in
        Ran-Proper output s₂ req w _ (
          parent-Ran t sys x mem procs lawful whole kid read_end write_end fd u c has.buf output s'
            req (record w { files = s₂ }) h has.buffer has.size reads lt)

    piped-Proper :
        (s : sys.State) (req : Req t sys x.Cert) (w : Here t sys x.Cert)
        → IsOpen fd c u req
        → (y : Option (ℕ × ℕ) × sys.State) → pipe s ≡ y
        → Proper t sys x mem fd u req w (piped t sys x mem procs req w y)
    unfolding piped
    piped-Proper s req w h (none, s₁) e = kept req w s₁ h
    piped-Proper s req w h (some (read_end, write_end), s₁) e =
        forked-Proper s s₁ read_end write_end req w h e (fork s₁) refl

    run_program-Proper :
        (argv envp : Bool) (program : Bytes) (req : Req t sys x.Cert) (w : Here t sys x.Cert)
        → IsOpen fd c u req
        → Proper t sys x mem fd u req w
            (run_program t sys x mem procs argv envp req w (some program))
    unfolding run_program
    run_program-Proper false envp program req w h = kept req w w.files h
    run_program-Proper true false program req w h = kept req w w.files h
    run_program-Proper true true program req w h = piped-Proper w.files req w h (pipe w.files) refl

    cgi_handler-Proper :
        (blocks : Blocks) (prefix dir : Bytes) (req : Req t sys x.Cert) (w : Here t sys x.Cert)
        → HasRoom blocks dir
        → IsOpen fd c u req
        → IsShort u
        → applies (path_string u) prefix ≡ true
        → Proper t sys x mem fd u req w
            (cgi_handler t sys x mem procs blocks prefix req (root dir) w)
    unfolding cgi_handler path_of skip
    cgi_handler-Proper blocks prefix dir req w room h (chars, short) fits =
        let path : path_of req.url ≡ ok (path_string u) = rw h.url_is refl in
        let file = drop (length prefix) (path_string u) in
        let (p, d, cs, e, _, _, _) =
          fs_path-names blocks.path dir file room.path room.text
            (IsText-drop (length prefix) (path_string u) chars) room.small
            (omega (arith, length-drop (length prefix) (path_string u))) in
        let found : fs_path blocks.path blocks.fs dir (some file) ≡ ok (some p) = rw room.fs e in
        rw (path, applies-length (path_string u) prefix fits, found)
          (run_program-Proper blocks.argv blocks.envp p req w h)

  module _ (lawful : IsLawful t) (whole : WritesWhole t) (has : HasMemory mem)
      (outputs : Outputs) where
    -- the handler, as `configure` registers it
    pub cgi-Behaves :
        (blocks : Blocks) (prefix dir : Bytes)
        → HasRoom blocks dir
        → Behaves t sys x mem IsShort (record {
          prefix = some prefix;
          handler = own (cgi_handler t sys x mem procs blocks);
          user_data = root dir;
        })
    unfolding call
    cgi-Behaves blocks prefix dir room = (
      prefix,
      refl,
      λ fd c u req w short h fits.
          cgi_handler-Proper lawful whole has outputs fd c u blocks prefix dir req w room h short
            fits,
    )

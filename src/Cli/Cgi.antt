-- ===== src/Cli/Cgi.antt =====
-- geminon.c: the handler that runs a program and sends what it writes.
pub mod Parent
pub mod Runs
use geminon.Base.{
  ℕ, ◌+◌, Bool, true, false, Option, none, some, List, [], ◌∷◌, if◌then◌else◌, length,
}
use geminon.Base.Bytes.{Bytes}
use geminon.Base.Run.{Run, ok, fault, ◌>>=◌}
use geminon.Fs.Root.{fs_path}
use geminon.Request.Close.{Req, Here, request_close, stream}
use geminon.Server.Dispatch.{UserData, root, store, hosts, nothing}
use geminon.Server.Handlers.{Memory, Verifier, Reply, done, abort, path_of, skip, stream_block_size}
use geminon.System.{System}
use geminon.Tls.{Tls}

-- What the handler asks of the system besides; `none` stands for an error.
pub record Processes (sys : System) : Type 0 where
  -- the ends for reading and for writing
  pub pipe : sys.State → Option (ℕ × ℕ) × sys.State
  -- the child, as the parent sees it
  pub fork : sys.State → Option ℕ × sys.State
  pub wait : sys.State → (kid : ℕ) → sys.State
  pub dup2 : sys.State → (from to : ℕ) → Bool × sys.State
  -- whether `execve` replaces the process
  pub execve : sys.State → (program : Bytes) → Bool

-- What `malloc` and `calloc` give for the path of the program, and for its arguments and environment.
pub record Blocks : Type 0 where
  pub path : ℕ → Option Bytes
  pub fs : Bool
  pub argv : Bool
  pub envp : Bool

-- how a child ends: as the program, or with an exit code
pub data Ended : Type 0 where
  as_program : Bytes → Ended
  exit : ℕ → Ended

module _ (t : Tls) (sys : System) (x : Verifier) (mem : Memory) (procs : Processes sys) where
  open procs use {pipe, fork, wait, dup2, execve}

  -- the child, behind `dup2`
  unfoldable pub redirected : (program : Bytes) → (write_end : ℕ) → Bool × sys.State → Ended
  redirected program write_end (false, s) = exit 1
  redirected program write_end (true, s) =
      if execve (sys.close s write_end) program then as_program program else exit 42

  -- the child, with the ends of the pipe
  unfoldable pub child : (program : Bytes) → ℕ × ℕ → sys.State → Ended
  child program (read_end, write_end) s =
      redirected program write_end (dup2 (sys.close s read_end) write_end 1)

  -- the parent, behind `waitpid`
  unfoldable pub waited : Bool × Req t sys x.Cert × Here t sys x.Cert → Reply t sys x mem
  waited (false, req, w) = (abort, req, w)
  waited (true, req, w) = let (req, w) = request_close t sys x.Cert req w in (done, req, w)

  -- the parent, for its child
  unfoldable pub parent :
      (kid : ℕ) → ℕ × ℕ → Req t sys x.Cert → Here t sys x.Cert → Run (Reply t sys x mem)
  parent kid (read_end, write_end) req w =
      stream t sys x.Cert mem.reads mem.buffer read_end 8192 req
        (record w { files = sys.close w.files write_end })
      >>= λ y. ok (waited (y.0, y.1, record y.2 { files = wait y.2.files kid }))

  -- behind `fork`
  unfoldable pub forked :
      ℕ × ℕ → Req t sys x.Cert → Here t sys x.Cert → Option ℕ × sys.State → Run (Reply t sys x mem)
  forked ends req w (none, s) = ok (abort, req, record w { files = s })
  forked ends req w (some kid, s) = parent kid ends req (record w { files = s })

  -- behind `pipe`
  unfoldable pub piped :
      Req t sys x.Cert → Here t sys x.Cert → Option (ℕ × ℕ) × sys.State → Run (Reply t sys x mem)
  piped req w (none, s) = ok (abort, req, record w { files = s })
  piped req w (some ends, s) = forked ends req (record w { files = s }) (fork s)

  -- behind `gemini_fs_path`, with the flags for the two blocks
  unfoldable pub run_program :
      Bool → Bool → Req t sys x.Cert → Here t sys x.Cert → Option Bytes → Run (Reply t sys x mem)
  run_program argv envp req w none = ok (abort, req, w)
  run_program false envp req w (some program) = ok (abort, req, w)
  run_program true false req w (some program) = ok (abort, req, w)
  run_program true true req w (some program) = piped req w (pipe w.files)

  -- `cgi_handler`, as the parent sees it
  unfoldable pub cgi_handler :
      Blocks
      → (prefix : Bytes) → Req t sys x.Cert
      → UserData t sys x mem
      → Here t sys x.Cert
      → Run (Reply t sys x mem)
  cgi_handler blocks prefix req (root r) w = do
    path ← path_of req.url
    file ← skip path (length prefix)
    fs_path blocks.path blocks.fs r (some file) >>= run_program blocks.argv blocks.envp req w
  cgi_handler blocks prefix req _ w = fault

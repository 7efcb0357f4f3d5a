-- ===== src/Fs/Open.antt =====
-- `gemini_fs_open`, over the system calls that it makes.
pub mod Checks
use geminon.Base.{ℕ, zero, suc, Bool, true, false, Option, none, some, if◌then◌else◌}
use geminon.Base.Bytes.{Bytes, c_string}
use geminon.Base.Run.{Run, ok, ◌>>=◌}
use geminon.Fs.{resolve}
use geminon.System.{System}

module _ (sys : System) where
  open sys use {State, open_dir, openat, fstat, close}

  -- what follows `openat`
  unfoldable pub check : Option ℕ × State → Option ℕ × State
  check (none, s) = (none, s)
  check (some fd, s) = elim (fstat s fd) [
    | none ↦ (none, close s fd)
    | some false ↦ (none, close s fd)
    | some true ↦ (some fd, s)
  ]

  -- what follows the `open` of the root
  unfoldable pub inside : Bool → Option Bytes → ℕ → Option ℕ × State → Run (Option ℕ × State)
  inside memory file flags (none, s) = ok (none, s)
  inside memory file flags (some dir, s) = resolve memory file >>= λ r. elim r [
    | none ↦ ok (none, s)
    | some path ↦ ok (check (openat s dir (c_string path) flags))
  ]

  -- `gemini_fs_open (fs, file, flags)`; the first flag is that of `resolve`
  unfoldable pub fs_open : Bool → (root : Bytes) → Option Bytes → ℕ → State → Run (Option ℕ × State)
  fs_open memory root file flags s = inside memory file flags (open_dir s root)

-- ===== src/System.antt =====
-- What the program asks of the operating system, which is not its own code.
use geminon.Base.{ℕ, ◌<◌, ◌≤◌, ◌≡◌, Bool, Option, some, ◌++◌, length, take}
use geminon.Base.Bytes.{Bytes}

-- The system calls on files; `none` stands for -1.
pub record System : Type 1 where
  pub State : Type 0
  -- `open (path, O_RDONLY)`
  pub open_dir : State → Bytes → Option ℕ × State
  pub openat : State → ℕ → Bytes → ℕ → Option ℕ × State
  -- `fstat`: whether the descriptor is of a regular file
  pub fstat : State → ℕ → Option Bool
  pub close : State → ℕ → State
  -- `read (fd, buf, n)`: the bytes put into the buffer, none of them at the end of a file
  pub read : State → ℕ → ℕ → Option Bytes × State
  -- `write (fd, buf, n)`: how many of the bytes were taken
  pub write : State → ℕ → Bytes → Option ℕ × State

-- What has been written to a descriptor, and the documented behaviour of `write` for some bytes.
pub record Outgoing (sys : System) (fd : ℕ) : Type 0 where
  pub written : sys.State → Bytes
  pub writes :
      (s : sys.State) (bs : Bytes) {k : ℕ} {s' : sys.State}
      → sys.write s fd bs ≡ (some k, s')
      → 0 < length bs
      → (0 < k) × (k ≤ length bs) × (written s' ≡ written s ++ take k bs)

-- ===== src/Fs/Open/Checks.antt =====
-- What a caller of `gemini_fs_open` gets, and what it leaves open.
use geminon.Base.{ℕ, ◌≤◌, ◌≡◌, ◌≢◌, refl, Bool, true, false, Option, none, some, All, length}
use geminon.Base.Bytes.{Bytes, IsText, c_string}
use geminon.Base.Run.{Run, ok}
use geminon.Fs.Moves.{IsName}
use geminon.System.{System}
use geminon.Fs.Open.{check, inside, fs_open}
use geminon.Fs.Resolve.{join}
use geminon.Fs.Safe.{Holds-c_string}
use geminon.Fs.Normal.Exact.{resolve-Holds}
use geminon.Fs.Normal.{normal}

module _ (sys : System) (root : Bytes) (flags : ℕ) (start : sys.State) (file : Bytes) where
  open sys use {State, open_dir, openat, fstat, close}

  -- How a call can end: there is no root; or the path of the names that `file` stands for, proper ones,
  -- is opened in it and the system refuses; or that is no regular file, and is closed again; or its
  -- descriptor is returned. In none of the cases is the descriptor of the root closed.
  pub data Outcome : Option ℕ → State → Type 0 where
    no_root : {s : State} → open_dir start root ≡ (none, s) → Outcome none s
    refused :
        {dir : ℕ} {s s' : State}
        → open_dir start root ≡ (some dir, s)
        → All IsName (normal file)
        → openat s dir (join (normal file)) flags ≡ (none, s')
        → Outcome none s'
    irregular :
        {dir fd : ℕ} {s s' : State}
        → open_dir start root ≡ (some dir, s)
        → All IsName (normal file)
        → openat s dir (join (normal file)) flags ≡ (some fd, s')
        → fstat s' fd ≢ some true
        → Outcome none (close s' fd)
    opened :
        {dir fd : ℕ} {s s' : State}
        → open_dir start root ≡ (some dir, s)
        → All IsName (normal file)
        → openat s dir (join (normal file)) flags ≡ (some fd, s')
        → fstat s' fd ≡ some true
        → Outcome (some fd) s'

  abbrev pub IsRegular : Option ℕ → State → Type 0
  IsRegular none s = Unit
  IsRegular (some fd) s = fstat s fd ≡ some true

  pub Outcome-IsRegular : {r : Option ℕ} {s : State} → Outcome r s → IsRegular r s
  Outcome-IsRegular (no_root e) = tt
  Outcome-IsRegular (refused e names f) = tt
  Outcome-IsRegular (irregular e names f g) = tt
  Outcome-IsRegular (opened e names f g) = g

  -- a result and the state that it leaves
  abbrev pub Ends : Run (Option ℕ × State) → Type 0
  Ends run = (r : Option ℕ) × (s : State) × (run ≡ ok (r, s)) × Outcome r s

  check-Ends :
      (dir : ℕ) (s : State) (x : Option ℕ × State)
      → open_dir start root ≡ (some dir, s)
      → All IsName (normal file)
      → openat s dir (join (normal file)) flags ≡ x
      → Ends (ok (check sys x))
  unfolding check
  check-Ends dir s (none, s') e names f = (none, s', refl, refused e names f)
  check-Ends dir s (some fd, s') e names f = tested (fstat s' fd) refl
    where
      tested :
          (o : Option Bool)
          → fstat s' fd ≡ o
          → Ends (
              ok (elim o [
                | none ↦ (none, close s' fd)
                | some b ↦ elim b [ true ↦ (some fd, s') | false ↦ (none, close s' fd) ]
              ]))
      tested none g = (none, close s' fd, refl, irregular e names f (λ h. cc))
      tested (some false) g = (none, close s' fd, refl, irregular e names f (λ h. cc))
      tested (some true) g = (some fd, s', refl, opened e names f g)

  inside-Ends :
      (x : Option ℕ × State)
      → open_dir start root ≡ x
      → IsText file
      → length file ≤ 2047
      → Ends (inside sys true (some file) flags x)
  unfolding inside
  inside-Ends (none, s) e chars short = (none, s, refl, no_root e)
  inside-Ends (some dir, s) e chars short =
      let (a, f, held, names) = resolve-Holds file chars short in
      rw f
        (check-Ends dir s (openat s dir (c_string a) flags) e names (rw (Holds-c_string held) refl))

  -- For a request path of at most 2047 bytes, given memory, `gemini_fs_open` ends without a fault. It
  -- opens at most one path, that of the names which the request path stands for, proper ones, below the
  -- root, and it returns its descriptor just if the system calls it a regular file; otherwise it returns
  -- -1, and has closed that descriptor. In no case does it close the descriptor of the root.
  pub fs_open-Outcome :
      IsText file
      → length file ≤ 2047
      → (r : Option ℕ) × (s : State) × (fs_open sys true root (some file) flags start ≡ ok (r, s))
        × Outcome r s
  unfolding fs_open
  fs_open-Outcome chars short = inside-Ends (open_dir start root) refl chars short

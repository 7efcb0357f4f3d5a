-- ===== src/Tests/Paths.antt =====
-- Runs of fs.c, and its theorems at request paths.
use geminon.Base.{
  if◌then◌else◌, ℕ, ◌++◌, replicate, length-replicate, List, Option, none, some, ◌≡◌, refl, true,
  [], ◌∷◌, All, arith,
}
use geminon.Base.Arrays.{poke, strlen, strrchr}
use geminon.Base.Bytes.{equal, Bytes, IsText, codes, c_string}
use geminon.Base.Run.{Run, ok, ◌>>=◌}
use geminon.Fs.Component.{Post, parse_path-Post}
use geminon.Fs.Moves.{IsName}
use geminon.Fs.Resolve.{join}
use geminon.Fs.Normal.Exact.{resolve-normal}
use geminon.Fs.Normal.{normal, components, settle, enter}
use geminon.Fs.Open.Checks.{Outcome, fs_open-Outcome}
use geminon.Fs.Open.{fs_open}
use geminon.System.{System}
use geminon.Fs.Root.Names.{fs_path-names}
use geminon.Fs.Root.Trim.{IsStripped}
use geminon.Fs.Root.{fs_path}
use geminon.Fs.Safe.{Confined, resolve-Confined}
use geminon.Fs.Short.{resolve_short}
use geminon.Fs.Table.{states}
use geminon.Fs.{append_dir, go_up, resolve_loop, resolve, copy, move, finish, scan, parse_path}

abbrev climbing : Bytes
climbing = codes "/../a/../b"

climbing-IsText : IsText climbing
climbing-IsText = ground arith

resolve-Confined_example : Confined (resolve true (some climbing))
resolve-Confined_example = resolve-Confined true climbing climbing-IsText

resolve_short_example :
    (a : Bytes) × (cs : List Bytes) × (resolve true (some climbing) ≡ ok (some a))
    × (c_string a ≡ join cs)
    × All IsName cs
resolve_short_example = resolve_short climbing climbing-IsText (ground arith)

abbrev dotted : Bytes
dotted = codes "/a/./b/../c//d"

resolve-normal_example :
    (a : Bytes) × (resolve true (some dotted) ≡ ok (some a)) × (c_string a ≡ join (normal dotted))
resolve-normal_example = resolve-normal dotted (ground arith) (ground arith)

dotted_names : normal dotted ≡ codes "d" ∷ codes "c" ∷ codes "a" ∷ []
unfolding components settle enter
dotted_names = refl

-- a lone dot in front of a name
glued_names : normal (codes "a/./b") ≡ codes ".b" ∷ codes "a" ∷ []
unfolding components settle enter
glued_names = refl

parse_path-Post_example : Post 10 3 (parse_path (record { src = climbing; buf = 0 ∷ 0 ∷ 0 ∷ [] }))
parse_path-Post_example =
    parse_path-Post (record { src = climbing; buf = 0 ∷ 0 ∷ 0 ∷ [] }) climbing-IsText (ground arith)

-- the string that `gemini_fs_resolve` returns
abbrev resolved : Bytes → Run (Option Bytes)
resolved file =
    resolve true (some file) >>= λ r. ok (elim r [ none ↦ none | some a ↦ some (c_string a) ])

up_directory : resolved climbing ≡ ok (some (codes "b"))
unfolding resolve resolve_loop append_dir go_up copy move finish scan parse_path poke strlen strrchr
    states
up_directory = refl

-- A lone dot is not dropped: it is put in front of the next name.
dot : resolved (codes "/a/./b") ≡ ok (some (codes "a/.b"))
unfolding resolve resolve_loop append_dir go_up copy move finish scan parse_path poke strlen strrchr
    states
dot = refl

-- A block of zeros for every request.
abbrev zeros : ℕ → Option Bytes
zeros n = some (replicate n 0)

abbrev docroot : Bytes
docroot = codes "/srv//"

docroot-IsText : IsText docroot
docroot-IsText = ground arith

fs_path-names_example :
    (p : Bytes) × (d : Bytes) × (cs : List Bytes) × (fs_path zeros true docroot (some climbing)
      ≡ ok (some p))
    × IsStripped docroot d
    × (c_string p ≡ (d ++ b'/' ∷ []) ++ join cs)
    × All IsName cs
fs_path-names_example =
    fs_path-names zeros docroot climbing (λ n. (replicate n 0, refl, length-replicate {A = ℕ} n 0))
      docroot-IsText climbing-IsText (ground arith) (ground arith)

-- A system with one regular file below every root. Its state is what has been closed.
abbrev small_system : System
small_system = record {
  State = List ℕ;
  open_dir = λ s path. (some 3, s);
  openat = λ s dir path flags. (if equal path (codes "b") then some 4 else none, s);
  fstat = λ s fd. some true;
  close = λ s fd. fd ∷ s;
  read = λ s fd n. (some [], s);
  write = λ s fd bs. (none, s);
}

fs_open-Outcome_example :
    (r : Option ℕ) × (s : List ℕ) × (fs_open small_system true docroot (some climbing) 0 []
      ≡ ok (r, s))
    × Outcome small_system docroot 0 [] climbing r s
fs_open-Outcome_example =
    fs_open-Outcome small_system docroot 0 [] climbing climbing-IsText (ground arith)

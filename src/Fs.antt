-- ===== src/Fs.antt =====
-- fs.c: request paths, resolved below a root directory.
pub mod Component
pub mod Copy
pub mod Moves
pub mod Normal
pub mod Open
pub mod Overflow
pub mod Path
pub mod Resolve
pub mod Root
pub mod Safe
pub mod Short
pub mod Stored
pub mod Table
use geminon.Base.{
  ℕ, zero, suc, ◌+◌, ◌-◌, ◌*◌, ◌%◌, ◌^◌, Bool, true, false, ◌||◌, Option, none, some, [], ◌∷◌, ltb,
  ◌==◌, if◌then◌else◌, length, replicate,
}
use geminon.Base.Arrays.{poke, strlen, strrchr}
use geminon.Base.Bytes.{Bytes}
use geminon.Base.Run.{Run, ok, fault, no_fuel, ◌>>=◌}
use geminon.Fs.Table.{states}

-- GEMINI_MAX_PATH
abbrev pub max_path : ℕ
max_path = 2048

-- `struct _parser`: the string left to parse, and an array of `max_path` bytes
pub record Source : Type 0 where
  pub src : Bytes
  pub buf : Bytes

-- PARSED_ERR, PARSED_DIR, PARSED_UP and PARSED_END
pub data Parsed : Type 0 where
  err dir up end : Parsed

-- The locals of `s_parse_path`, and the array; `fill` is an offset into it.
pub record Scan : Type 0 where
  pub state : ℕ
  pub left : ℕ
  pub fill : ℕ
  pub buf : Bytes

-- how a round of the loop ends: with the next one, or by `return`
pub data Flow : Type 0 where
  go : Scan → Flow
  stop : Parsed → Bytes → Flow

-- the cases of the `switch` that store the byte
abbrev pub stores : ℕ → Bool
stores key = key == 102 || key == 104 || key == 203 || key == 204 || key == 304 || key == 404

-- the body of the loop, behind the look at the table
unfoldable pub move : Scan → ℕ → Option ℕ → Run Flow
move k c none = ok (stop err k.buf)
move k c (some to) =
    let key = k.state * 100 + to in
    if key == 301
    then ok (stop up k.buf)
    else if key == 401
    then (do b ← poke k.buf k.fill 0; ok (stop dir b))
    else if stores key
    then (if k.left == 0 then ok (stop err k.buf) else (do
      b ← poke k.buf k.fill c
      ok (go (record { state = to; left = k.left - 1; fill = k.fill + 1; buf = b }))))
    else ok (go (record k { state = to }))

-- the `switch` behind the loop
unfoldable pub finish : Scan → Run (Parsed × Source)
finish k =
    if k.state == 3
    then ok (up, record { src = []; buf = k.buf })
    else if k.state == 4
    then (do b ← poke k.buf k.fill 0; ok (dir, record { src = []; buf = b }))
    else ok (end, record { src = []; buf = k.buf })

-- the loop over `*p->src`; a `return` leaves `src` at the byte that it has looked at
unfoldable pub scan : Scan → Bytes → Run (Parsed × Source)
scan k [] = finish k
scan k (c ∷ s) = do
  f ← move k c (states k.state c)
  elim f [ go k' ↦ scan k' s | stop t b ↦ ok (t, record { src = c ∷ s; buf = b }) ]

-- `s_parse_path`
unfoldable pub parse_path : Source → Run (Parsed × Source)
parse_path p = scan (record { state = 1; left = length p.buf - 1; fill = 0; buf = p.buf }) p.src

-- the locals of `gemini_fs_resolve`; `path` is an array of `max_path + 1` bytes
pub record Resolver : Type 0 where
  pub parser : Source
  pub path : Bytes
  pub deep : ℕ

-- `for (q = parser.buf; left; *p++ = *q++, left--)`, which faults where it leaves either array
unfoldable pub copy : (q path : Bytes) → (p left : ℕ) → Run (Bytes × ℕ)
copy [] path p left = if left == 0 then ok (path, p) else fault
copy (b ∷ q) path p left = elim (left == 0) [
  | true ↦ ok (path, p)
  | false ↦ poke path p b >>= λ path'. copy q path' (p + 1) (left - 1)
]

-- a decrement of a `size_t`
abbrev pub sub64 : ℕ → ℕ → ℕ
sub64 a b = (a + 2 ^ 64 - b) % 2 ^ 64

-- `case PARSED_DIR`
unfoldable pub append_dir : Resolver → Run Resolver
append_dir r = do
  n ← strlen r.path
  let left = sub64 (sub64 max_path n) 1
  (path, p, left) ←
      if ltb 0 r.deep
      then (do path ← poke r.path n b'/'; ok (path, n + 1, sub64 left 1))
      else ok (r.path, n, left)
  (path, p) ← copy r.parser.buf path p left
  path ← poke path p 0
  ok (record r { path = path; deep = r.deep + 1 })

abbrev or_start : Option ℕ → ℕ
or_start none = 0
or_start (some i) = i

-- `case PARSED_UP`
unfoldable pub go_up : Resolver → Run Resolver
go_up r =
    if ltb 0 r.deep
    then (do
      path ← poke r.path (or_start (strrchr r.path b'/')) 0
      ok (record r { path = path; deep = r.deep - 1 }))
    else ok r

-- the `for (;;)`, a round for each call of `s_parse_path`; `none` stands for NULL
unfoldable pub resolve_loop : ℕ → Resolver → Run (Option Bytes)
resolve_loop zero r = no_fuel
resolve_loop (suc k) r = do
  (t, p) ← parse_path r.parser
  elim t [
    | err ↦ ok none
    | dir ↦ append_dir (record r { parser = p }) >>= resolve_loop k
    | up ↦ go_up (record r { parser = p }) >>= resolve_loop k
    | end ↦ ok (some r.path)
  ]

-- the locals at the start, both arrays cleared
abbrev pub first : Bytes → Resolver
first file = record {
  parser = record { src = file; buf = replicate max_path 0 };
  path = replicate (max_path + 1) 0;
  deep = 0;
}

-- `gemini_fs_resolve`; the flag says whether `malloc` gives a block. The result is the array. Each
-- call of `s_parse_path` but the last consumes a byte, so the fuel is enough.
unfoldable pub resolve : Bool → Option Bytes → Run (Option Bytes)
resolve memory none = ok none
resolve false (some file) = ok none
resolve true (some file) = resolve_loop (length file + 1) (first file)

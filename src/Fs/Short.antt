-- ===== src/Fs/Short.antt =====
-- Request paths that are shorter than the path array are always resolved, to whole names.
use geminon.Base.{◌≤◌, ◌≡◌, true, some, none, Option, List, length, sym, subst, All}
use geminon.Base.Bytes.{Bytes, IsText, c_string}
use geminon.Base.Run.{Run, ok, fault, no_fuel}
use geminon.Fs.Moves.{IsName}
use geminon.Fs.Path.{Holds}
use geminon.Fs.Resolve.{join}
use geminon.Fs.Safe.{Holds-c_string}
use geminon.Fs.{resolve}
use geminon.Fs.Normal.{normal}
use geminon.Fs.Normal.Exact.{resolve-Holds}

abbrev pub Resolves : Run (Option Bytes) → Type 0
Resolves (ok none) = ⊥
Resolves (ok (some a)) = (cs : List Bytes) × Holds a (join cs) × All IsName cs
Resolves fault = ⊥
Resolves no_fuel = ⊥

pub resolve-Resolves :
    (file : Bytes) → IsText file → length file ≤ 2047 → Resolves (resolve true (some file))
resolve-Resolves file chars short =
    let (a, e, held, names) = resolve-Holds file chars short in
    subst Resolves (sym e) (normal file, held, names)

-- A request path of at most 2047 bytes is always resolved, given memory: `gemini_fs_resolve` ends
-- without a fault, and returns the path of a list of names, none of them "", "." or "..", and with
-- no slash in them.
pub resolve_short :
    (file : Bytes)
    → IsText file
    → length file ≤ 2047
    → (a : Bytes) × (cs : List Bytes) × (resolve true (some file) ≡ ok (some a))
      × (c_string a ≡ join cs)
      × All IsName cs
resolve_short file chars short =
    let (a, e, held, names) = resolve-Holds file chars short in
    (a, normal file, e, Holds-c_string held, names)

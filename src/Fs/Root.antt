-- ===== src/Fs/Root.antt =====
-- `gemini_fs_path`: a resolved path behind the root.
pub mod Names
pub mod Trim
use geminon.Base.{
  ℕ, zero, suc, ◌+◌, ◌^◌, Option, none, some, ltb, ◌==◌, if◌then◌else◌, Bool, length, take,
}
use geminon.Base.Arrays.{peek, poke, strlen, write_at}
use geminon.Base.Bytes.{Bytes}
use geminon.Base.Run.{Run, ok, fault, ◌>>=◌}
use geminon.Fs.{resolve}

-- an `int`: a length that it cannot hold is taken for a fault
unfoldable pub as_int : ℕ → Run ℕ
as_int n = if ltb n (2 ^ 31) then ok n else fault

-- `while (l1 > 0 && *(path + l1 - 1) == '/') l1--`
unfoldable pub trim : Bytes → ℕ → Run ℕ
trim path zero = ok 0
trim path (suc n) =
    peek path n >>= λ c. let shorter = trim path n in if c == b'/' then shorter else ok (suc n)

-- `path` is filled with the root, a slash, and `l2` bytes of the resolved path.
unfoldable pub put_below : (root path resolved : Bytes) → ℕ → Run Bytes
put_below root path resolved l2 = do
  path ← write_at path 0 root
  l1 ← trim path (length root)
  path ← poke path l1 b'/'
  path ← write_at path (l1 + 1) (take l2 resolved)
  poke path (l1 + 1 + l2) 0

-- `malloc` gives a block of a size, with any contents, or NULL.
module _ (malloc : ℕ → Option Bytes) where
  unfoldable pub below : (root resolved : Bytes) → Run (Option Bytes)
  below root resolved = do
    l1 ← as_int (length root)
    l2 ← strlen resolved
    size ← as_int (l1 + 1 + l2 + 1)
    elim (malloc size) [
      | none ↦ ok none
      | some path ↦ put_below root path resolved l2 >>= λ p. ok (some p)
    ]

  -- `gemini_fs_path`; the flag is that of `resolve`
  unfoldable pub fs_path : Bool → Bytes → Option Bytes → Run (Option Bytes)
  fs_path memory root file =
      resolve memory file >>= λ r. elim r [ none ↦ ok none | some a ↦ below root a ]

-- ===== src/Fs/Root/Names.antt =====
-- The path that `gemini_fs_path` returns for a short request.
use mathlib.Core.List.{append_assoc}
use geminon.Base.{
  ℕ, suc, ◌+◌, ◌^◌, ◌<◌, ◌≤◌, ◌≡◌, refl, sym, ap, subst, ◌∙◌, true, Option, none, some, List, [],
  ◌∷◌, ◌++◌, ltb, lt→ltb, All, All-append, All-left, length, length-append, length-drop, take, drop,
  arith,
}
use geminon.Base.Arrays.{poke, strlen, write_at}
use geminon.Base.Arrays.Laws.{poke-append, strlen-append, take-length-append, write_at-append}
use geminon.Base.Bytes.{Bytes, IsChar, IsText, NonZero-IsText, c_string}
use geminon.Base.Run.{Run, ok, fault, no_fuel, ◌>>=◌}
use geminon.Fs.{resolve}
use geminon.Fs.Moves.{IsName}
use geminon.Fs.Path.{NonZero, Holds}
use geminon.Fs.Resolve.{join}
use geminon.Fs.Short.{Resolves, resolve-Resolves}
use geminon.Fs.Root.{as_int, put_below, below, fs_path}
use geminon.Fs.Safe.{c_string-NonZero}
use geminon.Fs.Root.Trim.{IsStripped, trim-IsStripped}

uncons : (r : Bytes) → 0 < length r → (x : ℕ) × (s : Bytes) × (r ≡ x ∷ s)
uncons [] h = absurd (omega arith)
uncons (x ∷ s) h = (x, s, refl)

-- A slash behind `d`.
abbrev slashed : Bytes → Bytes
slashed d = d ++ b'/' ∷ []

-- The last three writes, into a block that holds the root.
abbrev tail_writes : ℕ → (path t : Bytes) → Run Bytes
tail_writes l1 path t = do
  path ← poke path l1 b'/'
  path ← write_at path (l1 + 1) t
  poke path (l1 + 1 + length t) 0

tail_writes_lem :
    (d r t : Bytes)
    → length t + 2 ≤ length r
    → (rest : Bytes) × (tail_writes (length d) (d ++ r) t ≡ ok ((slashed d ++ t) ++ 0 ∷ rest))
tail_writes_lem d r t room =
    let (x, s, e) = uncons r (omega arith) in
    let n : length r ≡ suc (length s) = ap length e in
    let (y, rest, f) = uncons (drop (length t) s) (omega (arith, length-drop (length t) s)) in
    let l : length (slashed d) ≡ length d + 1 = length-append d (b'/' ∷ []) in
    let first : poke (d ++ r) (length d) b'/' ≡ ok (slashed d ++ s) =
      rw e (poke-append d x b'/' s ∙ ap ok (sym (append_assoc d (b'/' ∷ []) s))) in
    let second : write_at (slashed d ++ s) (length d + 1) t ≡ ok ((slashed d ++ t) ++ y ∷ rest) =
      ap (λ n. write_at (slashed d ++ s) n t) (sym l)
      ∙ write_at-append (slashed d) s t (omega arith)
      ∙ ap ok (ap (λ z. slashed d ++ (t ++ z)) f ∙ sym (append_assoc (slashed d) t (y ∷ rest))) in
    let third : poke ((slashed d ++ t) ++ y ∷ rest) (length d + 1 + length t) 0
        ≡ ok ((slashed d ++ t) ++ 0 ∷ rest) =
      ap (λ n. poke ((slashed d ++ t) ++ y ∷ rest) n 0) (omega (arith, length-append (slashed d) t))
      ∙ poke-append (slashed d ++ t) y 0 rest in
    (rest, rw (first, second, third) refl)

put_below_lem :
    (root path resolved t : Bytes)
    → length root + length t + 2 ≤ length path
    → take (length t) resolved ≡ t
    → (d : Bytes) × (rest : Bytes) × IsStripped root d
      × (put_below root path resolved (length t) ≡ ok ((slashed d ++ t) ++ 0 ∷ rest))
unfolding put_below
put_below_lem root path resolved t room cut =
    let s = drop (length root) path in
    let (d, is, trimmed) = trim-IsStripped (length root) root s refl in
    let (rest, e) =
      tail_writes_lem d (is.slashes ++ s) t
        (omega (arith, length-append is.slashes s, length-drop (length root) path)) in
    let whole : root ++ s ≡ d ++ (is.slashes ++ s) =
      ap (λ x. x ++ s) is.shape ∙ append_assoc d is.slashes s in
    let first : write_at path 0 root ≡ ok (root ++ s) =
      write_at-append [] path root (omega arith) in
    (d, rest, is, rw (first, trimmed, whole, cut) e)

module _ (malloc : ℕ → Option Bytes) where
  -- Every call of `malloc` gives a block of the size that was asked for.
  abbrev pub Gives : Type 0
  Gives = (n : ℕ) → (b : Bytes) × (malloc n ≡ some b) × (length b ≡ n)

  below_lem :
      (root a t : Bytes)
      → Gives
      → length root + 2050 < 2 ^ 31
      → Holds a t
      → (d : Bytes) × (rest : Bytes) × IsStripped root d
        × (below malloc root a ≡ ok (some ((slashed d ++ t) ++ 0 ∷ rest)))
  unfolding below as_int
  below_lem root a t gives small held =
      let measured : strlen a ≡ ok (length t) =
        rw held.shape (strlen-append t held.rest held.chars) in
      let fits : length t + suc (length held.rest) ≡ 2049 =
        sym (length-append t (0 ∷ held.rest)) ∙ ap length (sym held.shape) ∙ held.size in
      let (b, given, size) = gives (length root + 1 + length t + 1) in
      let cut : take (length t) a ≡ t = rw held.shape (take-length-append t (0 ∷ held.rest)) in
      let (d, rest, is, done) = put_below_lem root b a t (omega arith) cut in
      let one : ltb (length root) (2 ^ 31) ≡ true = lt→ltb _ _ (omega arith) in
      let two : ltb (length root + 1 + length t + 1) (2 ^ 31) ≡ true = lt→ltb _ _ (omega arith) in
      (d, rest, is, rw (one, measured, two, given, done) refl)

  below-chars :
      (root d t : Bytes)
      → IsText root
      → IsStripped root d
      → All NonZero t
      → All NonZero (slashed d ++ t)
  below-chars root d t text is chars =
      let d_text : IsText d = All-left IsChar d is.slashes (subst IsText is.shape text) in
      All-append NonZero (slashed d) t
        (All-append NonZero d (b'/' ∷ []) (NonZero-IsText d d_text) (ground arith, tt)) chars

  returned :
      (root : Bytes) (r : Run (Option Bytes))
      → Gives
      → IsText root
      → length root + 2050 < 2 ^ 31
      → Resolves r
      → (p : Bytes) × (d : Bytes) × (cs : List Bytes) × ((r >>= λ x. elim x [
        | none ↦ ok none
        | some a ↦ below malloc root a
      ])
          ≡ ok (some p))
        × IsStripped root d
        × (c_string p ≡ (d ++ b'/' ∷ []) ++ join cs)
        × All IsName cs
  returned root (ok none) gives text small h = absurd h
  returned root (ok (some a)) gives text small (cs, held, names) =
      let (d, rest, is, e) = below_lem root a (join cs) gives small held in
      (
        (slashed d ++ join cs) ++ 0 ∷ rest,
        d,
        cs,
        e,
        is,
        c_string-NonZero (slashed d ++ join cs) rest
            (below-chars root d (join cs) text is held.chars),
        names,
      )
  returned root fault gives text small h = absurd h
  returned root no_fuel gives text small h = absurd h

  -- For a request path of at most 2047 bytes, given memory, and a root that is some two thousand bytes
  -- shorter than the largest int, `gemini_fs_path` returns, with no fault, the root without the slashes
  -- at its end, a slash, and a list of names joined by slashes, none of them "", "." or "..".
  pub fs_path-names :
      (root file : Bytes)
      → Gives
      → IsText root
      → IsText file
      → length root + 2050 < 2 ^ 31
      → length file ≤ 2047
      → (p : Bytes) × (d : Bytes) × (cs : List Bytes) × (fs_path malloc true root (some file)
          ≡ ok (some p))
        × IsStripped root d
        × (c_string p ≡ (d ++ b'/' ∷ []) ++ join cs)
        × All IsName cs
  unfolding fs_path
  fs_path-names root file gives text chars small short =
      returned root (resolve true (some file)) gives text small (resolve-Resolves file chars short)

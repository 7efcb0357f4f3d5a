-- ===== src/Fs/Normal/Exact.antt =====
-- `gemini_fs_resolve` and the reference for request paths that are shorter than the path array.
use native.Mathlib.Numerals.{add-one}
use geminon.Base.{
  ℕ, zero, suc, ◌<◌, ◌≤◌, ◌≡◌, refl, true, some, none, Option, List, [], ◌∷◌, length, sym, subst,
  ap, ◌∙◌, All, arith,
}
use geminon.Base.Bytes.{Bytes, IsText, c_string}
use geminon.Base.Run.{Run, ok, fault, no_fuel, ◌>>=◌}
use geminon.Fs.Component.{Post, AtSlash, parse_path-Post, parse_path-Post_slash}
use geminon.Fs.Moves.{IsName}
use geminon.Fs.Path.{Holds}
use geminon.Fs.Resolve.{join, IsName-NonZero}
use geminon.Fs.Safe.{c_string-NonZero, start-State, Holds-c_string}
use geminon.Fs.{
  Source, Parsed, err, dir, up, end, Resolver, parse_path, append_dir, go_up, resolve_loop, resolve,
  first,
}
use geminon.Fs.Normal.{components, settle, normal}
use geminon.Fs.Normal.Calls.{Means, parse_path-Means}
use geminon.Fs.Normal.Steps.{lead, Fits, Steps, lead-le-length, dir-Steps, up-Steps}

-- The outcome of the loop: a resolved path, for the names of `goal`.
abbrev Reaches : List Bytes → Run (Option Bytes) → Type 0
Reaches goal (ok none) = ⊥
Reaches goal (ok (some a)) = Holds a (join goal) × All IsName goal
Reaches goal fault = ⊥
Reaches goal no_fuel = ⊥

-- The rest of the loop resolves from every state with less than `m` bytes left.
abbrev Rest : List Bytes → ℕ → ℕ → Type 0
Rest goal k m =
    (r : Resolver) (cs : List Bytes)
    → Fits r cs (lead r.parser.src)
    → length r.parser.src < m
    → AtSlash r.parser.src
    → settle [] cs (components r.parser.src) ≡ goal
    → Reaches goal (resolve_loop k r)

follow :
    (goal : List Bytes) (k m : ℕ)
    → Rest goal k m
    → (step : Run Resolver) → Steps goal m step
    → Reaches goal (step >>= resolve_loop k)
follow goal k m rest (ok r) (cs, s, lt, slash, meant) = rest r cs s lt slash meant
follow goal k m rest fault h = absurd h
follow goal k m rest no_fuel h = absurd h

round-Reaches :
    (goal : List Bytes) (r : Resolver) (cs : List Bytes) (k n m : ℕ) (call : Run (Parsed × Source))
    → Fits r cs n
    → Post n 2048 call
    → Means (λ st. settle [] st (components r.parser.src)) call
    → settle [] cs (components r.parser.src) ≡ goal
    → n ≤ m
    → n ≤ 2047
    → Rest goal k m
    → Reaches goal (
        call >>= λ x. elim x.0 [
          | err ↦ ok none
          | dir ↦ append_dir (record r { parser = x.1 }) >>= resolve_loop k
          | up ↦ go_up (record r { parser = x.1 }) >>= resolve_loop k
          | end ↦ ok (some r.path)
        ])
round-Reaches goal r cs k n m (ok (err, p)) s h means meant le small rest = absurd (omega arith)
round-Reaches goal r cs k n m (ok (end, p)) s h means meant le small rest =
    let same : cs ≡ goal = sym (means cs) ∙ meant in
    (subst (λ z. Holds r.path (join z)) same s.held, subst (λ z. All IsName z) same s.names)
round-Reaches goal r cs k n m (ok (dir, p)) s (name, more, shape, is, less, size, chars, slash)
      means meant le small rest =
    let found : c_string p.buf ≡ name =
      ap c_string shape ∙ c_string-NonZero name more (IsName-NonZero name is.chars) in
    follow goal k m rest (append_dir (record r { parser = p })) (
      dir-Steps r p name more shape is size chars slash goal n m le less cs s
        (ap (λ z. settle [] (z ∷ cs) (components p.src)) (sym found) ∙ sym (means cs) ∙ meant))
round-Reaches goal r cs k n m (ok (up, p)) s (less, size, chars, slash) means meant le small rest =
    follow goal k m rest (go_up (record r { parser = p }))
      (up-Steps r p size chars slash goal n m le less cs s (sym (means cs) ∙ meant))
round-Reaches goal r cs k n m fault s h means meant le small rest = absurd h
round-Reaches goal r cs k n m no_fuel s h means meant le small rest = absurd h

-- A call at a slash, or at the end.
call-Post :
    (s b : Bytes)
    → IsText s
    → length b ≡ 2048
    → AtSlash s
    → Post (lead s) 2048 (parse_path (record { src = s; buf = b }))
call-Post [] b chars size slash =
    rw size at (parse_path-Post (record { src = []; buf = b }) tt (omega arith))
call-Post (c ∷ s) b chars size slash =
    rw (slash, ← size) (parse_path-Post_slash s b chars.1 (omega arith))

loop-Reaches :
    (goal : List Bytes) (k : ℕ) (r : Resolver) (cs : List Bytes)
    → Fits r cs (lead r.parser.src)
    → length r.parser.src < k
    → length r.parser.src ≤ 2047
    → AtSlash r.parser.src
    → settle [] cs (components r.parser.src) ≡ goal
    → Reaches goal (resolve_loop k r)
unfolding resolve_loop
loop-Reaches goal zero r cs s lt small slash meant = absurd (omega arith)
loop-Reaches goal (suc k) r cs s lt small slash meant =
    round-Reaches goal r cs k (lead r.parser.src) (length r.parser.src) (parse_path r.parser) s
      (call-Post r.parser.src r.parser.buf s.chars s.size slash)
      (parse_path-Means r.parser s.chars (omega (arith, s.size))) meant
      (lead-le-length r.parser.src) (omega (arith, lead-le-length r.parser.src))
      λ r' cs' s' lt' slash' meant'.
        loop-Reaches goal k r' cs' s' (omega arith) (omega arith) slash' meant'

resolve-Reaches :
    (file : Bytes)
    → IsText file
    → length file ≤ 2047
    → Reaches (normal file) (resolve true (some file))
unfolding resolve resolve_loop
resolve-Reaches file chars short =
    let start = start-State file chars in
    let n = length file in
    let begun : Fits (first file) [] n = record {
      held = start.held;
      depth = refl;
      names = tt;
      size = start.size;
      chars = chars;
      room = λ more. omega arith;
    } in
    let pos : 0 < length (first file).parser.buf = omega (arith, start.size) in
    let post = rw start.size at (parse_path-Post (first file).parser chars pos) in
    rw (add-one n) (
      round-Reaches (normal file) (first file) [] n n n (parse_path (first file).parser) begun post
        (parse_path-Means (first file).parser chars pos) refl (omega arith) short
        λ r cs s lt slash meant. loop-Reaches (normal file) n r cs s lt (omega arith) slash meant)

extract :
    (goal : List Bytes) (r : Run (Option Bytes))
    → Reaches goal r
    → (a : Bytes) × (r ≡ ok (some a)) × Holds a (join goal) × All IsName goal
extract goal (ok none) h = absurd h
extract goal (ok (some a)) (held, names) = (a, refl, held, names)
extract goal fault h = absurd h
extract goal no_fuel h = absurd h

-- the array that holds the path, and that its names are proper
pub resolve-Holds :
    (file : Bytes)
    → IsText file
    → length file ≤ 2047
    → (a : Bytes) × (resolve true (some file) ≡ ok (some a))
      × Holds a (join (normal file))
      × All IsName (normal file)
resolve-Holds file chars short =
    extract (normal file) (resolve true (some file)) (resolve-Reaches file chars short)

-- Given memory, `gemini_fs_resolve` agrees with the reference on every request path of at most 2047
-- bytes: it ends, with no fault, and returns the names, joined by slashes, that are left of the
-- components of the path when each ".." drops the name in front of it, at the root none, empty
-- components are left out, and a lone "." is put in front of the next name.
pub resolve-normal :
    (file : Bytes)
    → IsText file
    → length file ≤ 2047
    → (a : Bytes) × (resolve true (some file) ≡ ok (some a)) × (c_string a ≡ join (normal file))
resolve-normal file chars short =
    let (a, e, held, names) = resolve-Holds file chars short in (a, e, Holds-c_string held)

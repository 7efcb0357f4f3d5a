-- ===== src/Fs/Normal/Steps.antt =====
-- The steps of `gemini_fs_resolve` for a request path with room for all of its names.
use mathlib.Core.List.{append_assoc}
use geminon.Base.{
  ℕ, ◌+◌, ◌-◌, ◌<◌, ◌≤◌, ◌≡◌, refl, List, [], ◌∷◌, ◌++◌, length, length-append, take, take_all,
  drop, All, arith,
}
use geminon.Base.Bytes.{Bytes, IsText}
use geminon.Base.Run.{Run, ok, fault, no_fuel}
use geminon.Fs.Component.{AtSlash}
use geminon.Fs.Moves.{IsName}
use geminon.Fs.Path.{Holds, append_dir-first, append_dir-more, go_up-root, go_up-name, go_up-more}
use geminon.Fs.Resolve.{join, IsName-NonZero, no_slash, name_pos}
use geminon.Fs.{Source, Resolver, append_dir, go_up}
use geminon.Fs.Normal.{components, settle}

-- The room for the slash in front of the next name.
abbrev pub gap : List Bytes → ℕ
gap [] = 0
gap (n ∷ cs) = 1

-- What the loop knows of its locals, with at most `n` bytes of names to come.
pub record Fits (r : Resolver) (cs : List Bytes) (n : ℕ) : Type 0 where
  pub held : Holds r.path (join cs)
  pub depth : r.deep ≡ length cs
  pub names : All IsName cs
  pub size : length r.parser.buf ≡ 2048
  pub chars : IsText r.parser.src
  pub room : 0 < n → length (join cs) + gap cs + n ≤ 2047

-- The bytes of names in a string that starts with a slash or is empty.
abbrev pub lead : Bytes → ℕ
lead [] = 0
lead (c ∷ s) = length s

-- What a step leads to, with less than `n` bytes left, which stand for the names of `goal`.
abbrev pub Steps : List Bytes → ℕ → Run Resolver → Type 0
Steps goal n (ok r) =
    (cs : List Bytes) × Fits r cs (lead r.parser.src)
    × (length r.parser.src < n)
    × AtSlash r.parser.src
    × (settle [] cs (components r.parser.src) ≡ goal)
Steps goal n fault = ⊥
Steps goal n no_fuel = ⊥

length-lead : (s : Bytes) → 0 < lead s → lead s + 1 ≡ length s
length-lead [] h = elim h [ ]
length-lead (c ∷ s) h = omega arith

pub lead-le-length : (s : Bytes) → lead s ≤ length s
lead-le-length [] = omega arith
lead-le-length (c ∷ s) = omega arith

module _ (r : Resolver) (p : Source) (name more : Bytes) (shape : p.buf ≡ name ++ 0 ∷ more)
    (is : IsName name) (size : length p.buf ≡ 2048) (chars : IsText p.src) (slash : AtSlash p.src)
    (goal : List Bytes) (n m : ℕ) (le : n ≤ m) (less : length name + length p.src ≤ n) where
  abbrev found : Resolver
  found = record r { parser = p }

  pub dir-Steps :
      (cs : List Bytes)
      → Fits r cs n
      → settle [] (name ∷ cs) (components p.src) ≡ goal
      → Steps goal m (append_dir found)
  dir-Steps [] s meant =
      let pos = name_pos name is in
      let (path, e, held) =
        append_dir-first found name more [] s.held shape size (IsName-NonZero name is.chars) refl
          s.depth in
      let whole : take 2047 name ≡ name =
        take_all 2047 name (omega (arith, s.room (omega arith))) in
      rw e (
        name ∷ [],
        record {
          held = rw whole at held;
          depth = omega (arith, s.depth);
          names = (is, tt);
          size = size;
          chars = chars;
          room = λ more. omega (arith, s.room (omega arith), length-lead p.src);
        },
        omega arith,
        slash,
        meant,
      )
  dir-Steps (l ∷ cs) s meant =
      let t = join (l ∷ cs) in
      let pos = name_pos name is in
      let room = s.room (omega arith) in
      let (path, e, held) =
        append_dir-more found name more t s.held shape size (IsName-NonZero name is.chars)
          (omega (arith, s.depth)) (omega arith) in
      let whole : take (2046 - length t) name ≡ name =
        take_all (2046 - length t) name (omega arith) in
      rw e (
        name ∷ l ∷ cs,
        record {
          held = rw whole at held;
          depth = omega (arith, s.depth);
          names = (is, s.names);
          size = size;
          chars = chars;
          room = λ more. omega (
            arith,
            length-lead p.src,
            length-append (t ++ b'/' ∷ []) name,
            length-append t (b'/' ∷ []),
          );
        },
        omega arith,
        slash,
        meant,
      )

module _ (r : Resolver) (p : Source) (size : length p.buf ≡ 2048) (chars : IsText p.src)
    (slash : AtSlash p.src) (goal : List Bytes) (n m : ℕ) (le : n ≤ m)
    (less : 2 + length p.src ≤ n) where
  pub up-Steps :
      (cs : List Bytes)
      → Fits r cs n
      → settle [] (drop 1 cs) (components p.src) ≡ goal
      → Steps goal m (go_up (record r { parser = p }))
  up-Steps [] s meant = rw (go_up-root (record r { parser = p }) s.depth) (
    [],
    record {
      held = s.held;
      depth = s.depth;
      names = tt;
      size = size;
      chars = chars;
      room = λ more. omega (arith, s.room (omega arith), length-lead p.src);
    },
    omega arith,
    slash,
    meant,
  )
  up-Steps (l ∷ []) s meant =
      let (path, e, held) =
        go_up-name (record r { parser = p }) [] l (no_slash l s.names.0.chars)
          (omega (arith, s.depth)) s.held in
      rw e (
        [],
        record {
          held = held;
          depth = omega (arith, s.depth);
          names = tt;
          size = size;
          chars = chars;
          room = λ more. omega (arith, s.room (omega arith), length-lead p.src);
        },
        omega arith,
        slash,
        meant,
      )
  up-Steps (l ∷ k ∷ cs) s meant =
      let t = join (k ∷ cs) in
      let (path, e, held) =
        go_up-more (record r { parser = p }) t l (no_slash l s.names.0.chars)
          (omega (arith, s.depth)) (rw (append_assoc t (b'/' ∷ []) l) at s.held) in
      rw e (
        k ∷ cs,
        record {
          held = held;
          depth = omega (arith, s.depth);
          names = s.names.1;
          size = size;
          chars = chars;
          room = λ more. omega (
            arith,
            s.room (omega arith),
            length-lead p.src,
            length-append (t ++ b'/' ∷ []) l,
            length-append t (b'/' ∷ []),
          );
        },
        omega arith,
        slash,
        meant,
      )

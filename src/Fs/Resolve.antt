-- ===== src/Fs/Resolve.antt =====
-- The loop of `gemini_fs_resolve` over a stack of names, the last name first.
use mathlib.Core.List.{append_assoc}
use native.Mathlib.Decide.{dec_le, dec_lt}
use geminon.Base.{
  ℕ, zero, suc, ◌+◌, ◌-◌, ◌<◌, ◌≤◌, ◌≡◌, ◌≢◌, ◌⊎◌, inl, inr, refl, ap, some, none, Option, List, [],
  ◌∷◌, ◌++◌, length, length-append, length-take, take, take_all, All, arith,
}
use geminon.Base.Bytes.{Bytes, IsText}
use geminon.Base.Run.{Run, ok, fault, no_fuel, ◌>>=◌}
use geminon.Fs.Component.{Post, parse_path-Post}
use geminon.Fs.Moves.{IsName, IsNameChar}
use geminon.Fs.Path.{
  NonZero, Holds, All-take, append_dir-first, append_dir-more, append_dir-fault, go_up-root,
  go_up-name, go_up-more,
}
use geminon.Fs.{
  Source, Parsed, err, dir, up, end, Resolver, parse_path, append_dir, go_up, resolve_loop,
}

-- The path of a stack of names.
abbrev pub join : List Bytes → Bytes
join [] = []
join (n ∷ []) = n
join (n ∷ m ∷ r) = (join (m ∷ r) ++ b'/' ∷ []) ++ n

-- Every name of the stack is a name, but for the last of at least two: in a full path it may have
-- been cut.
abbrev pub Resolved : List Bytes → Type 0
Resolved [] = Unit
Resolved (n ∷ []) = IsName n
Resolved (n ∷ m ∷ r) =
    All IsNameChar n × All IsName (m ∷ r) × (IsName n ⊎ (length (join (n ∷ m ∷ r)) ≡ 2047))

-- What the loop knows of its locals.
pub record State (r : Resolver) (cs : List Bytes) : Type 0 where
  pub held : Holds r.path (join cs)
  pub short : length (join cs) ≤ 2047
  pub depth : r.deep ≡ length cs
  pub names : Resolved cs
  pub size : length r.parser.buf ≡ 2048
  pub chars : IsText r.parser.src

pub IsName-NonZero : (n : Bytes) → All IsNameChar n → All NonZero n
IsName-NonZero [] h = tt
IsName-NonZero (c ∷ n) h = (h.0.0, IsName-NonZero n h.1)

pub no_slash : (n : Bytes) → All IsNameChar n → All (λ c. c ≢ b'/') n
no_slash [] h = tt
no_slash (c ∷ n) h = (h.0.1, no_slash n h.1)

-- A cut of a name that leaves it whole or fills the path.
cut-IsName :
    (n : Bytes) (cs : List Bytes) (m : Bytes)
    → IsName n
    → length (join (m ∷ cs)) < 2047
    → IsName (take (2046 - length (join (m ∷ cs))) n)
      ⊎ (length (join (take (2046 - length (join (m ∷ cs))) n ∷ m ∷ cs)) ≡ 2047)
cut-IsName n cs m is room =
    let k = 2046 - length (join (m ∷ cs)) in
    elim (dec_le (length n) k) [
      | yes h ↦ inl (rw (take_all k n h) is)
      | no h ↦ inr (
          omega (
            arith,
            length-append (join (m ∷ cs) ++ b'/' ∷ []) (take k n),
            length-append (join (m ∷ cs)) (b'/' ∷ []),
            length-take k n,
          ))
    ]

All-names :
    (n : Bytes) (cs : List Bytes)
    → Resolved (n ∷ cs)
    → length (join (n ∷ cs)) < 2047
    → All IsName (n ∷ cs)
All-names n [] h room = (h, tt)
All-names n (m ∷ r) h room = elim h.2 [ inl is ↦ (is, h.1) | inr full ↦ absurd (omega arith) ]

-- The outcomes of the loop: NULL, a resolved path, or a fault, but never the end of the fuel.
abbrev pub Sound : Run (Option Bytes) → Type 0
Sound (ok none) = Unit
Sound (ok (some a)) = (cs : List Bytes) × Holds a (join cs) × Resolved cs
Sound fault = Unit
Sound no_fuel = ⊥

-- What a step leads to, with less than `n` bytes left.
abbrev Steps : ℕ → Run Resolver → Type 0
Steps n (ok r) = (cs : List Bytes) × State r cs × (length r.parser.src < n)
Steps n fault = Unit
Steps n no_fuel = ⊥

pub name_pos : (m : Bytes) → IsName m → 0 < length m
name_pos [] h = elim h.visible [ inl v ↦ cc | inr v ↦ absurd (omega arith) ]
name_pos (c ∷ m) h = omega arith

module _ (r : Resolver) (p : Source) (name more : Bytes) (shape : p.buf ≡ name ++ 0 ∷ more)
    (is : IsName name) (size : length p.buf ≡ 2048) (chars : IsText p.src) (n : ℕ)
    (less : length name + length p.src ≤ n) where
  abbrev found : Resolver
  found = record r { parser = p }

  dir-Steps : (cs : List Bytes) → State r cs → Steps n (append_dir found)
  dir-Steps [] s =
      let (path, e, held) =
        append_dir-first found name more [] s.held shape size (IsName-NonZero name is.chars) refl
          s.depth in
      let whole : take 2047 name ≡ name =
        take_all 2047 name (omega (arith, ap length shape, length-append name (0 ∷ more))) in
      rw e (
        name ∷ [],
        record {
          held = rw whole at held;
          short = omega (arith, ap length shape, length-append name (0 ∷ more));
          depth = omega (arith, s.depth);
          names = is;
          size = size;
          chars = chars;
        },
        omega (arith, name_pos name is),
      )
  dir-Steps (m ∷ cs) s = elim (dec_lt (length (join (m ∷ cs))) 2047) [
    | yes room ↦
        let (path, e, held) =
          append_dir-more found name more (join (m ∷ cs)) s.held shape size
            (IsName-NonZero name is.chars) (omega (arith, s.depth)) room in
        let last = take (2046 - length (join (m ∷ cs))) name in
        rw e (
          last ∷ m ∷ cs,
          record {
            held = held;
            short = omega (
              arith,
              length-append (join (m ∷ cs) ++ b'/' ∷ []) last,
              length-append (join (m ∷ cs)) (b'/' ∷ []),
              length-take (2046 - length (join (m ∷ cs))) name,
            );
            depth = omega (arith, s.depth);
            names = (
              All-take IsNameChar _ name is.chars,
              All-names m cs s.names room,
              cut-IsName name cs m is room,
            );
            size = size;
            chars = chars;
          },
          omega (arith, name_pos name is),
        )
    | no full ↦
        rw
          (append_dir-fault found name more (join (m ∷ cs)) s.held shape size
            (IsName-NonZero name is.chars) (omega (arith, s.depth)) (omega (arith, s.short)))
          tt
  ]

head_chars : (n : Bytes) (cs : List Bytes) → Resolved (n ∷ cs) → All IsNameChar n
head_chars n [] h = h.chars
head_chars n (m ∷ r) h = h.0

tail-Resolved : (m : Bytes) (cs : List Bytes) → All IsName (m ∷ cs) → Resolved (m ∷ cs)
tail-Resolved m [] h = h.0
tail-Resolved m (l ∷ r) h = (h.0.chars, h.1, inl h.0)

module _ (r : Resolver) (p : Source) (size : length p.buf ≡ 2048) (chars : IsText p.src) (n : ℕ)
    (less : length p.src < n) where
  up-Steps : (cs : List Bytes) → State r cs → Steps n (go_up (record r { parser = p }))
  up-Steps [] s = rw (go_up-root (record r { parser = p }) s.depth) (
    [],
    record {
      held = s.held;
      short = s.short;
      depth = s.depth;
      names = tt;
      size = size;
      chars = chars;
    },
    less,
  )
  up-Steps (m ∷ []) s =
      let (path, e, held) =
        go_up-name (record r { parser = p }) [] m (no_slash m s.names.chars)
          (omega (arith, s.depth)) s.held in
      rw e (
        [],
        record {
          held = held;
          short = omega arith;
          depth = omega (arith, s.depth);
          names = tt;
          size = size;
          chars = chars;
        },
        less,
      )
  up-Steps (m ∷ l ∷ cs) s =
      let t = join (l ∷ cs) in
      let (path, e, held) =
        go_up-more (record r { parser = p }) t m (no_slash m s.names.0) (omega (arith, s.depth))
          (rw (append_assoc t (b'/' ∷ []) m) at s.held) in
      rw e (
        l ∷ cs,
        record {
          held = held;
          short =
              omega (arith, s.short, length-append (t ++ b'/' ∷ []) m, length-append t (b'/' ∷ []));
          depth = omega (arith, s.depth);
          names = tail-Resolved l cs s.names.1;
          size = size;
          chars = chars;
        },
        less,
      )

-- The rest of the loop is sound from every state with less than `m` bytes left.
abbrev RestSound : ℕ → ℕ → Type 0
RestSound k m =
    (r : Resolver) (cs : List Bytes)
    → State r cs
    → length r.parser.src < m
    → Sound (resolve_loop k r)

follow :
    (k m : ℕ)
    → RestSound k m
    → (step : Run Resolver) → Steps m step
    → Sound (step >>= resolve_loop k)
follow k m rest (ok r) (cs, s, lt) = rest r cs s lt
follow k m rest fault h = tt
follow k m rest no_fuel h = absurd h

-- One round, over the rest of the loop.
round-Sound :
    (r : Resolver) (cs : List Bytes) (k n m : ℕ) (call : Run (Parsed × Source))
    → State r cs
    → Post n 2048 call
    → n ≤ m
    → RestSound k m
    → Sound (
        call >>= λ x. elim x.0 [
          | err ↦ ok none
          | dir ↦ append_dir (record r { parser = x.1 }) >>= resolve_loop k
          | up ↦ go_up (record r { parser = x.1 }) >>= resolve_loop k
          | end ↦ ok (some r.path)
        ])
round-Sound r cs k n m (ok (err, p)) s h le rest = tt
round-Sound r cs k n m (ok (end, p)) s h le rest = (cs, s.held, s.names)
round-Sound r cs k n m (ok (dir, p)) s (name, more, shape, is, less, size, chars, _) le rest =
    follow k m rest (append_dir (record r { parser = p }))
      (dir-Steps r p name more shape is size chars m (omega arith) cs s)
round-Sound r cs k n m (ok (up, p)) s (less, size, chars, _) le rest =
    follow k m rest (go_up (record r { parser = p })) (up-Steps r p size chars m (omega arith) cs s)
round-Sound r cs k n m fault s h le rest = absurd h
round-Sound r cs k n m no_fuel s h le rest = absurd h

pub loop-Sound :
    (k : ℕ) (r : Resolver) (cs : List Bytes)
    → State r cs
    → length r.parser.src < k
    → Sound (resolve_loop k r)
unfolding resolve_loop
loop-Sound zero r cs s lt = absurd (omega arith)
loop-Sound (suc k) r cs s lt =
    round-Sound r cs k (length r.parser.src) (length r.parser.src) (parse_path r.parser) s
      (rw s.size at (parse_path-Post r.parser s.chars (omega (arith, s.size)))) (omega arith)
      λ r' cs' s' lt'. loop-Sound k r' cs' s' (omega arith)

-- ===== src/Fs/Path.antt =====
-- The two writes that `gemini_fs_resolve` makes to its path array.
use mathlib.Core.List.{append_assoc}
use geminon.Base.{
  ℕ, zero, suc, ◌+◌, ◌-◌, ◌^◌, ◌<◌, ◌≡◌, ◌≢◌, refl, ap, ◌∙◌, false, some, none, [], ◌∷◌, ◌++◌, ltb,
  lt→ltb, length, length-append, take, drop, length-take, length-drop, All, All-append, All-left,
  All-right, List, arith,
}
use geminon.Base.Arrays.Laws.{poke-append, strlen-append, strrchr-append, strrchr-none}
use geminon.Base.Arrays.{poke, strlen, strrchr}
use geminon.Base.Bytes.{Bytes}
use geminon.Base.Run.{ok, fault, ◌>>=◌}
use geminon.Fs.Copy.{copy-take, copy-fault}
use geminon.Fs.{max_path, Resolver, sub64, copy, append_dir, go_up}

abbrev pub NonZero : ℕ → Type 0
NonZero c = c ≢ 0

-- The array `a` holds the string `t`.
pub record Holds (a t : Bytes) : Type 0 where
  pub rest : Bytes
  pub shape : a ≡ t ++ 0 ∷ rest
  pub size : length a ≡ max_path + 1
  pub chars : All NonZero t

pub drop-cons : (n : ℕ) (r : Bytes) → n < length r → (y : ℕ) × (drop n r ≡ y ∷ drop (suc n) r)
drop-cons n [] h = elim h [ ]
drop-cons zero (y ∷ r) h = (y, refl)
drop-cons (suc n) (y ∷ r) h = drop-cons n r (omega arith)

pub All-take {ℓ κ} : {A : Type ℓ} (P : A → Type κ) (n : ℕ) (t : List A) → All P t → All P (take n t)
All-take P zero t h = tt
All-take P (suc n) [] h = tt
All-take P (suc n) (x ∷ t) h = (h.0, All-take P n t h.1)

-- A C string that is cut after `n` bytes.
take-cut :
    (n : ℕ) (t more z : Bytes)
    → (rest : Bytes) × (take n (t ++ 0 ∷ more) ++ 0 ∷ z ≡ take n t ++ 0 ∷ rest)
take-cut zero t more z = (z, refl)
take-cut (suc n) [] more z = (take n more ++ 0 ∷ z, refl)
take-cut (suc n) (x ∷ t) more z = let (rest, e) = take-cut n t more z in (rest, ap (λ y. x ∷ y) e)

-- The array behind the copy and the NUL that follows it.
abbrev written : Bytes → Bytes → Bytes → ℕ → Bytes
written a r q left = (a ++ take left q) ++ 0 ∷ drop (suc left) r

module _ (q a r : Bytes) (left : ℕ) (full : length a + left ≡ 2047)
    (size : length a + length r ≡ 2049) (sq : length q ≡ 2048) where
  copied :
      (y : ℕ) × (copy q (a ++ r) (length a) left
        ≡ ok ((a ++ take left q) ++ y ∷ drop (suc left) r, length (a ++ take left q)))
  copied =
      let (y, e) = drop-cons left r (omega arith) in
      let there : length a + left ≡ length (a ++ take left q) =
        omega (arith, length-append a (take left q), length-take left q) in
      (
        y,
        rw (
          copy-take q a r left (omega arith) (omega arith),
          e,
          there,
          append_assoc a (take left q) (y ∷ drop (suc left) r),
        ),
      )

  append_copied :
      (r' : Resolver)
      → (copy q (a ++ r) (length a) left >>= λ x.
          poke x.0 x.1 0 >>= λ path. ok (record r' { path = path; deep = r'.deep + 1 }))
        ≡ ok (record r' { path = written a r q left; deep = r'.deep + 1 })
  append_copied r' =
      let (y, e) = copied in rw (e, poke-append (a ++ take left q) y 0 (drop (suc left) r))

-- What the path holds after the copy.
copied-Holds :
    (a r q name more : Bytes) (left : ℕ)
    → length a + left ≡ 2047
    → length a + length r ≡ 2049
    → All NonZero a
    → All NonZero name
    → q ≡ name ++ 0 ∷ more
    → length q ≡ 2048
    → Holds (written a r q left) (a ++ take left name)
copied-Holds a r q name more left full size ca cn found sq =
    let (rest, e) = take-cut left name more (drop (suc left) r) in
    record {
      rest = rest;
      shape = rw (
        found,
        append_assoc a (take left (name ++ 0 ∷ more)) (0 ∷ drop (suc left) r),
        e,
        append_assoc a (take left name) (0 ∷ rest),
      );
      size = omega (
        arith,
        length-append (a ++ take left q) (0 ∷ drop (suc left) r),
        length-append a (take left q),
        length-take left q,
        length-drop (suc left) r,
      );
      chars = All-append NonZero a (take left name) ca (All-take NonZero left name cn);
    }

module _ (r : Resolver) (name more : Bytes) (t : Bytes) (held : Holds r.path t)
    (found : r.parser.buf ≡ name ++ 0 ∷ more) (size : length r.parser.buf ≡ 2048)
    (chars : All NonZero name) where
  pub append_dir-first :
      t ≡ []
      → r.deep ≡ 0
      → (path : Bytes) × (append_dir r ≡ ok (record r { path = path; deep = r.deep + 1 }))
        × Holds path (take 2047 name)
  unfolding append_dir
  append_dir-first empty top =
      let starts : r.path ≡ 0 ∷ held.rest = held.shape ∙ rw empty in
      let none_yet : strlen r.path ≡ ok 0 = rw starts (strlen-append [] held.rest tt) in
      let at_top : ltb 0 r.deep ≡ false = rw top in
      (
        written [] r.path r.parser.buf 2047,
        rw (none_yet, at_top)
            (append_copied r.parser.buf [] r.path 2047 refl (omega (arith, held)) size r),
        copied-Holds [] r.path r.parser.buf name more 2047 refl (omega (arith, held)) tt chars found
            size,
      )

  pub append_dir-more :
      0 < r.deep
      → length t < 2047
      → (path : Bytes) × (append_dir r ≡ ok (record r { path = path; deep = r.deep + 1 }))
        × Holds path ((t ++ b'/' ∷ []) ++ take (2046 - length t) name)
  unfolding append_dir
  append_dir-more pos room =
      let a = t ++ b'/' ∷ [] in
      let left = 2046 - length t in
      let size_a : length a ≡ length t + 1 = length-append t (b'/' ∷ []) in
      let size_all : length a + length held.rest ≡ 2049 =
        omega (arith, held, ap length held.shape, length-append t (0 ∷ held.rest)) in
      let counted : sub64 (sub64 (sub64 max_path (length t)) 1) 1 ≡ left = omega arith in
      let long : strlen r.path ≡ ok (length t) =
        rw held.shape (strlen-append t held.rest held.chars) in
      let slash : poke r.path (length t) b'/' ≡ ok (a ++ held.rest) =
        rw held.shape (poke-append t 0 b'/' held.rest ∙ rw append_assoc) in
      (
        written a held.rest r.parser.buf left,
        rw (long, lt→ltb 0 r.deep pos, slash, counted, ← size_a)
            (append_copied r.parser.buf a held.rest left (omega arith) size_all size r),
        copied-Holds a held.rest r.parser.buf name more left (omega arith) size_all
            (All-append NonZero t (b'/' ∷ []) held.chars (λ e. absurd (omega arith), tt)) chars
            found size,
      )

  -- With the path full, `left` falls below zero, and the copy runs past the end of the array.
  pub append_dir-fault : 0 < r.deep → length t ≡ 2047 → append_dir r ≡ fault
  unfolding append_dir
  append_dir-fault pos full =
      let a = t ++ b'/' ∷ [] in
      let size_all : length (a ++ held.rest) ≡ 2049 = omega (
        arith,
        held,
        ap length held.shape,
        length-append t (0 ∷ held.rest),
        length-append a held.rest,
        length-append t (b'/' ∷ []),
      ) in
      let wrapped : sub64 (sub64 (sub64 max_path (length t)) 1) 1 ≡ 2 ^ 64 - 1 = omega arith in
      let long : strlen r.path ≡ ok (length t) =
        rw held.shape (strlen-append t held.rest held.chars) in
      let slash : poke r.path (length t) b'/' ≡ ok (a ++ held.rest) =
        rw held.shape (poke-append t 0 b'/' held.rest ∙ rw append_assoc) in
      rw (
        long,
        lt→ltb 0 r.deep pos,
        slash,
        wrapped,
        copy-fault r.parser.buf (a ++ held.rest) (length t + 1) (2 ^ 64 - 1) (omega arith)
            (omega arith) (omega arith),
      )

-- A step up at the root changes nothing.
pub go_up-root : (r : Resolver) → r.deep ≡ 0 → go_up r ≡ ok r
unfolding go_up
go_up-root r e = rw e

module _ (r : Resolver) (t n : Bytes) (chars : All (λ c. c ≢ b'/') n) (pos : 0 < r.deep) where
  -- A step up from a single name empties the path.
  pub go_up-name :
      Holds r.path n
      → (path : Bytes) × (go_up r ≡ ok (record r { path = path; deep = r.deep - 1 }))
        × Holds path []
  unfolding go_up
  go_up-name held =
      let (y, e) = drop-cons 0 r.path (omega (arith, held)) in
      let none_left : strrchr r.path b'/' ≡ none =
        rw held.shape (strrchr-none b'/' n held.rest held.chars chars) in
      let cut : poke r.path 0 0 ≡ ok (0 ∷ drop 1 r.path) =
        ap (λ a. poke a 0 0) e ∙ poke-append [] y 0 (drop 1 r.path) in
      (
        0 ∷ drop 1 r.path,
        rw (lt→ltb 0 r.deep pos, none_left, cut),
        record {
          rest = drop 1 r.path;
          shape = refl;
          size = omega (arith, held, ap length e);
          chars = tt;
        },
      )

  -- A step up drops the last name and its slash.
  pub go_up-more :
      Holds r.path (t ++ b'/' ∷ n)
      → (path : Bytes) × (go_up r ≡ ok (record r { path = path; deep = r.deep - 1 })) × Holds path t
  unfolding go_up
  go_up-more held =
      let shape : r.path ≡ t ++ b'/' ∷ (n ++ 0 ∷ held.rest) = held.shape ∙ rw append_assoc in
      let left = All-left NonZero t (b'/' ∷ n) held.chars in
      let right = All-right NonZero t (b'/' ∷ n) held.chars in
      let last : strrchr r.path b'/' ≡ some (length t) =
        rw shape
          (strrchr-append b'/' t n held.rest (λ e. absurd (omega arith)) left right.1 chars) in
      let cut : poke r.path (length t) 0 ≡ ok (t ++ 0 ∷ (n ++ 0 ∷ held.rest)) =
        rw shape (poke-append t b'/' 0 (n ++ 0 ∷ held.rest)) in
      (
        t ++ 0 ∷ (n ++ 0 ∷ held.rest),
        rw (lt→ltb 0 r.deep pos, last, cut),
        record {
          rest = n ++ 0 ∷ held.rest;
          shape = refl;
          size = omega (
            arith,
            held,
            ap length shape,
            length-append t (0 ∷ (n ++ 0 ∷ held.rest)),
            length-append t (b'/' ∷ (n ++ 0 ∷ held.rest)),
          );
          chars = left;
        },
      )

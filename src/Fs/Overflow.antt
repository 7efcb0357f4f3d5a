-- ===== src/Fs/Overflow.antt =====
-- A name that fills the path array, and another one behind it.
use mathlib.Core.List.{append_assoc, append-nil}
use geminon.Base.{
  ℕ, zero, suc, ◌+◌, ◌-◌, ◌<◌, ◌≤◌, ◌≡◌, refl, ap, ◌∙◌, inl, inr, true, some, [], ◌∷◌, ◌++◌, length,
  length-append, take, take_all, All, All-append, arith,
}
use geminon.Base.Arrays.Laws.{poke-append}
use geminon.Base.Bytes.{Bytes, IsChar, IsText}
use geminon.Base.Run.{Run, ok, fault}
use geminon.Fs.Moves.{
  dots, IsVisible, IsName, IsNameChar, at, keep, up_end, name_end, put, move_name, move_put, InScan,
  kind, next,
}
use geminon.Fs.Stored.{Puts-InScan}
use geminon.Fs.Normal.Meaning.{Shape, Puts-Shape}
use geminon.Fs.Path.{Holds, append_dir-first, append_dir-fault}
use geminon.Fs.Resolve.{IsName-NonZero}
use geminon.Fs.Safe.{start-State}
use geminon.Fs.Table.{states}
use geminon.Fs.{
  Source, Parsed, dir, Resolver, move, finish, scan, parse_path, resolve_loop, resolve, first,
}

-- What stands behind a name: nothing, or a slash.
pub data Behind : Bytes → Type 0 where
  nothing : Behind []
  slash : (s : Bytes) → Behind (b'/' ∷ s)

-- A call with a buffer of `m` bytes has found a name, and stops behind it.
abbrev Finds : ℕ → Bytes → Bytes → Run (Parsed × Source) → Type 0
Finds m name rest run =
    (more : Bytes) × (run ≡ ok (dir, record { src = rest; buf = name ++ 0 ∷ more }))
    × (length name + length more + 1 ≡ m)

few_dots : (cur : Bytes) → dots cur ≡ true → length cur < 3 → IsVisible cur → ⊥
few_dots cur e short (inl h) = cc
few_dots cur e short (inr h) = omega arith

stop-Finds :
    (m n : ℕ) (cur : Bytes) (x : ℕ) (room rest : Bytes)
    → length cur + length room + 1 ≡ m
    → InScan n
    → Shape n cur
    → IsName cur
    → Behind rest
    → Finds m cur rest (scan (at n cur x room) rest)
unfolding scan finish states
stop-Finds m zero cur x room rest size i h is b = absurd (omega arith)
stop-Finds m (suc zero) cur x room rest size i h is b =
    absurd (few_dots cur (rw h refl) (rw h (omega arith)) is.visible)
stop-Finds m (suc (suc zero)) cur x room rest size i h is b =
    absurd (few_dots cur (rw h refl) (rw h (ground arith)) is.visible)
stop-Finds m (suc (suc (suc zero))) cur x room rest size i h is b =
    absurd (few_dots cur (rw h refl) (rw h (ground arith)) is.visible)
stop-Finds m (suc (suc (suc (suc zero)))) cur x room [] size i h is b =
    (room, rw (poke-append cur x 0 room) refl, size)
stop-Finds m (suc (suc (suc (suc zero)))) cur x room _ size i h is (slash s) =
    (room, rw (move_name cur b'/' x room) refl, size)
stop-Finds m (suc (suc (suc (suc (suc n))))) cur x room rest size i h is b = absurd (omega arith)

scan-Finds :
    (left : Bytes) (m n : ℕ) (cur : Bytes) (x : ℕ) (room rest : Bytes)
    → length cur + length room + 1 ≡ m
    → InScan n
    → Shape n cur
    → IsName (cur ++ left)
    → All IsNameChar left
    → IsText left
    → length left ≤ length room
    → Behind rest
    → Finds m (cur ++ left) rest (scan (at n cur x room) (left ++ rest))
unfolding scan
scan-Finds [] m n cur x room rest size i h is chars text fits b =
    rw (append-nil cur) (stop-Finds m n cur x room rest size i h (rw (append-nil cur) at is) b)
scan-Finds (c ∷ left) m n cur x [] rest size i h is chars text fits b = absurd (omega arith)
scan-Finds (c ∷ left) m n cur x (y ∷ room) rest size i h is chars text fits b =
    let (to, e, edge) = next n c i text.0.1 (kind c) in
    rw e (elim edge [
      | keep sl a d ↦ absurd (chars.0.1 sl)
      | up_end sl a d ↦ absurd (chars.0.1 sl)
      | name_end sl a d ↦ absurd (chars.0.1 sl)
      | put sl p ↦
          let again =
            scan-Finds left m to (cur ++ c ∷ []) y room rest
              (omega (arith, length-append cur (c ∷ []))) (Puts-InScan n to c p)
              (Puts-Shape n to c cur p h) (rw (append_assoc cur (c ∷ []) left) is) chars.1 text.1
              (omega arith) b in
          rw (move_put cur c x y room p) (rw (append_assoc cur (c ∷ []) left) at again)
    ])

parse_path-Finds :
    (name rest buf : Bytes)
    → IsName name
    → IsText name
    → length name < length buf
    → Behind rest
    → Finds (length buf) name rest (parse_path (record { src = name ++ rest; buf = buf }))
unfolding parse_path
parse_path-Finds name rest [] is text fits b = absurd (omega arith)
parse_path-Finds name rest (x ∷ room) is text fits b =
    let whole : length (x ∷ room) - 1 ≡ length room = omega arith in
    rw whole (
      scan-Finds name (length (x ∷ room)) 1 [] x room rest (omega arith) (omega arith) refl is
        is.chars text (omega arith) b)

-- a slash in front of the name takes no room
parse_path-Finds_slash :
    (name rest buf : Bytes)
    → IsName name
    → IsText name
    → length name < length buf
    → Behind rest
    → Finds (length buf) name rest (parse_path (record { src = b'/' ∷ (name ++ rest); buf = buf }))
unfolding parse_path scan move states
parse_path-Finds_slash name rest buf is text fits b = parse_path-Finds name rest buf is text fits b

module _ (name other rest : Bytes) (is : IsName name) (text : IsText name)
    (full : length name ≡ 2047) (is' : IsName other) (text' : IsText other)
    (short : length other ≤ 2047) (behind : Behind rest) (text'' : IsText rest) where
  abbrev pub long : Bytes
  long = name ++ b'/' ∷ (other ++ rest)

  -- the second name, with the path full
  second-fault :
      (k : ℕ) (r : Resolver)
      → Holds r.path name
      → r.deep ≡ 1
      → r.parser.src ≡ b'/' ∷ (other ++ rest)
      → length r.parser.buf ≡ 2048
      → resolve_loop (suc k) r ≡ fault
  unfolding resolve_loop
  second-fault k r held deep src size =
      let (more, e, all) =
        parse_path-Finds_slash other rest r.parser.buf is' text' (omega arith) behind in
      let p : Source = record { src = rest; buf = other ++ 0 ∷ more } in
      let call : parse_path r.parser ≡ ok (dir, p) =
        ap (λ z. parse_path (record { src = z; buf = r.parser.buf })) src ∙ e in
      let stops =
        append_dir-fault (record r { parser = p }) other more name held refl
          (omega (arith, length-append other (0 ∷ more))) (IsName-NonZero other is'.chars)
          (omega arith) full in
      rw (call, stops) refl

  long-IsText : IsText long
  long-IsText =
      All-append IsChar name _ text (ground arith, All-append IsChar other rest text' text'')

  -- `gemini_fs_resolve` leaves its arrays for every path of a name with 2047 bytes and another name
  -- behind it, whatever follows the two.
  pub resolve-overflow : resolve true (some long) ≡ fault
  unfolding resolve resolve_loop
  resolve-overflow =
      let start = start-State long long-IsText in
      let (more, e, all) =
        parse_path-Finds name (b'/' ∷ (other ++ rest)) (first long).parser.buf is text
          (omega (arith, start.size)) (slash (other ++ rest)) in
      let p : Source = record { src = b'/' ∷ (other ++ rest); buf = name ++ 0 ∷ more } in
      let size : length p.buf ≡ 2048 = omega (arith, start.size, length-append name (0 ∷ more)) in
      let (path, f, held) =
        append_dir-first (record (first long) { parser = p }) name more [] start.held refl size
          (IsName-NonZero name is.chars) refl refl in
      let whole : take 2047 name ≡ name = take_all 2047 name (omega arith) in
      let held' : Holds path name = rw whole at held in
      let k = length name + length (other ++ rest) in
      let rounds : length long + 1 ≡ suc (suc k) =
        omega (arith, length-append name (b'/' ∷ (other ++ rest))) in
      rw (rounds, e, f)
        (second-fault k (record { parser = p; path = path; deep = 1 }) held' refl refl size)

-- ===== src/Base/Arrays/Laws.antt =====
-- Arrays split at an offset.
use geminon.Base.Arrays.{peek, poke, strlen, strrchr, strstr, write_at}
use geminon.Base.Bytes.{Bytes, c_string, starts_with}
use geminon.Base.Lists.{All, length, set, length-append, length-take, length-drop, take, drop}
use geminon.Base.Run.{ok}
use mathlib.Core.Bool.{Bool, true, false}
use geminon.Base.Tests.{if◌then◌else◌, ◌==◌, lt→ltb, le→leb}
use mathlib.Core.List.{[], ◌∷◌, ◌++◌}
use mathlib.Core.Logic.{◌≢◌}
use mathlib.Core.Option
use mathlib.Core.Option.{Option, none, some}
use mathlib.Core.Path.{◌≡◌, refl, ap, ◌∙◌}
use native.Mathlib.Omega.{arith}
use Prim.Native.Nat.{ℕ, zero, suc, ◌+◌, ◌<◌, ◌≤◌}

set-append : (a : Bytes) (x v : ℕ) (r : Bytes) → set (a ++ x ∷ r) (length a) v ≡ a ++ v ∷ r
set-append [] x v r = refl
set-append (y ∷ a) x v r = ap (λ z. y ∷ z) (set-append a x v r)

-- A write at the offset that divides the array.
pub poke-append :
    (a : Bytes) (x v : ℕ) (r : Bytes) → poke (a ++ x ∷ r) (length a) v ≡ ok (a ++ v ∷ r)
unfolding poke
poke-append a x v r =
    rw (lt→ltb (length a) (length (a ++ x ∷ r)) (omega (arith, length-append a (x ∷ r))))
      (ap ok (set-append a x v r))

pub strlen-append : (t r : Bytes) → All (λ c. c ≢ 0) t → strlen (t ++ 0 ∷ r) ≡ ok (length t)
unfolding strlen
strlen-append [] r h = refl
strlen-append (c ∷ t) r h = ground (arith, strlen-append t r h.1)

pub strrchr-none :
    (c : ℕ) (t r : Bytes) → All (λ x. x ≢ 0) t → All (λ x. x ≢ c) t → strrchr (t ++ 0 ∷ r) c ≡ none
unfolding strrchr
strrchr-none c [] r h n = refl
strrchr-none c (x ∷ t) r h n = ground (arith, strrchr-none c t r h.1 n.1)

pub strrchr-append :
    (c : ℕ) (a t r : Bytes)
    → c ≢ 0
    → All (λ x. x ≢ 0) a
    → All (λ x. x ≢ 0) t
    → All (λ x. x ≢ c) t
    → strrchr (a ++ (c ∷ (t ++ 0 ∷ r))) c ≡ some (length a)
unfolding strrchr
strrchr-append c [] t r z ha ht n = ground (arith, strrchr-none c t r ht n)
strrchr-append c (x ∷ a) t r z ha ht n = ground (arith, strrchr-append c a t r z ha.1 ht n)

pub take-length-append : (a b : Bytes) → take (length a) (a ++ b) ≡ a
take-length-append [] b = refl
take-length-append (x ∷ a) b = ap (λ z. x ∷ z) (take-length-append a b)

drop_more-append : (a b : Bytes) (n : ℕ) → drop (length a + n) (a ++ b) ≡ drop n b
drop_more-append [] b n = ap (λ k. drop k b) (omega arith)
drop_more-append (x ∷ a) b n =
    let e : suc (length a) + n ≡ suc (length a + n) = omega arith in
    ap (λ k. drop k (x ∷ (a ++ b))) e ∙ drop_more-append a b n

-- A write behind `a`.
pub write_at-append :
    (a r bs : Bytes)
    → length bs ≤ length r
    → write_at (a ++ r) (length a) bs ≡ ok (a ++ (bs ++ drop (length bs) r))
unfolding write_at
write_at-append a r bs room =
    rw
      (
        le→leb (length a + length bs) (length (a ++ r)) (omega (arith, length-append a r)),
        take-length-append a r,
        drop_more-append a r (length bs),
      )
      refl

pub peek-append : (a : Bytes) (x : ℕ) (r : Bytes) → peek (a ++ x ∷ r) (length a) ≡ ok x
unfolding peek
peek-append [] x r = refl
peek-append (y ∷ a) x r = peek-append a x r

pub length-write_at :
    (a : Bytes) (i : ℕ) (bs : Bytes)
    → i + length bs ≤ length a
    → (b : Bytes) × (write_at a i bs ≡ ok b) × (length b ≡ length a)
unfolding write_at
length-write_at a i bs room = (
  take i a ++ (bs ++ drop (i + length bs) a),
  rw (le→leb (i + length bs) (length a) room) refl,
  omega (
    arith,
    length-append (take i a) (bs ++ drop (i + length bs) a),
    length-append bs (drop (i + length bs) a),
    length-take i a,
    length-drop (i + length bs) a,
  ),
)

pub poke-set : (a : Bytes) (i v : ℕ) → i < length a → poke a i v ≡ ok (set a i v)
unfolding poke
poke-set a i v lt = rw (lt→ltb i (length a) lt) refl

pub length-c_string : (a : Bytes) → length (c_string a) ≤ length a
length-c_string [] = omega arith
length-c_string (c ∷ a) = ground (arith, length-c_string a)

-- a place that has been found, at `i` at most
abbrev pub AtMost : ℕ → Option ℕ → Type 0
AtMost i none = Unit
AtMost i (some p) = p ≤ i

next_place :
    (first last : Bool) (i : ℕ) (r : Option ℕ)
    → AtMost i r
    → (r' : Option ℕ) × ((if first
          then ok (some 0)
          else if last
          then ok none
          else ok (Option.map (λ k. suc k) r))
        ≡ ok r')
      × AtMost (suc i) r'
next_place true last i r h = (some 0, refl, omega arith)
next_place false true i r h = (none, refl, tt)
next_place false false i none h = (none, refl, tt)
next_place false false i (some p) h = (some (suc p), refl, omega arith)

-- A NUL ends the search, and nothing is found behind it.
pub strstr-set :
    (a : Bytes) (i : ℕ) (x : ℕ) (s : Bytes)
    → i < length a
    → (r : Option ℕ) × (strstr (set a i 0) (x ∷ s) ≡ ok r) × AtMost i r
unfolding strstr
strstr-set [] i x s lt = absurd (omega arith)
strstr-set (c ∷ a) zero x s lt = (none, refl, tt)
strstr-set (c ∷ a) (suc i) x s lt =
    let (r, e, below) = strstr-set a i x s (omega arith) in
    rw e (next_place (starts_with (c_string (c ∷ set a i 0)) (x ∷ s)) (c == 0) i r below)

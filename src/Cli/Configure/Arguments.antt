-- ===== src/Cli/Configure/Arguments.antt =====
-- The arguments of options: numbers, lists of files, and pairs of a prefix and a path.
use geminon.Base.{
  ℕ, zero, suc, ◌+◌, ◌*◌, ◌-◌, ◌^◌, ◌<◌, ◌≤◌, ◌≡◌, refl, sym, ap, subst, ◌∙◌, true, false,
  if◌then◌else◌, List, inl, inr, Bool-cases, Option, none, some, [], ◌∷◌, ltb, ◌==◌, length, arith,
}
use geminon.Base.Bytes.{Bytes, IsText}
use geminon.Base.Run.{Run, ok}
use geminon.Cli.Configure.{
  split, is_digit, all_digits, port_loop, Authorities, loaded, load_loop, at_prefix,
}
use geminon.Server.Handlers.Gates.{some-inj}
use geminon.Server.Handlers.{Verifier}

digit-bound : (b : ℕ) → is_digit b ≡ true → b - b'0' ≤ 9
unfolding is_digit
digit-bound b e = ground arith

-- a bound of the numbers with so many digits
abbrev limit : ℕ → ℕ
limit zero = 1
limit (suc m) = 10 * limit m

limit-add : (k m : ℕ) → limit m ≤ limit (k + m)
limit-add zero m = let e : 0 + m ≡ m = omega arith in rw e (omega arith)
limit-add (suc k) m =
    let e : suc k + m ≡ suc (k + m) = omega arith in rw e (omega (arith, limit-add k m))

limit_nine : (m : ℕ) → m ≤ 9 → limit m ≤ 1000000000
limit_nine m h =
    let e : (9 - m) + m ≡ 9 = omega arith in
    let top : limit ((9 - m) + m) ≡ 1000000000 = ap limit e in
    omega (arith, limit-add (9 - m) m, top)

-- the number that digits make, behind others
abbrev pub number : ℕ → Bytes → ℕ
number port [] = port
number port (b ∷ bs) = number (port * 10 + (b - b'0')) bs

-- Digits have given their number, and anything else none.
abbrev pub Digits : (port : ℕ) → Bytes → Option ℕ → Type 0
Digits port s none = all_digits s ≡ false
Digits port s (some n) = (all_digits s ≡ true) × (n ≡ number port s)

next-Digits :
    (b port : ℕ) (bs : Bytes) (r : Option ℕ)
    → is_digit b ≡ true
    → Digits (port * 10 + (b - b'0')) bs r
    → Digits port (b ∷ bs) r
unfolding all_digits
next-Digits b port bs none digit bad = rw (digit, bad) refl
next-Digits b port bs (some n) digit (good, same) = (rw (digit, good) refl, same)

pub port_loop-ends :
    (m port : ℕ) (s : Bytes)
    → length s + m ≤ 9
    → port < limit m
    → (r : Option ℕ) × (port_loop port s ≡ ok r) × Digits port s r
unfolding port_loop all_digits
port_loop-ends m port [] le small = (some port, refl, (refl, refl))
port_loop-ends m port (b ∷ bs) le small = elim (Bool-cases (is_digit b)) [
  | inr not_digit ↦ (none, rw (not_digit, port_loop) refl, rw not_digit refl)
  | inl digit ↦
      let nine : b - b'0' ≤ 9 = digit-bound b digit in
      let next = port * 10 + (b - b'0') in
      let fits : ltb next (2 ^ 31) ≡ true = ground (arith, limit_nine (suc m) (omega arith)) in
      let (r, e, value) = port_loop-ends (suc m) next bs (omega arith) (omega arith) in
      (r, rw (digit, fits, port_loop) e, next-Digits b port bs r digit value)
]

length-split :
    (c : ℕ) (s : Bytes) {later : Bytes} → (split c s).1 ≡ some later → length later < length s
unfolding split
length-split c [] e = cc
length-split c (b ∷ bs) e = elim (Bool-cases (b == c)) [
  | inl same ↦ omega (arith, ap length (some-inj (rw same at e)))
  | inr not ↦ omega (arith, length-split c bs (rw not at e))
]

-- a byte in front of the first field
abbrev onto : ℕ → List Bytes → List Bytes
onto b [] = (b ∷ []) ∷ []
onto b (f ∷ fs) = (b ∷ f) ∷ fs

-- the fields between the bytes `c` of a string
abbrev pub fields : ℕ → Bytes → List Bytes
fields c [] = [] ∷ []
fields c (b ∷ bs) = if b == c then [] ∷ fields c bs else onto b (fields c bs)

-- the fields of what is behind the first
abbrev further : ℕ → Option Bytes → List Bytes
further c none = []
further c (some later) = fields c later

fields-split : (c : ℕ) (s : Bytes) → fields c s ≡ (split c s).0 ∷ further c (split c s).1
unfolding split
fields-split c [] = refl
fields-split c (b ∷ bs) = elim (Bool-cases (b == c)) [
  | inl same ↦ rw same refl
  | inr not ↦ rw not (ap (onto b) (fields-split c bs))
]

module _ (x : Verifier) (a : Authorities x) where
  -- what comes of a store that each of the files is loaded into
  abbrev pub load_each : List Bytes → Option x.Store → Option x.Store
  load_each [] st = st
  load_each (file ∷ files) none = none
  load_each (file ∷ files) (some st) = load_each files (a.load st file)

  pub load_each-none : (files : List Bytes) → load_each files none ≡ none
  load_each-none [] = refl
  load_each-none (file ∷ files) = refl

  loaded_lem :
      (k : ℕ) (s : Bytes) (again : x.Store → Bytes → Run (Option x.Store))
      → ((st : x.Store) (later : Bytes)
          → length later < k
          → again st later ≡ ok (load_each (fields b',' later) (some st)))
      → length s < suc k
      → (o : Option Bytes) → (split b',' s).1 ≡ o
      → (l : Option x.Store) → loaded x a again o l ≡ ok (load_each (further b',' o) l)
  unfolding loaded
  loaded_lem k s again goes lt o e none = ap ok (sym (load_each-none (further b',' o)))
  loaded_lem k s again goes lt none e (some st) = refl
  loaded_lem k s again goes lt (some later) e (some st) =
      goes st later (omega (arith, length-split b',' s e))

  pub load_loop_lem :
      (k : ℕ) (st : x.Store) (s : Bytes)
      → length s < k
      → load_loop x a k st s ≡ ok (load_each (fields b',' s) (some st))
  unfolding load_loop
  load_loop_lem zero st s lt = absurd (omega arith)
  load_loop_lem (suc k) st s lt =
      subst (λ z. load_loop x a (suc k) st s ≡ ok (load_each z (some st)))
        (sym (fields-split b',' s))
        (loaded_lem k s (load_loop x a k) (λ st' later lt'. load_loop_lem k st' later lt') lt
          (split b',' s).1 refl (a.load st (split b',' s).0))

split-IsText :
    (c : ℕ) (bs : Bytes) {later : Bytes} → IsText bs → (split c bs).1 ≡ some later → IsText later
unfolding split
split-IsText c [] h e = cc
split-IsText c (b ∷ bs) h e = elim (Bool-cases (b == c)) [
  | inl same ↦ subst IsText (some-inj (rw same at e)) h.1
  | inr not ↦ split-IsText c bs h.1 (rw not at e)
]

no_part : {bs : Bytes} → some bs ≡ none → ⊥
no_part e = cc

split-whole : (c : ℕ) (bs : Bytes) → (split c bs).1 ≡ none → (split c bs).0 ≡ bs
unfolding split
split-whole c [] e = refl
split-whole c (b ∷ bs) e = elim (Bool-cases (b == c)) [
  | inl same ↦ absurd (no_part (rw same at e))
  | inr not ↦ rw not (ap (λ z. b ∷ z) (split-whole c bs (rw not at e)))
]

-- the root in an option's argument
pub part-Fits :
    (arg : Bytes) (y : Bytes × Option Bytes)
    → split b':' arg ≡ y
    → IsText arg
    → IsText (at_prefix y).1 × (length (at_prefix y).1 ≤ length arg)
unfolding at_prefix
part-Fits arg (whole, none) e h =
    let same : whole ≡ arg = ap (λ z. z.0) (sym e) ∙ split-whole b':' arg (ap (λ z. z.1) e) in
    rw same (h, omega arith)
part-Fits arg (prefix, some rest) e h =
    let found = ap (λ z. z.1) e in
    (split-IsText b':' arg h found, omega (arith, length-split b':' arg found))

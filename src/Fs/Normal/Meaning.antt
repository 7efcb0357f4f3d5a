-- ===== src/Fs/Normal/Meaning.antt =====
-- What the bytes of a component mean, by the state that they lead to.
use mathlib.Core.List.{append-nil}
use geminon.Base.{
  ℕ, zero, suc, ◌≡◌, refl, sym, ap, ap₂, subst, ◌⊎◌, inl, inr, List, [], ◌∷◌, ◌++◌, drop, All,
  All-append, length, length-append, arith,
}
use geminon.Base.Bytes.{Bytes, c_string}
use geminon.Fs.Moves.{
  IsVisible, IsNameChar, Puts, first_dot, first, second_dot, hidden, third, more,
}
use geminon.Fs.Stored.{IsVisible-other, IsVisible-concat}
use geminon.Fs.Normal.{components, enter, settle, components-behind, components-last}
use geminon.Fs.Resolve.{IsName-NonZero, no_slash}
use geminon.Fs.Safe.{c_string-NonZero}

-- The bytes of a component that lead to a state.
abbrev pub Shape : ℕ → Bytes → Type 0
Shape (suc zero) cur = cur ≡ []
Shape (suc (suc zero)) cur = cur ≡ b'.' ∷ []
Shape (suc (suc (suc zero))) cur = cur ≡ b'.' ∷ b'.' ∷ []
Shape _ cur = IsVisible cur

pub step-Shape : {a b : ℕ} (cur : Bytes) → a ≡ b → Shape a cur → Shape b cur
step-Shape cur e h = subst (λ z. Shape z cur) e h

pub Puts-Shape :
    (st to c : ℕ) (cur : Bytes) → Puts st to c → Shape st cur → Shape to (cur ++ c ∷ [])
Puts-Shape st to c cur (first_dot a b d) h =
    step-Shape (cur ++ c ∷ []) (sym b) (ap₂ (λ x y. x ++ y ∷ []) (step-Shape cur a h) d)
Puts-Shape st to c cur (first a b d) h =
    step-Shape (cur ++ c ∷ []) (sym b) (IsVisible-other cur c d)
Puts-Shape st to c cur (second_dot a b d) h =
    step-Shape (cur ++ c ∷ []) (sym b) (ap₂ (λ x y. x ++ y ∷ []) (step-Shape cur a h) d)
Puts-Shape st to c cur (hidden a b d) h =
    step-Shape (cur ++ c ∷ []) (sym b) (IsVisible-other cur c d)
Puts-Shape st to c cur (third a b) h =
    let two : cur ≡ b'.' ∷ b'.' ∷ [] = step-Shape cur a h in
    step-Shape (cur ++ c ∷ []) (sym b)
      (inr (omega (arith, ap length two, length-append cur (c ∷ []))))
Puts-Shape st to c cur (more a b) h =
    step-Shape (cur ++ c ∷ []) (sym b) (IsVisible-concat cur c (step-Shape cur a h))

-- what a string does to a stack of names, behind dots that are kept and a part of a component
abbrev pub meaning : (dots cur s : Bytes) → List Bytes → List Bytes
meaning dots cur s st = settle dots st (components (cur ++ s))

pub meaning-behind :
    (dots cur s : Bytes) (st : List Bytes) {c : ℕ}
    → c ≡ b'/'
    → All IsNameChar cur
    → meaning dots cur (c ∷ s) st
      ≡ settle (enter dots st cur).0 (enter dots st cur).1 (components s)
unfolding settle
meaning-behind dots cur s st slash chars =
    rw (slash, components-behind cur s (no_slash cur chars)) refl

pub meaning-last :
    (dots cur : Bytes) (st : List Bytes)
    → All IsNameChar cur
    → meaning dots cur [] st ≡ (enter dots st cur).1
unfolding settle
meaning-last dots cur st chars = rw (append-nil cur, components-last cur (no_slash cur chars)) refl

-- a slash alone does nothing
pub meaning-slash :
    (s : Bytes) (st : List Bytes) {c : ℕ}
    → c ≡ b'/'
    → settle [] st (components (c ∷ s)) ≡ settle [] st (components s)
unfolding settle components enter
meaning-slash s st slash = rw slash refl

pub enter-kept :
    (n : ℕ) (dots cur : Bytes) (st : List Bytes)
    → (n ≡ 1) ⊎ (n ≡ 2)
    → Shape n cur
    → enter dots st cur ≡ (dots ++ cur, st)
unfolding enter
enter-kept n dots cur st (inl a) h = let e : cur ≡ [] = step-Shape cur a h in rw e refl
enter-kept n dots cur st (inr a) h = let e : cur ≡ b'.' ∷ [] = step-Shape cur a h in rw e refl

pub enter-up :
    (dots cur : Bytes) (st : List Bytes)
    → cur ≡ b'.' ∷ b'.' ∷ []
    → enter dots st cur ≡ ([], drop 1 st)
unfolding enter
enter-up dots cur st e = rw e refl

pub whole_name :
    (dots cur room : Bytes)
    → All IsNameChar dots
    → All IsNameChar cur
    → c_string ((dots ++ cur) ++ 0 ∷ room) ≡ dots ++ cur
whole_name dots cur room kept chars =
    c_string-NonZero (dots ++ cur) room
      (IsName-NonZero (dots ++ cur) (All-append IsNameChar dots cur kept chars))

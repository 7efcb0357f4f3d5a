-- ===== src/Fs/Root/Trim.antt =====
-- The root of `gemini_fs_path` without the slashes at its end.
use mathlib.Core.List.{append_assoc, append-nil}
use native.Mathlib.Decide.{ℕ_discrete}
use geminon.Base.{
  ℕ, zero, suc, ◌≡◌, ◌≢◌, refl, sym, ap, ap₂, ◌∙◌, ◌⊎◌, inl, inr, [], ◌∷◌, ◌++◌, All, All-append,
  length, arith,
}
use geminon.Base.Arrays.Laws.{peek-append}
use geminon.Base.Bytes.{Bytes}
use geminon.Base.Run.{ok}
use geminon.Fs.Root.{trim}

pub unsnoc :
    (n : ℕ) (a : Bytes)
    → length a ≡ suc n
    → (b : Bytes) × (c : ℕ) × (a ≡ b ++ c ∷ []) × (length b ≡ n)
unsnoc n [] h = absurd (omega arith)
unsnoc zero (x ∷ []) h = ([], x, refl, refl)
unsnoc (suc n) (x ∷ []) h = absurd (omega arith)
unsnoc zero (x ∷ y ∷ a) h = absurd (omega arith)
unsnoc (suc n) (x ∷ y ∷ a) h =
    let (b, c, e, l) = unsnoc n (y ∷ a) (omega arith) in (x ∷ b, c, ap (λ z. x ∷ z) e, omega arith)

-- The root without the slashes at its end.
pub record IsStripped (root d : Bytes) : Type 0 where
  pub slashes : Bytes
  pub shape : root ≡ d ++ slashes
  pub all : All (λ c. c ≡ b'/') slashes
  pub last : (d ≡ []) ⊎ ((b : Bytes) × (c : ℕ) × (d ≡ b ++ c ∷ []) × (c ≢ b'/'))

module _ (b : Bytes) (c : ℕ) (s : Bytes) where
  trim-slash : c ≡ b'/' → trim (b ++ c ∷ s) (suc (length b)) ≡ trim (b ++ c ∷ s) (length b)
  unfolding trim
  trim-slash e = ground (arith, peek-append b c s)

  trim-other : c ≢ b'/' → trim (b ++ c ∷ s) (suc (length b)) ≡ ok (suc (length b))
  unfolding trim
  trim-other ne = ground (arith, peek-append b c s)

pub trim-IsStripped :
    (n : ℕ) (a s : Bytes)
    → length a ≡ n
    → (d : Bytes) × IsStripped a d × (trim (a ++ s) n ≡ ok (length d))
unfolding trim
trim-IsStripped zero [] s h =
    ([], record { slashes = []; shape = refl; all = tt; last = inl refl }, refl)
trim-IsStripped zero (x ∷ a) s h = absurd (omega arith)
trim-IsStripped (suc n) a s h =
    let (b, c, e, l) = unsnoc n a h in
    let whole : a ++ s ≡ b ++ c ∷ s = rw e (append_assoc b (c ∷ []) s) in
    elim (ℕ_discrete c b'/') [
      | yes slash ↦
          let (d, is, done) = trim-IsStripped n b (c ∷ s) l in
          (
            d,
            record {
              slashes = is.slashes ++ c ∷ [];
              shape = e ∙ ap (λ x. x ++ c ∷ []) is.shape ∙ append_assoc d is.slashes (c ∷ []);
              all = All-append (λ x. x ≡ b'/') is.slashes (c ∷ []) is.all (slash, tt);
              last = is.last;
            },
            ap₂ trim whole (ap suc (sym l))
                ∙ trim-slash b c s slash
                ∙ ap (trim (b ++ c ∷ s)) l
                ∙ done,
          )
      | no other ↦ (
        a,
        record { slashes = []; shape = sym (append-nil a); all = tt; last = inr (b, c, e, other) },
        ap₂ trim whole (ap suc (sym l)) ∙ trim-other b c s other ∙ ap ok (omega arith),
      )
    ]

-- ===== src/Client/Port.antt =====
-- The port of a URL as a decimal string.
use mathlib.Core.List.{append_assoc}
use geminon.Base.{
  ℕ, zero, suc, ◌+◌, ◌-◌, ◌*◌, ◌/◌, ◌%◌, ◌<◌, ◌≡◌, ◌≢◌, refl, sym, ap, ap₂, ◌∙◌, true, inl, inr,
  Bool-cases, [], ◌∷◌, ◌++◌, ltb, All, All-append, length, drop-length_append, arith,
}
use geminon.Base.Arrays.{poke}
use geminon.Base.Arrays.Laws.{poke-append}
use geminon.Base.Bytes.{Bytes, c_string}
use geminon.Base.Run.{ok}
use geminon.Client.{service_loop, service_of}
use geminon.Fs.Root.Trim.{unsnoc}
use geminon.Fs.Safe.{c_string-NonZero}
use geminon.Url.Grammar.{is_digit, IsDigits, number}

-- the numbers with at most so many digits
abbrev cap : ℕ → ℕ
cap zero = 1
cap (suc i) = 10 * cap i

number-append :
    (acc : ℕ) (ds : Bytes) (d : ℕ) → number acc (ds ++ d ∷ []) ≡ number acc ds * 10 + (d - b'0')
number-append acc [] d = refl
number-append acc (c ∷ ds) d = number-append (acc * 10 + (c - b'0')) ds d

-- The digits stand in front of `tail`, and what is in front of them is of no account.
service_loop-number :
    (i port : ℕ) (front tail : Bytes)
    → length front ≡ i
    → port < cap i
    → (front' ds : Bytes) × (service_loop i port (front ++ tail)
        ≡ ok (length front', front' ++ (ds ++ tail)))
      × IsDigits ds
      × (number 0 ds ≡ port)
unfolding service_loop
service_loop-number zero port [] tail size fits = ([], [], refl, tt, omega arith)
service_loop-number zero port (c ∷ front) tail size fits = absurd (omega arith)
service_loop-number (suc i) port front tail size fits = elim (Bool-cases (ltb 0 port)) [
  | inr none_left ↦ (front, [], rw (none_left, size) refl, tt, ground arith)
  | inl some_left ↦
      let (f, c, shape, l) = unsnoc i front size in
      let d = b'0' + port % 10 in
      let (front', ds, e, digits, value) =
        service_loop-number i (port / 10) f (d ∷ tail) l (omega arith) in
      let whole : front ++ tail ≡ f ++ c ∷ tail = rw shape (append_assoc f (c ∷ []) tail) in
      let stored : poke (front ++ tail) i d ≡ ok (f ++ d ∷ tail) =
        ap₂ (λ a k. poke a k d) whole (sym l) ∙ poke-append f c d tail in
      (
        front',
        ds ++ d ∷ [],
        rw (some_left, stored)
            (e ∙ ap (λ z. ok (length front', front' ++ z)) (sym (append_assoc ds (d ∷ []) tail))),
        All-append (λ b. is_digit b ≡ true) ds (d ∷ []) digits (ground arith, tt),
        number-append 0 ds d ∙ omega (arith, value),
      )
]

IsDigits-NonZero : (ds : Bytes) → IsDigits ds → All (λ c. c ≢ 0) ds
IsDigits-NonZero [] h = tt
IsDigits-NonZero (d ∷ ds) h = (ground arith, IsDigits-NonZero ds h.1)

-- Whatever the array of six bytes holds, a 16-bit port is written into it without leaving it, as a
-- string of digits that stand for that port. (Port 0 gives the empty string.)
pub service_of-number :
    (p : Bytes) (port : ℕ)
    → length p ≡ 6
    → port < 65536
    → (ds : Bytes) × (service_of p port ≡ ok ds) × IsDigits ds × (number 0 ds ≡ port)
unfolding service_of
service_of-number p port size fits =
    let (f, c, shape, l) = unsnoc 5 p size in
    let (front, ds, e, digits, value) = service_loop-number 5 port f (0 ∷ []) l (omega arith) in
    let ended : poke p 5 0 ≡ ok (f ++ 0 ∷ []) =
      ap₂ (λ a k. poke a k 0) shape (sym l) ∙ poke-append f c 0 [] in
    (
      ds,
      rw (ended, e)
          (ap ok (
            ap c_string (drop-length_append front (ds ++ 0 ∷ []))
            ∙ c_string-NonZero ds [] (IsDigits-NonZero ds digits))),
      digits,
      value,
    )

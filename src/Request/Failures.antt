-- ===== src/Request/Failures.antt =====
-- Writes that fail behind others that have not.
use mathlib.Core.List.{append_assoc, append-nil}
use geminon.Base.{◌≡◌, refl, sym, ap, ◌∙◌, ◌⊎◌, inl, inr, [], ◌++◌}
use geminon.Base.Bytes.{Bytes}
use geminon.Tls.{Tls, Failed, Stopped}

module _ (t : Tls) where
  open t use {Conn, sent}

  -- The first write fails.
  pub Stopped-first :
      (bs rest : Bytes) (c c' : Conn) → Failed t c bs c' → Stopped t (bs ++ rest) c c'
  Stopped-first bs rest c c' h = ([], bs, rest, c, refl, sym (append-nil (sent c)), h)

  -- A write fails behind others.
  pub Stopped-behind :
      (bs rest : Bytes) (c c₁ c' : Conn)
      → sent c₁ ≡ sent c ++ bs
      → Stopped t rest c₁ c'
      → Stopped t (bs ++ rest) c c'
  Stopped-behind bs rest c c₁ c' e (pre, ws, more, c₂, shape, all, h) = (
    bs ++ pre,
    ws,
    more,
    c₂,
    ap (λ z. bs ++ z) shape ∙ sym (append_assoc bs pre (ws ++ more)),
    all ∙ ap (λ z. z ++ pre) e ∙ append_assoc (sent c) bs pre,
    h,
  )

  -- More bytes would have followed.
  Stopped-before : (bs rest : Bytes) (c c' : Conn) → Stopped t bs c c' → Stopped t (bs ++ rest) c c'
  Stopped-before bs rest c c' (pre, ws, more, c₁, shape, all, h) = (
    pre,
    ws,
    more ++ rest,
    c₁,
    ap (λ z. z ++ rest) shape
        ∙ (append_assoc pre (ws ++ more) rest ∙ ap (λ z. pre ++ z) (append_assoc ws more rest)),
    all,
    h,
  )

  -- The bytes have been sent, or a first part of them, and the write of what follows has failed.
  abbrev pub Sends : Bytes → Conn → Conn → Type 0
  Sends bs c c' = (sent c' ≡ sent c ++ bs) ⊎ ((c₁ : Conn) × Stopped t bs c c₁)

  pub Sends-append :
      (bs ds : Bytes) (c c₁ c₂ : Conn) → Sends bs c c₁ → Sends ds c₁ c₂ → Sends (bs ++ ds) c c₂
  Sends-append bs ds c c₁ c₂ (inr (c', h)) k = inr (c', Stopped-before bs ds c c' h)
  Sends-append bs ds c c₁ c₂ (inl e) (inr (c', h)) = inr (c', Stopped-behind bs ds c c₁ c' e h)
  Sends-append bs ds c c₁ c₂ (inl e) (inl f) =
      inl (f ∙ ap (λ z. z ++ ds) e ∙ append_assoc (sent c) bs ds)

-- ===== src/Cli/Gurl/Options.antt =====
-- Which certificate and which key the client takes.
use geminon.Base.{
  ℕ, ◌<◌, ◌≡◌, refl, Bool, true, false, ◌⊎◌, inl, inr, zero, suc, sym, Option, none, some, List, [],
  ◌∷◌, ◌==◌, arith,
}
use geminon.Base.Bytes.{Bytes}
use geminon.Cli.Gurl.{
  Opt, certificate, key, other, Identity, set_option, option_loop, unpaired, identify, configure,
}
use geminon.Setup.{Contexts, client_tls}

-- the files of the options of a kind
abbrev pub certificates : List Opt → List Bytes
certificates [] = []
certificates (certificate file ∷ later) = file ∷ certificates later
certificates (key file ∷ later) = certificates later
certificates (other ∷ later) = certificates later

abbrev pub keys : List Opt → List Bytes
keys [] = []
keys (certificate file ∷ later) = keys later
keys (key file ∷ later) = file ∷ keys later
keys (other ∷ later) = keys later

-- the last one, or else a default
abbrev pub last_or : Option Bytes → List Bytes → Option Bytes
last_or d [] = d
last_or d (f ∷ fs) = last_or (some f) fs

option_loop-cert :
    (os : List Opt) (i : Identity) → (option_loop os i).cert ≡ last_or i.cert (certificates os)
unfolding option_loop set_option
option_loop-cert [] i = refl
option_loop-cert (certificate file ∷ later) i =
    option_loop-cert later (record i { cert = some file })
option_loop-cert (key file ∷ later) i = option_loop-cert later (record i { key = some file })
option_loop-cert (other ∷ later) i = option_loop-cert later i

option_loop-key : (os : List Opt) (i : Identity) → (option_loop os i).key ≡ last_or i.key (keys os)
unfolding option_loop set_option
option_loop-key [] i = refl
option_loop-key (certificate file ∷ later) i = option_loop-key later (record i { cert = some file })
option_loop-key (key file ∷ later) i = option_loop-key later (record i { key = some file })
option_loop-key (other ∷ later) i = option_loop-key later i

-- Both are given, or none.
abbrev pub Together : Option Bytes → Option Bytes → Type 0
Together none none = Unit
Together (some c) (some k) = Unit
Together none (some k) = ⊥
Together (some c) none = ⊥

module _ (x : Contexts) where
  -- The client has the context that `gemini_client_tls` makes of the certificate and the key; or these
  -- do not come together, or the call fails.
  abbrev pub Configured : (c k : Option Bytes) → x.State → Bool × Option x.Ctx × x.State → Type 0
  Configured c k s (true, ssl, s') = Together c k × (client_tls x c k s ≡ ((0, ssl), s'))
  Configured c k s (false, ssl, s') = (¬ Together c k) ⊎ (0 < (client_tls x c k s).0.0)

  called :
      (c k : Option Bytes) (s : x.State)
      → Together c k
      → (y : (ℕ × Option x.Ctx) × x.State) → client_tls x c k s ≡ y
      → Configured c k s (y.0.0 == 0, y.0.1, y.1)
  called c k s h ((zero, ssl), s') e = (h, e)
  called c k s h ((suc n, ssl), s') e =
      let failed : (suc n == 0) ≡ false = ground arith in rw failed (inr (rw e (ground arith)))

  identify-Configured :
      (c k : Option Bytes) (s : x.State)
      → Configured c k s (identify x (record { cert = c; key = k }) s)
  unfolding identify unpaired
  identify-Configured none none s = called none none s tt (client_tls x none none s) refl
  identify-Configured none (some k) s = inl (λ h. h)
  identify-Configured (some c) none s = inl (λ h. h)
  identify-Configured (some c) (some k) s =
      called (some c) (some k) s tt (client_tls x (some c) (some k) s) refl

  -- `configure` takes the last certificate and the last key of the options, or else those of the
  -- environment. It returns 0 if both are given or none is and `gemini_client_tls` returns 0 for them,
  -- with the context of that call; else they do not come together, or the call has failed.
  pub configure-Configured :
      (own_cert own_key : Option Bytes) (options : List Opt) (s : x.State)
      → Configured
          (last_or own_cert (certificates options))
          (last_or own_key (keys options))
          s
          (configure x own_cert own_key options s)
  unfolding configure
  configure-Configured own_cert own_key options s =
      let i : Identity = record { cert = own_cert; key = own_key } in
      rw (sym (option_loop-cert options i), sym (option_loop-key options i))
        (identify-Configured (option_loop options i).cert (option_loop options i).key s)

-- ===== src/Server/Shutdown.antt =====
-- `gemini_server_close`: what it frees, in its order.
use mathlib.Core.List.{map, append_assoc}
use geminon.Base.{
  ℕ, zero, suc, ◌+◌, ◌<◌, ◌≡◌, refl, ap, subst, ◌∙◌, Option, none, some, List, [], ◌∷◌, ◌++◌,
  length, length-append, All, arith,
}
use geminon.Base.Bytes.{Bytes}
use geminon.Base.Run.{Run, ok, fault, no_fuel, ◌>>=◌}
use geminon.Request.Close.{Req, Here}
use geminon.Server.Dispatch.{
  Fn, UserData, Item, files, authn, vhosts, own, root, store, hosts, nothing, cell_at,
}
use geminon.Server.Dispatch.Route.{cell_at-append}
use geminon.Server.Fifo.{IsFifo, prior, end, empty, full, length-IsFifo}
use geminon.Server.Handlers.{Memory, Verifier, Reply}
use geminon.Server.{Cell, Server}
use geminon.System.{System}
use geminon.Tls.{Tls}
use geminon.Url.{Url}

module _ (t : Tls) (sys : System) (x : Verifier) (mem : Memory) where
  -- a call of `free`, of `SSL_CTX_free` or of `X509_STORE_free`
  pub data Freed : Type 0 where
    context url_array vhosts_struct : Freed
    url : Url → Freed
    x509_store : x.Store → Freed
    user : UserData t sys x mem → Freed
    prefix : Option Bytes → Freed
    handler : (address : ℕ) → Freed

  -- `s_vhosts_free`
  unfoldable pub vhosts_free : List Url → List Freed
  vhosts_free [] = url_array ∷ vhosts_struct ∷ []
  vhosts_free (u ∷ us) = url u ∷ vhosts_free us

  -- the data of a handler
  unfoldable pub release : Fn t sys x mem → UserData t sys x mem → Run (List Freed)
  release vhosts (hosts us) = ok (vhosts_free us)
  release vhosts _ = fault
  release authn (store s) = ok (x509_store s ∷ [])
  release authn _ = fault
  release files d = ok (user d ∷ [])
  release (own f) d = ok (user d ∷ [])

  -- the body of the loop, for the handler at an address
  unfoldable pub freed : ℕ → Item t sys x mem → Run (List Freed) → Run (List Freed)
  freed p h rest = do
    es ← release h.handler h.user_data
    more ← rest
    ok (es ++ prefix h.prefix ∷ handler p ∷ more)

  unfoldable pub close_loop : ℕ → List (Cell (Item t sys x mem)) → Option ℕ → Run (List Freed)
  close_loop zero heap p = no_fuel
  close_loop (suc k) heap none = ok []
  close_loop (suc k) heap (some p) = elim (cell_at heap p) [
    | none ↦ fault
    | some c ↦ freed p c.item (close_loop k heap c.next)
  ]

  -- `gemini_server_close`
  unfoldable pub server_close : Server (Item t sys x mem) → Run (List Freed)
  server_close s = close_loop (length s.heap + 1) s.heap s.first >>= λ es. ok (context ∷ es)

  -- The data of a handler fit its function: URLs for `s_handler_vhosts`, a store for
  -- `s_handler_authn`, and any for the others.
  abbrev pub IsData : Fn t sys x mem → UserData t sys x mem → Type 0
  IsData vhosts (hosts us) = Unit
  IsData vhosts _ = ⊥
  IsData authn (store s) = Unit
  IsData authn _ = ⊥
  IsData files d = Unit
  IsData (own f) d = Unit

  abbrev pub Fits : Item t sys x mem → Type 0
  Fits h = IsData h.handler h.user_data

  -- What a handler owns, each thing once: `s_handler_vhosts` its URLs, their array and the structure
  -- that has it, `s_handler_authn` its store, and any other function its data.
  pub data Owns : Fn t sys x mem → UserData t sys x mem → List Freed → Type 0 where
    owns_urls :
        {us : List Url} → Owns vhosts (hosts us) (map url us ++ url_array ∷ vhosts_struct ∷ [])
    owns_store : {s : x.Store} → Owns authn (store s) (x509_store s ∷ [])
    owns_path : {d : UserData t sys x mem} → Owns files d (user d ∷ [])
    owns_data :
        {f : Bytes
          → Req t sys x.Cert
          → UserData t sys x mem
          → Here t sys x.Cert
          → Run (Reply t sys x mem)}
        {d : UserData t sys x mem}
        → Owns (own f) d (user d ∷ [])

  -- The calls for handlers at addresses from `i` on, in order: for each of them those for what it owns,
  -- and then one for its prefix and one for itself.
  pub data Frees : ℕ → List (Item t sys x mem) → List Freed → Type 0 where
    no_more : {i : ℕ} → Frees i [] []
    one_more :
        {i : ℕ} {h : Item t sys x mem} {hs : List (Item t sys x mem)} {es more : List Freed}
        → Owns h.handler h.user_data es
        → Frees (suc i) hs more
        → Frees i (h ∷ hs) (es ++ prefix h.prefix ∷ handler i ∷ more)

  vhosts_free_lem : (us : List Url) → vhosts_free us ≡ map url us ++ url_array ∷ vhosts_struct ∷ []
  unfolding vhosts_free
  vhosts_free_lem [] = refl
  vhosts_free_lem (u ∷ us) = ap (λ z. url u ∷ z) (vhosts_free_lem us)

  -- the data of a handler are freed just as it owns them
  abbrev Releases : Fn t sys x mem → UserData t sys x mem → Type 0
  Releases f d = (es : List Freed) × (release f d ≡ ok es) × Owns f d es

  release-Owns : (f : Fn t sys x mem) (d : UserData t sys x mem) → IsData f d → Releases f d
  unfolding release
  release-Owns vhosts (hosts us) fits = (_, ap ok (vhosts_free_lem us), owns_urls)
  release-Owns vhosts (root r) fits = absurd fits
  release-Owns vhosts (store s) fits = absurd fits
  release-Owns vhosts nothing fits = absurd fits
  release-Owns authn (store s) fits = (_, refl, owns_store)
  release-Owns authn (root r) fits = absurd fits
  release-Owns authn (hosts us) fits = absurd fits
  release-Owns authn nothing fits = absurd fits
  release-Owns files d fits = (_, refl, owns_path)
  release-Owns (own f) d fits = (_, refl, owns_data)

  close_loop-cell :
      (k : ℕ) (heap : List (Cell (Item t sys x mem))) (p : ℕ) (c : Cell (Item t sys x mem))
      → cell_at heap p ≡ some c
      → close_loop (suc k) heap (some p) ≡ freed p c.item (close_loop k heap c.next)
  unfolding close_loop
  close_loop-cell k heap p c e = rw (e, close_loop) refl

  abbrev Closes : ℕ → List (Item t sys x mem) → Run (List Freed) → Type 0
  Closes i hs run = (es : List Freed) × (run ≡ ok es) × Frees i hs es

  freed-Closes :
      (i : ℕ) (h : Item t sys x mem) (hs : List (Item t sys x mem)) (rest : Run (List Freed))
      → Fits h
      → Closes (suc i) hs rest
      → Closes i (h ∷ hs) (freed i h rest)
  unfolding freed
  freed-Closes i h hs rest fits (more, f, frees) =
      let (es, e, owns) = release-Owns h.handler h.user_data fits in
      (es ++ prefix h.prefix ∷ handler i ∷ more, rw (e, f) refl, one_more owns frees)

  close_loop-prior :
      (k : ℕ) (front : List (Cell (Item t sys x mem))) (hs : List (Item t sys x mem))
      (h : Item t sys x mem)
      → length hs + 1 < k
      → All Fits (hs ++ h ∷ [])
      → Closes
          (length front)
          (hs ++ h ∷ [])
          (close_loop k (front ++ (prior (length front) hs ++ end h ∷ [])) (some (length front)))
  unfolding close_loop
  close_loop-prior zero front hs h lt fits = absurd (omega arith)
  close_loop-prior (suc zero) front hs h lt fits = absurd (omega arith)
  close_loop-prior (suc (suc k)) front [] h lt fits =
      let e =
        close_loop-cell (suc k) (front ++ end h ∷ []) (length front) (end h)
          (cell_at-append front (end h) []) in
      rw e (freed-Closes (length front) h [] (ok []) fits.0 ([], refl, no_more))
  close_loop-prior (suc (suc k)) front (g ∷ hs) h lt fits =
      let c : Cell (Item t sys x mem) = record { next = some (suc (length front)); item = g } in
      let rest = prior (suc (length front)) hs ++ end h ∷ [] in
      let size : length (front ++ c ∷ []) ≡ suc (length front) =
        omega (arith, length-append front (c ∷ [])) in
      let same : (front ++ c ∷ []) ++ (prior (length (front ++ c ∷ [])) hs ++ end h ∷ [])
          ≡ front ++ c ∷ rest =
        append_assoc front (c ∷ []) _ ∙ ap (λ n. front ++ c ∷ (prior n hs ++ end h ∷ [])) size in
      let e =
        close_loop-cell (suc k) (front ++ c ∷ rest) (length front) c
          (cell_at-append front c rest) in
      let n = length (front ++ c ∷ []) in
      let later = close_loop-prior (suc k) (front ++ c ∷ []) hs h (omega arith) fits.1 in
      rw e (
        freed-Closes (length front) g (hs ++ h ∷ []) (close_loop (suc k) (front ++ c ∷ rest) c.next)
          fits.0
          (subst (λ i. Closes i (hs ++ h ∷ []) (close_loop (suc k) (front ++ c ∷ rest) (some i)))
            size (subst (λ m. Closes n (hs ++ h ∷ []) (close_loop (suc k) m (some n))) same later)))

  -- For a server whose linked list holds `hs`, with data that fit their functions, `gemini_server_close`
  -- ends, and frees the context, and then, in order, for each handler all that it owns, each thing once,
  -- then its prefix and then itself.
  pub server_close-Frees :
      (s : Server (Item t sys x mem)) (hs : List (Item t sys x mem))
      → IsFifo s hs
      → All Fits hs
      → (es : List Freed) × (server_close s ≡ ok (context ∷ es)) × Frees 0 hs es
  unfolding server_close close_loop
  server_close-Frees _ _ empty fits = ([], refl, no_more)
  server_close-Frees s _ (full hs h) fits =
      let size = length-IsFifo s (hs ++ h ∷ []) (full hs h) in
      let (es, e, frees) =
        close_loop-prior (length s.heap + 1) [] hs h
          (omega (arith, size, length-append hs (h ∷ []))) fits in
      (es, rw e refl, frees)

-- ===== src/Server/Dispatch/Route.antt =====
-- The walk through the linked list, as a walk through the list of handlers that it holds.
use mathlib.Core.Path.{fun_ext}
use mathlib.Core.List.{append_assoc}
use geminon.Base.{
  ℕ, zero, suc, ◌+◌, ◌<◌, ◌≡◌, refl, sym, ap, ap₂, ◌∙◌, false, some, List, [], ◌∷◌, ◌++◌, length,
  length-append, arith,
}
use geminon.Base.Run.{Run, ok}
use geminon.Request.Close.{Req, Here}
use geminon.Server.Dispatch.{cell_at, Item, Handled, consider, walk}
use geminon.Server.Fifo.{IsFifo, empty, full, prior, end}
use geminon.Server.Handlers.{Memory, Verifier}
use geminon.Server.{Cell, Server}
use geminon.System.{System}
use geminon.Tls.{Tls}

pub cell_at-append {ℓ} :
    {A : Type ℓ} (xs : List A) (c : A) (r : List A) → cell_at (xs ++ c ∷ r) (length xs) ≡ some c
unfolding cell_at
cell_at-append [] c r = refl
cell_at-append (x ∷ xs) c r = cell_at-append xs c r

module _ (t : Tls) (sys : System) (x : Verifier) (mem : Memory) where
  -- The handlers are considered in turn, up to the first one that does not let the request pass.
  unfoldable pub route :
      List (Item t sys x mem) → Req t sys x.Cert → Here t sys x.Cert → Run (Handled t sys x mem)
  route [] req w = ok (false, req, w)
  route (h ∷ hs) req w = consider t sys x mem (route hs) h req w

  walk-cell :
      (k : ℕ) (heap : List (Cell (Item t sys x mem))) (p : ℕ) (c : Cell (Item t sys x mem))
      → (req : Req t sys x.Cert) (w : Here t sys x.Cert) → cell_at heap p ≡ some c
      → walk t sys x mem (suc k) heap (some p) req w
        ≡ consider t sys x mem (walk t sys x mem k heap c.next) c.item req w
  unfolding walk
  walk-cell k heap p c req w e = rw (e, walk) refl

  walk-prior :
      (k : ℕ) (front : List (Cell (Item t sys x mem))) (hs : List (Item t sys x mem))
      (h : Item t sys x mem)
      → (req : Req t sys x.Cert) (w : Here t sys x.Cert) → length hs + 1 < k
      → walk t sys x mem k
          (front ++ (prior (length front) hs ++ end h ∷ []))
          (some (length front))
          req
          w
        ≡ route (hs ++ h ∷ []) req w
  unfolding walk route
  walk-prior zero front hs h req w lt = absurd (omega arith)
  walk-prior (suc zero) front hs h req w lt = absurd (omega arith)
  walk-prior (suc (suc k)) front [] h req w lt =
      walk-cell (suc k) (front ++ end h ∷ []) (length front) (end h) req w
        (cell_at-append front (end h) [])
      ∙ ap (λ f. consider t sys x mem f h req w) (fun_ext (λ r. fun_ext (λ v. refl)))
  walk-prior (suc (suc k)) front (g ∷ hs) h req w lt =
      let c : Cell (Item t sys x mem) = record { next = some (suc (length front)); item = g } in
      let rest = prior (suc (length front)) hs ++ end h ∷ [] in
      let size : length (front ++ c ∷ []) ≡ suc (length front) =
        omega (arith, length-append front (c ∷ [])) in
      let same : (front ++ c ∷ []) ++ (prior (length (front ++ c ∷ [])) hs ++ end h ∷ [])
          ≡ front ++ c ∷ rest =
        append_assoc front (c ∷ []) _ ∙ ap (λ n. front ++ c ∷ (prior n hs ++ end h ∷ [])) size in
      walk-cell (suc k) (front ++ c ∷ rest) (length front) c req w (cell_at-append front c rest)
      ∙ ap (λ f. consider t sys x mem f g req w)
          (fun_ext (λ r. fun_ext (λ v.
            sym (ap₂ (λ m n. walk t sys x mem (suc k) m (some n) r v) same size)
            ∙ walk-prior (suc k) (front ++ c ∷ []) hs h r v (omega arith))))

  -- On a server whose linked list holds `hs`, the walk from the first handler on ends, and considers
  -- `hs` in order.
  pub walk-route :
      (s : Server (Item t sys x mem)) (hs : List (Item t sys x mem)) (k : ℕ)
      → (req : Req t sys x.Cert) (w : Here t sys x.Cert) → IsFifo s hs
      → length hs < k
      → walk t sys x mem k s.heap s.first req w ≡ route hs req w
  unfolding walk route
  walk-route _ _ zero req w empty lt = absurd (omega arith)
  walk-route _ _ (suc k) req w empty lt = refl
  walk-route _ _ k req w (full hs h) lt =
      walk-prior k [] hs h req w (omega (arith, length-append hs (h ∷ [])))

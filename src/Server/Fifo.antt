-- ===== src/Server/Fifo.antt =====
-- Handlers are kept in the order in which they are registered.
use mathlib.Core.List.{append_assoc}
use geminon.Base.{
  ℕ, suc, ◌+◌, ◌≡◌, refl, sym, ap, ap₂, ◌∙◌, true, Option, none, some, List, [], ◌∷◌, ◌++◌, length,
  length-append, arith,
}
use geminon.Base.Bytes.{Bytes}
use geminon.Base.Run.{ok}
use geminon.Server.{Handler, Cell, Server, set_next, link_last, handle, handle_fn}

module _ {H : Type 0} where
  -- The cells of handlers from the address `i` on that others follow.
  abbrev pub prior : ℕ → List H → List (Cell H)
  prior i [] = []
  prior i (h ∷ hs) = record { next = some (suc i); item = h } ∷ prior (suc i) hs

  abbrev pub end : H → Cell H
  end h = record { next = none; item = h }

  -- The server's list of handlers is `hs`: from `first` on, each links to the next one, the last one
  -- has no link, and `last` points at it.
  pub data IsFifo : Server H → List H → Type 0 where
    empty : IsFifo (record { heap = []; first = none; last = none }) []
    full :
        (hs : List H) (h : H)
        → IsFifo
            (record { heap = prior 0 hs ++ end h ∷ []; first = some 0; last = some (length hs) })
            (hs ++ h ∷ [])

  set_next-append :
      (xs : List (Cell H)) (c : Cell H) (r : List (Cell H)) (q : Option ℕ)
      → set_next (xs ++ c ∷ r) (length xs) q ≡ ok (xs ++ record c { next = q } ∷ r)
  unfolding set_next
  set_next-append [] c r q = refl
  set_next-append (x ∷ xs) c r q = rw (set_next-append xs c r q) refl

  length-prior : (i : ℕ) (hs : List H) → length (prior i hs) ≡ length hs
  length-prior i [] = refl
  length-prior i (h ∷ hs) = ap suc (length-prior (suc i) hs)

  prior-append :
      (i : ℕ) (hs : List H) (h : H)
      → prior i (hs ++ h ∷ [])
        ≡ prior i hs ++ record { next = some (suc (i + length hs)); item = h } ∷ []
  prior-append i [] h = ap (λ k. record { next = some (suc k); item = h } ∷ []) (omega arith)
  prior-append i (g ∷ hs) h =
      ap (λ z. record { next = some (suc i); item = g } ∷ z)
        (prior-append (suc i) hs h
          ∙ ap (λ k. prior (suc i) hs ++ record { next = some (suc k); item = h } ∷ [])
              (omega arith))

  -- The last cell of the list is linked to the new one.
  set_next-prior :
      (hs : List H) (h g : H)
      → set_next
          ((prior 0 hs ++ end h ∷ []) ++ end g ∷ [])
          (length hs)
          (some (length (prior 0 hs ++ end h ∷ [])))
        ≡ ok (prior 0 (hs ++ h ∷ []) ++ end g ∷ [])
  set_next-prior hs h g =
      let n = length (prior 0 hs ++ end h ∷ []) in
      let size : n ≡ suc (0 + length hs) =
        omega (arith, length-append (prior 0 hs) (end h ∷ []), length-prior 0 hs) in
      let shape : (prior 0 hs ++ end h ∷ []) ++ end g ∷ [] ≡ prior 0 hs ++ end h ∷ end g ∷ [] =
        append_assoc (prior 0 hs) (end h ∷ []) (end g ∷ []) in
      let linked : Cell H = record { next = some (suc (0 + length hs)); item = h } in
      ap₂ (λ m k. set_next m k (some n)) shape (sym (length-prior 0 hs))
      ∙ set_next-append (prior 0 hs) (end h) (end g ∷ []) (some n)
      ∙ ap (λ k. ok (prior 0 hs ++ record { next = some k; item = h } ∷ end g ∷ [])) size
      ∙ ap ok (sym (append_assoc (prior 0 hs) (linked ∷ []) (end g ∷ [])))
      ∙ ap (λ z. ok (z ++ end g ∷ [])) (sym (prior-append 0 hs h))

  handle-full :
      (hs : List H) (h g : H) (junk : Option ℕ)
      → let xs = prior 0 hs ++ end h ∷ [] in
        handle
          (record {
            heap = xs ++ record { next = junk; item = g } ∷ [];
            first = some 0;
            last = some (length hs);
          })
          (length xs)
        ≡ ok (record {
          heap = prior 0 (hs ++ h ∷ []) ++ end g ∷ [];
          first = some 0;
          last = some (length (hs ++ h ∷ []));
        })
  unfolding handle link_last
  handle-full hs h g junk =
      let xs = prior 0 hs ++ end h ∷ [] in
      let last : length xs ≡ length (hs ++ h ∷ []) = omega (
        arith,
        length-append (prior 0 hs) (end h ∷ []),
        length-prior 0 hs,
        length-append hs (h ∷ []),
      ) in
      let m = prior 0 (hs ++ h ∷ []) ++ end g ∷ [] in
      rw (set_next-append xs (record { next = junk; item = g }) [] none, set_next-prior hs h g)
        (ap (λ k. ok (record { heap = m; first = some 0; last = some k })) last)

  handle-IsFifo :
      (s : Server H) (hs : List H) (g : H) (junk : Option ℕ)
      → IsFifo s hs
      → (s' : Server H) × (handle
            (record s { heap = s.heap ++ record { next = junk; item = g } ∷ [] })
            (length s.heap)
          ≡ ok s')
        × IsFifo s' (hs ++ g ∷ [])
  unfolding handle set_next link_last
  handle-IsFifo _ _ g junk empty = (_, refl, full [] g)
  handle-IsFifo _ _ g junk (full hs h) = (_, handle-full hs h g junk, full (hs ++ h ∷ []) g)

  pub length-IsFifo : (s : Server H) (hs : List H) → IsFifo s hs → length s.heap ≡ length hs
  length-IsFifo _ _ empty = refl
  length-IsFifo _ _ (full hs h) =
      omega (
        arith,
        length-append (prior 0 hs) (end h ∷ []),
        length-prior 0 hs,
        length-append hs (h ∷ []),
      )

module _ {Fn Data : Type 0} where
  -- Given memory, `gemini_handle_fn` on a server whose handlers are `hs` returns 0, and then the
  -- handlers are `hs` in the same order with the new one behind them.
  pub handle_fn-IsFifo :
      (s : Server (Handler Fn Data)) (hs : List (Handler Fn Data))
      → (junk : Option ℕ) (copy : Option Bytes) (fn : Fn) (user_data : Data) → IsFifo s hs
      → (s' : Server (Handler Fn Data)) × (handle_fn true junk copy fn user_data s ≡ ok (true, s'))
        × IsFifo s' (hs ++ record { prefix = copy; handler = fn; user_data = user_data } ∷ [])
  unfolding handle_fn
  handle_fn-IsFifo s hs junk copy fn user_data is =
      let g : Handler Fn Data = record { prefix = copy; handler = fn; user_data = user_data } in
      let (s', e, after) = handle-IsFifo s hs g junk is in (s', rw e refl, after)

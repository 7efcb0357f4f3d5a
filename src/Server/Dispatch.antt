-- ===== src/Server/Dispatch.antt =====
-- The walk of `gemini_serve` through the handlers of a server.
pub mod Guards
pub mod Route
pub mod Settled
use geminon.Base.{
  ℕ, zero, suc, Bool, true, false, Option, none, some, List, [], ◌∷◌, ltb, if◌then◌else◌, length,
}
use geminon.Base.Bytes.{Bytes, codes, starts_with}
use geminon.Base.Run.{Run, ok, fault, no_fuel, ◌>>=◌}
use geminon.Request.Close.{Req, Here, dismiss}
use geminon.Server.Handlers.{
  Verdict, continue, done, abort, other, Memory, path_of, Verifier, Reply, handler_fs,
  handler_authn, handler_vhosts,
}
use geminon.Server.{Handler, Cell, Server}
use geminon.System.{System}
use geminon.Tls.{Tls}
use geminon.Url.{Url}

-- the two tests on the prefix
unfoldable pub applies : (path prefix : Bytes) → Bool
applies path prefix = if ltb (length path) (length prefix) then false else starts_with path prefix

-- a read of a cell
unfoldable pub cell_at {ℓ} : {A : Type ℓ} → List A → ℕ → Option A
cell_at [] p = none
cell_at (c ∷ m) zero = some c
cell_at (c ∷ m) (suc p) = cell_at m p

module _ (t : Tls) (sys : System) (x : Verifier) (mem : Memory) where
  -- The data of a handler: a root, a store, URLs, or NULL.
  pub data UserData : Type 0 where
    root : Bytes → UserData
    store : x.Store → UserData
    hosts : List Url → UserData
    nothing : UserData

  -- The handler functions: those of server.c, and the caller's own, which take the data of their handler.
  pub data Fn : Type 0 where
    files authn vhosts : Fn
    own : (Bytes → Req t sys x.Cert → UserData → Here t sys x.Cert → Run (Reply t sys x mem)) → Fn

  abbrev pub Item : Type 0
  Item = Handler Fn UserData

  -- `handler->handler (handler->prefix, &req, handler->data)`
  unfoldable pub call :
      Fn → UserData → Bytes → Req t sys x.Cert → Here t sys x.Cert → Run (Reply t sys x mem)
  call files (root r) prefix req w = handler_fs t sys x mem prefix req r w
  call files _ prefix req w = fault
  call authn (store s) prefix req w = handler_authn t sys x mem req s w
  call authn _ prefix req w = fault
  call vhosts (hosts us) prefix req w = handler_vhosts t sys x mem req us w
  call vhosts _ prefix req w = fault
  call (own f) d prefix req w = f prefix req d w

  -- whether the request has been handled
  abbrev pub Handled : Type 0
  Handled = Bool × Req t sys x.Cert × Here t sys x.Cert

  -- what the loop does with a handler's result; `again` is its next round
  unfoldable pub conclude :
      (Req t sys x.Cert → Here t sys x.Cert → Run Handled) → Reply t sys x mem → Run Handled
  conclude again (continue, req, w) = again req w
  conclude again (done, req, w) = ok (true, req, w)
  conclude again (abort, req, w) =
      dismiss t sys x.Cert 59 (codes "Internal Error") req w >>= λ y. ok (true, y.0, y.1)
  conclude again (other, req, w) = again req w

  -- the body of the loop, for a path and the prefix of the handler
  unfoldable pub tried :
      (Req t sys x.Cert → Here t sys x.Cert → Run Handled)
      → Item
      → (path : Bytes) → Option Bytes
      → Req t sys x.Cert
      → Here t sys x.Cert
      → Run Handled
  tried again h path none req w = fault
  tried again h path (some prefix) req w = elim (applies path prefix) [
    | false ↦ again req w
    | true ↦ call h.handler h.user_data prefix req w >>= conclude again
  ]

  -- the body of the loop
  unfoldable pub consider :
      (Req t sys x.Cert → Here t sys x.Cert → Run Handled)
      → Item
      → Req t sys x.Cert
      → Here t sys x.Cert
      → Run Handled
  consider again h req w = path_of req.url >>= λ path. tried again h path h.prefix req w

  -- the loop, from the handler at an address on
  unfoldable pub walk :
      ℕ → List (Cell Item) → Option ℕ → Req t sys x.Cert → Here t sys x.Cert → Run Handled
  walk zero heap p req w = no_fuel
  walk (suc k) heap none req w = ok (false, req, w)
  walk (suc k) heap (some p) req w = elim (cell_at heap p) [
    | none ↦ fault
    | some c ↦ consider (walk k heap c.next) c.item req w
  ]

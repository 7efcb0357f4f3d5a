-- ===== src/Server/Register.antt =====
-- The registration of the handlers that server.c has.
use geminon.Base.{ℕ, ◌≡◌, refl, Bool, true, false, ◌&&◌, Option, none, some, List, [], ◌∷◌, ◌++◌}
use geminon.Base.Bytes.{Bytes}
use geminon.Base.Run.{Run, ok, fault, no_fuel}
use geminon.Server.Dispatch.{Item, UserData, files, authn, vhosts, root, store, hosts, nothing}
use geminon.Server.Fifo.{IsFifo, handle_fn-IsFifo}
use geminon.Server.Handlers.{Memory, Verifier}
use geminon.Server.{Server, handle_fn}
use geminon.System.{System}
use geminon.Tls.{Tls}
use geminon.Url.{Url}

module _ (t : Tls) (sys : System) (x : Verifier) (mem : Memory) where
  -- what `strdup (root)` returns, as the data of a handler
  abbrev pub root_data : Option Bytes → UserData t sys x mem
  root_data none = nothing
  root_data (some r) = root r

  -- Each takes what `handle_fn` does, with the copy of the prefix. `gemini_handle_fs` takes the copy of
  -- the root too.
  unfoldable pub handle_fs :
      Bool
      → (junk : Option ℕ) (prefix path : Option Bytes) → Server (Item t sys x mem)
      → Run (Bool × Server (Item t sys x mem))
  handle_fs memory junk prefix path s = handle_fn memory junk prefix files (root_data path) s

  -- `gemini_handle_authn`
  unfoldable pub handle_authn :
      Bool
      → (junk : Option ℕ) (prefix : Option Bytes) → x.Store
      → Server (Item t sys x mem)
      → Run (Bool × Server (Item t sys x mem))
  handle_authn memory junk prefix st s = handle_fn memory junk prefix authn (store st) s

  -- `gemini_handle_vhosts`, whose prefix is a copy of "/"; the first flag says whether there is memory
  -- for the structure
  unfoldable pub handle_vhosts :
      Bool
      → Bool
      → (junk : Option ℕ) (slash : Option Bytes) → List Url
      → Server (Item t sys x mem)
      → Run (Bool × Server (Item t sys x mem))
  handle_vhosts false memory junk slash urls s = ok (false, s)
  handle_vhosts true memory junk slash urls s = handle_fn memory junk slash vhosts (hosts urls) s

  -- With memory, a call returns 0 and has put a handler behind the others; without, it returns -1 and
  -- has left the server as it was.
  abbrev pub Registered :
      (memory : Bool)
      → Server (Item t sys x mem)
      → List (Item t sys x mem)
      → Item t sys x mem
      → Run (Bool × Server (Item t sys x mem))
      → Type 0
  Registered true s hs h (ok (true, s')) = IsFifo s' (hs ++ h ∷ [])
  Registered true s hs h (ok (false, s')) = ⊥
  Registered false s hs h (ok (true, s')) = ⊥
  Registered false s hs h (ok (false, s')) = s' ≡ s
  Registered memory s hs h fault = ⊥
  Registered memory s hs h no_fuel = ⊥

  handle_fn-Registered :
      (memory : Bool) (s : Server (Item t sys x mem)) (hs : List (Item t sys x mem))
      (h : Item t sys x mem) (junk : Option ℕ)
      → IsFifo s hs
      → Registered memory s hs h (handle_fn memory junk h.prefix h.handler h.user_data s)
  unfolding handle_fn
  handle_fn-Registered false s hs h junk is = refl
  handle_fn-Registered true s hs h junk is =
      let (s', e, after) = handle_fn-IsFifo s hs junk h.prefix h.handler h.user_data is in
      rw e after

  -- `gemini_handle_vhosts` returns 0 just if there is memory both for its structure and for the handler,
  -- and then it has put one handler for the URLs behind the others. Otherwise it returns -1 and has left
  -- the server as it was.
  pub handle_vhosts-Registered :
      (block memory : Bool) (s : Server (Item t sys x mem)) (hs : List (Item t sys x mem))
      (junk : Option ℕ)
      → (slash : Option Bytes) (urls : List Url) → IsFifo s hs
      → Registered
          (block && memory)
          s
          hs
          (record { prefix = slash; handler = vhosts; user_data = hosts urls })
          (handle_vhosts block memory junk slash urls s)
  unfolding handle_vhosts
  handle_vhosts-Registered false memory s hs junk slash urls is = refl
  handle_vhosts-Registered true memory s hs junk slash urls is =
      handle_fn-Registered memory s hs
        (record { prefix = slash; handler = vhosts; user_data = hosts urls }) junk is

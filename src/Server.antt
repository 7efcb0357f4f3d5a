-- ===== src/Server.antt =====
-- server.c: the handlers of a server, which are cells of a linked list.
pub mod Dispatch
pub mod Fifo
pub mod Handlers
pub mod Register
pub mod Serve
pub mod Shutdown
use geminon.Base.{ℕ, zero, suc, Bool, true, false, Option, none, some, List, [], ◌∷◌, ◌++◌, length}
use geminon.Base.Bytes.{Bytes}
use geminon.Base.Run.{Run, ok, fault, ◌>>=◌}

-- The fields of a `struct gemini_handler` but the link. `Fn` is the type of the handler functions,
-- `Data` of what the caller gives them; a prefix is `none` for NULL.
pub record Handler (Fn Data : Type 0) : Type 0 where
  pub prefix : Option Bytes
  pub handler : Fn
  pub user_data : Data

pub record Cell (H : Type 0) : Type 0 where
  pub next : Option ℕ
  pub item : H

-- The handlers that have been allocated, by address, and the links of a `struct gemini_server`.
pub record Server (H : Type 0) : Type 0 where
  pub heap : List (Cell H)
  pub first : Option ℕ
  pub last : Option ℕ

-- `if (!server->first) server->first = handler`
abbrev pub or_else : Option ℕ → ℕ → ℕ
or_else none p = p
or_else (some q) p = q

module _ {H : Type 0} where
  -- `p->next = q`
  unfoldable pub set_next : List (Cell H) → ℕ → Option ℕ → Run (List (Cell H))
  set_next [] p q = fault
  set_next (c ∷ m) zero q = ok (record c { next = q } ∷ m)
  set_next (c ∷ m) (suc p) q = set_next m p q >>= λ m'. ok (c ∷ m')

  -- `if (server->last) server->last->next = handler`
  unfoldable pub link_last : List (Cell H) → Option ℕ → ℕ → Run (List (Cell H))
  link_last m none p = ok m
  link_last m (some q) p = set_next m q (some p)

  -- `gemini_handle (server, p)`, which returns 0
  unfoldable pub handle : Server H → ℕ → Run (Server H)
  handle s p = do
    m ← set_next s.heap p none
    m ← link_last m s.last p
    ok (record { heap = m; first = some (or_else s.first p); last = some p })

module _ {Fn Data : Type 0} where
  -- `gemini_handle_fn`: true for 0, false for -1. The flag says whether `malloc` gives a block, whose
  -- link is `junk` then, and `copy` is what `strdup` returns, which the code does not look at.
  unfoldable pub handle_fn :
      Bool
      → (junk : Option ℕ) (copy : Option Bytes) → Fn
      → Data
      → Server (Handler Fn Data)
      → Run (Bool × Server (Handler Fn Data))
  handle_fn false junk copy fn user_data s = ok (false, s)
  handle_fn true junk copy fn user_data s =
      let new : Cell (Handler Fn Data) = record {
        next = junk;
        item = record { prefix = copy; handler = fn; user_data = user_data };
      } in
      handle (record s { heap = s.heap ++ new ∷ [] }) (length s.heap) >>= λ s'. ok (true, s')

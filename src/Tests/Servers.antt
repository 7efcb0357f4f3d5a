-- ===== src/Tests/Servers.antt =====
-- Runs of server.c, and its theorems at servers.
use geminon.Base.{
  ℕ, ◌≡◌, ◌⊎◌, ◌++◌, refl, Bool, true, false, Option, some, none, List, [], ◌∷◌, All, replicate,
  length-replicate, arith,
}
use geminon.Base.Bytes.{Bytes, codes}
use geminon.Base.Run.{ok, ◌>>=◌}
use geminon.Request.Close.{World}
use geminon.Server.Dispatch.Guards.{
  authn_item, vhosts_item, Gated, Verified, authn-Behaves, vhosts-Behaves, route-Gated,
}
use geminon.Server.Dispatch.Route.{route, walk-route}
use geminon.Server.Dispatch.Settled.{Behaves, Settled, route-Settles}
use geminon.Server.Dispatch.{vhosts as vhosts_fn, hosts, Item, Handled, applies, walk}
use geminon.Server.Fifo.{IsFifo, prior, end, full, handle_fn-IsFifo}
use geminon.Server.Handlers.Gates.{
  Guarded, Hosted, Refused, handler_authn-Guarded, handler_vhosts-Hosted,
}
use geminon.Server.Handlers.{handler_authn, handler_vhosts}
use geminon.Server.Register.{Registered, handle_vhosts, handle_vhosts-Registered}
use geminon.Server.Serve.Closes.{closed_fds, Stops, serve-Closes}
use geminon.Server.Serve.Line.{HasLine, readto-HasLine}
use geminon.Server.Serve.{Arrival, max_request, readto, serve}
use geminon.Server.Shutdown.{Freed, Frees, Fits, context, server_close, server_close-Frees}
use geminon.Setup.{Bound, bind_server, bind_server-Bound}
use geminon.Tests.Scenes.{checker, mem, place, req, here, req-IsOpen, sockets}
use geminon.Tests.Peers.{
  talker, peer, talker-IsLawful, talker-WritesWhole, talker-ReadsLawful, disk,
}
use geminon.Url.{Url}
use geminon.Server.{Handler, Server, set_next, link_last, handle, handle_fn}

abbrev authn : Handler ℕ ℕ
authn = record { prefix = some (codes "/"); handler = 1; user_data = 10 }

abbrev files : Handler ℕ ℕ
files = record { prefix = some (codes "/pub"); handler = 2; user_data = 20 }

abbrev vhosts : Handler ℕ ℕ
vhosts = record { prefix = some (codes "/"); handler = 3; user_data = 30 }

abbrev two : Server (Handler ℕ ℕ)
two = record { heap = prior 0 (authn ∷ []) ++ end files ∷ []; first = some 0; last = some 1 }

handle_fn-IsFifo_example :
    (s : Server (Handler ℕ ℕ)) × (handle_fn true (some 77) (some (codes "/")) 3 30 two
      ≡ ok (true, s))
    × IsFifo s (authn ∷ files ∷ vhosts ∷ [])
handle_fn-IsFifo_example =
    handle_fn-IsFifo two (authn ∷ files ∷ []) (some 77) (some (codes "/")) 3 30
      (full (authn ∷ []) files)

registered :
    (handle_fn true none (some (codes "/")) 1 10 (record { heap = []; first = none; last = none })
      >>= λ r. handle_fn true none (some (codes "/pub")) 2 20 r.1)
    ≡ ok (true, two)
unfolding handle_fn handle set_next link_last
registered = refl

handler_authn-Guarded_example :
    Guarded talker disk checker mem 7 5
      (peer [])
      req
      here
      (handler_authn talker disk checker mem req 7 here)
handler_authn-Guarded_example =
    handler_authn-Guarded talker disk checker mem talker-IsLawful talker-WritesWhole 7 5 (peer [])
      place req here req-IsOpen

handler_vhosts-Hosted_example :
    Hosted talker disk checker mem
      (place ∷ [])
      5
      (peer [])
      place
      req
      here
      (handler_vhosts talker disk checker mem req (place ∷ []) here)
handler_vhosts-Hosted_example =
    handler_vhosts-Hosted talker disk checker mem talker-IsLawful talker-WritesWhole (place ∷ []) 5
      (peer []) place req here req-IsOpen

abbrev guard : Item talker disk checker mem
guard = authn_item talker disk checker mem (codes "/") 7

abbrev sites : Item talker disk checker mem
sites = vhosts_item talker disk checker mem (codes "/") (place ∷ [])

abbrev guarded : Server (Item talker disk checker mem)
guarded = record { heap = prior 0 (guard ∷ []) ++ end sites ∷ []; first = some 0; last = some 1 }

guarded-IsFifo : IsFifo guarded (guard ∷ sites ∷ [])
guarded-IsFifo = full (guard ∷ []) sites

walk-route_example :
    walk talker disk checker mem 4 guarded.heap guarded.first req here
    ≡ route talker disk checker mem (guard ∷ sites ∷ []) req here
walk-route_example =
    walk-route talker disk checker mem guarded (guard ∷ sites ∷ []) 4 req here guarded-IsFifo
      (ground arith)

guarded-Behaves : All (Behaves talker disk checker mem (λ (u : Url). Unit {0})) (guard ∷ sites ∷ [])
guarded-Behaves = (
  authn-Behaves talker disk checker mem talker-IsLawful talker-WritesWhole (λ (u : Url). Unit {0})
      (codes "/") 7,
  (
    vhosts-Behaves talker disk checker mem talker-IsLawful talker-WritesWhole
        (λ (u : Url). Unit {0}) (codes "/") (place ∷ []),
    tt,
  ),
)

route-Settles_example :
    (y : Handled talker disk checker mem) × (route talker disk checker mem
        (guard ∷ sites ∷ [])
        req
        here
      ≡ ok y)
    × Settled talker disk checker mem 5 place req here y
route-Settles_example =
    route-Settles talker disk checker mem (λ (u : Url). Unit {0}) talker-IsLawful talker-WritesWhole
      5 place tt (guard ∷ sites ∷ []) guarded-Behaves (peer []) req here req-IsOpen

route-Gated_example :
    Gated talker disk checker mem
      (Verified talker disk checker mem 7 req)
      (λ r v.
        Refused talker disk checker mem 60 (codes "Certificate Required") (peer []) 5 here r v
        ⊎ Refused talker disk checker mem 61 (codes "Unauthorized") (peer []) 5 here r v)
      (route talker disk checker mem (sites ∷ []) req here)
      (route talker disk checker mem (guard ∷ sites ∷ []) req here)
unfolding applies
route-Gated_example =
    route-Gated talker disk checker mem talker-IsLawful talker-WritesWhole (codes "/") 7
      (sites ∷ []) 5 (peer []) place req here req-IsOpen refl

abbrev incoming : Bytes
incoming = codes "gemini://a.b/c" ++ b'\r' ∷ b'\n' ∷ []

readto-HasLine_example :
    (y : Option ℕ × Bytes × (Bytes × Bytes)) × (readto talker
        (replicate 40 0)
        40
        (b'\r' ∷ b'\n' ∷ [])
        (peer incoming)
      ≡ ok y)
    × HasLine talker 40 (b'\r' ∷ b'\n' ∷ []) y
readto-HasLine_example =
    readto-HasLine talker talker-ReadsLawful b'\r' (b'\n' ∷ []) (replicate 40 0) 40 (peer incoming)
      refl (ground arith)

abbrev arrivals : List (Arrival (Bytes × Bytes) ℕ)
arrivals =
    record { fd = 5; session = some (peer incoming); cert = some 7 }
    ∷ record { fd = 6; session = none; cert = none }
    ∷ []

serve-Closes_example :
    (r : Bool) × (n : ℕ) × (w' : World (Bytes × Bytes) (Bytes × Bytes)) × (served left : List
      (Arrival (Bytes × Bytes) ℕ))
    × (serve talker disk checker mem guarded 0 100 arrivals (replicate max_request 0) here
        ≡ ok (r, n, w'))
    × (arrivals ≡ served ++ left)
    × (w'.hung_up ≡ closed_fds served [])
    × Stops r n 100 left
serve-Closes_example =
    serve-Closes talker disk checker mem talker-IsLawful talker-WritesWhole talker-ReadsLawful
      guarded (guard ∷ sites ∷ []) guarded-IsFifo guarded-Behaves 0 100 arrivals
      (replicate max_request 0) here (length-replicate {A = ℕ} max_request 0)

handle_vhosts-Registered_example :
    Registered talker disk checker mem true guarded
      (guard ∷ sites ∷ [])
      (record { prefix = some (codes "/"); handler = vhosts_fn; user_data = hosts (place ∷ []) })
      (handle_vhosts talker disk checker mem true true none (some (codes "/")) (place ∷ []) guarded)
handle_vhosts-Registered_example =
    handle_vhosts-Registered talker disk checker mem true true guarded (guard ∷ sites ∷ []) none
      (some (codes "/")) (place ∷ []) guarded-IsFifo

guarded-Fits : All (Fits talker disk checker mem) (guard ∷ sites ∷ [])
guarded-Fits = (tt, (tt, tt))

server_close-Frees_example :
    (es : List (Freed talker disk checker mem)) × (server_close talker disk checker mem guarded
      ≡ ok (context ∷ es))
    × Frees talker disk checker mem 0 (guard ∷ sites ∷ []) es
server_close-Frees_example =
    server_close-Frees talker disk checker mem guarded (guard ∷ sites ∷ []) guarded-IsFifo
      guarded-Fits

bind_server-Bound_example :
    Bound sockets 1965
      (record { state = false; opened = []; closed = []; sockfd = 0 })
      (bind_server sockets 1965 (record { state = false; opened = []; closed = []; sockfd = 0 }))
bind_server-Bound_example =
    bind_server-Bound sockets 1965 (record { state = false; opened = []; closed = []; sockfd = 0 })

-- ===== src/Srv/Listener/Examples.antt =====
-- Runs of the server's set-up and of its threads.
use arnovich_core.Base.{◌≡◌, refl, true, none, some, [], ◌∷◌, pos, negsuc, done}
use arnovich_core.Srv.Types.{unknown}
use arnovich_core.Srv.Client.{SocketType}
use arnovich_core.Srv.Listener.{Host, srv_run_server}
use arnovich_core.Srv.Listener.Threads.{
  Starting, here, accepts, reads, Occurs, to_serve, accepts-loses, InTurn-serves,
}

-- Connection 4 is accepted, and 5 before a thread has read `ns`: both threads serve 5.
abbrev first : Starting
first = record { ns = pos 4; waiting = 1; serving = [] }

abbrev both : Starting
both = record { ns = pos 5; waiting = 0; serving = pos 5 ∷ pos 5 ∷ [] }

accepts-loses_example : ¬ Occurs (pos 4) (pos 5 ∷ pos 5 ∷ [])
accepts-loses_example =
    accepts-loses first (pos 5) (λ i. i) (λ e. cc) [] both (reads 0 refl (reads 1 refl here))
      (λ i. i)

InTurn-serves_example : to_serve (pos 5) (pos 4 ∷ []) 1 ≡ pos 5 ∷ pos 4 ∷ []
InTurn-serves_example =
    InTurn-serves (record { ns = pos 5; waiting = 1; serving = pos 4 ∷ [] }) (pos 5 ∷ pos 4 ∷ [])
      (accepts (pos 5) refl (reads 0 refl (accepts (pos 4) refl here))) (refl, (refl, tt))

abbrev host : Host
host = record {
  tcp = none;
  localhost = none;
  socket = pos 3;
  bind = pos 0;
  listen = pos 0;
  accepts = pos 4 ∷ pos 5 ∷ negsuc 0 ∷ [];
}

run_host :
    srv_run_server SocketType.local_pipes host
    ≡ done (record { started = pos 4 ∷ pos 5 ∷ []; closed = true; code = some unknown })
unfolding srv_run_server
run_host = refl

-- ===== src/Tests/Serving.antt =====
-- The server with room for one connection.
use zc_splice_proxy.Base.{List, [], arith, inr, length, refl, some, suc, true, ◌++◌, ◌∷◌, ◌≡◌, ◌≤◌}
use zc_splice_proxy.Std.Net.{v4}
use zc_splice_proxy.Proxy.Config.{ServerConfig}
use zc_splice_proxy.Proxy.Server.Semaphore.{counter, counter-SemaphoreLaws}
use zc_splice_proxy.Proxy.Server.Listener.{
  relaying, draining, closed, acquiring, Event, permit_acquired, accepted, shutdown_received,
  phase_completed, phase_failed, connections_completed, Server, start, step, run,
}
use zc_splice_proxy.Proxy.Server.Permits.{Accepts, connections-limit, Accepts-again}
use zc_splice_proxy.Proxy.Server.Promise.{Kept, run-Kept}
use zc_splice_proxy.Proxy.Server.Draining.{Drains, last_events, graceful_end, drains}

abbrev config : ServerConfig
config = record {
  listen_address = v4 (record { ip = 0 ∷ 0 ∷ 0 ∷ 0 ∷ []; port = 1080 });
  shutdown_timeout = 60000;
  backlog_size = 1024;
  max_connections = 1;
}

-- A client is served and leaves, and the next one is relayed.
abbrev served : List Event
served =
    permit_acquired
    ∷ accepted
    ∷ phase_completed 0
    ∷ phase_failed 0
    ∷ permit_acquired
    ∷ accepted
    ∷ phase_completed 0
    ∷ phase_completed 0
    ∷ []

abbrev serving : Server counter
serving = record {
  limit_connections = some 0;
  stage = acquiring;
  connections = record { phase = relaying; permit = true } ∷ [];
  shutdown_complete = 2;
}

connections-limit_example : length serving.connections ≤ 1
connections-limit_example =
    connections-limit counter counter-SemaphoreLaws config served serving (omega arith)
      (unfold start step run in refl)

run-Kept_example : Kept counter counter-SemaphoreLaws 1 (start counter config) served serving
run-Kept_example =
    run-Kept counter counter-SemaphoreLaws config served serving (unfold start step run in refl)

-- Then that one fails.
abbrev idle : Server counter
idle = record {
  limit_connections = some 1;
  stage = acquiring;
  connections = [];
  shutdown_complete = 1;
}

Accepts-again_example : Accepts counter counter-SemaphoreLaws idle
Accepts-again_example =
    Accepts-again counter counter-SemaphoreLaws config (served ++ (phase_failed 0 ∷ [])) idle
      (unfold start step run in refl) refl (inr (omega arith))

-- Or the server shuts down first.
abbrev leaving : Server counter
leaving = record serving { stage = draining; shutdown_complete = 1 }

abbrev over : Server counter
over = record {
  limit_connections = some 1;
  stage = closed true;
  connections = [];
  shutdown_complete = 0;
}

graceful_end_example : over.connections ≡ []
graceful_end_example =
    graceful_end counter config
      (served ++ (shutdown_received ∷ phase_completed 0 ∷ connections_completed ∷ [])) over
      (unfold start step run in refl) refl

drains_example :
    Drains counter leaving
    × (length (last_events counter leaving.connections) ≡ suc (length leaving.connections))
drains_example =
    drains counter config (served ++ (shutdown_received ∷ [])) leaving
      (unfold start step run in refl) refl

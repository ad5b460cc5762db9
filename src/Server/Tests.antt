-- ===== src/Server/Tests.antt =====
-- Runs of the server and its thread from the constructor.
use rssani.Base.{◌≡◌, ◌⊎◌, refl, true, false, some, none}
use rssani.Server.{
  building, serving, finished, idle, joining, terminated, GrpcServer, grpc_server, start, stop,
  destroy, call, caller_step, thread_step, calls, caller_goes, thread_runs, Reach, here, then_,
}
use rssani.Server.Check.{IsEnding}
use rssani.Server.Ends.{settled, destroy-IsEnding, destroy-waits}
use rssani.Server.Once.{start_again}

-- The state behind `start`.
abbrev started : GrpcServer
started = record { running = true; server = none; thread = some building; caller = idle }

abbrev listening : GrpcServer
listening = record { running = true; server = some false; thread = some serving; caller = idle }

abbrev stopped : GrpcServer
stopped = record { running = false; server = some true; thread = some finished; caller = idle }

Reach-started : Reach grpc_server started
unfolding call caller_step
Reach-started = then_ (then_ here (calls start grpc_server refl)) (caller_goes refl)

Reach-listening : Reach grpc_server listening
unfolding thread_step
Reach-listening = then_ Reach-started (thread_runs true refl)

-- A stop that goes to its end.
Reach-stopped : Reach listening stopped
unfolding call caller_step thread_step
Reach-stopped =
    then_
      (then_ (then_ (then_ here (calls stop listening refl)) (caller_goes refl))
        (thread_runs true refl))
      (thread_runs true refl)

destroy-IsEnding_example : IsEnding 4 (call destroy listening)
unfolding settled
destroy-IsEnding_example = destroy-IsEnding listening Reach-listening refl refl

destroy-waits_example :
    (s' : GrpcServer) × Reach (call destroy started) s'
    × (s'.caller ≡ joining)
    × (s'.thread ≡ some serving)
    × ((s'' : GrpcServer) → Reach s' s'' → s'' ≡ s')
destroy-waits_example = destroy-waits started refl refl refl refl

start_again_example :
    (call start stopped ≡ stopped)
    ⊎ ((t : GrpcServer) × (caller_step (call start stopped) ≡ some t) × (t.caller ≡ terminated))
start_again_example = start_again listening stopped serving refl Reach-stopped refl

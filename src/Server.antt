-- ===== src/Server.antt =====
-- `GrpcServer` of grpc_server.cpp: the flag `running`, the server and its thread, as two programs that
-- take steps in turns: the caller of `start`, `stop` and the destructor, and the thread that `start`
-- makes. A step is one access to what they share. Traces are left out. `BuildAndStart` gives a server
-- or none, `Wait` returns behind `Shutdown`, and `join` behind the end of the thread; a thread that is
-- assigned while it can be joined ends the process.
pub mod Check
pub mod Ends
pub mod Once
mod Tests
use rssani.Base.{Bool, true, false, Option, none, some, ◌≡◌, if◌then◌else◌}

-- Where the thread is: at `BuildAndStart`, in `Wait`, at the last `running.store( false )`, at its end.
pub data Place : Type 0 where
  building serving clearing finished : Place

-- Where the caller is: outside, behind the exchange in `start`, behind that in `stop` (which the
-- destructor may have called), at the `join` of the destructor, behind it, or in `std::terminate`.
pub data Caller : Type 0 where
  idle starting : Caller
  stopping : Bool → Caller
  joining destroyed terminated : Caller

-- `server` says of a server whether it was shut down; `thread` is `none` where it cannot be joined.
pub record GrpcServer : Type 0 where
  pub running : Bool
  pub server : Option Bool
  pub thread : Option Place
  pub caller : Caller

-- The constructor.
abbrev pub grpc_server : GrpcServer
grpc_server = record { running = false; server = none; thread = none; caller = idle }

pub data Operation : Type 0 where
  start stop destroy : Operation

-- A call up to its exchange of `running`.
unfoldable pub call : Operation → GrpcServer → GrpcServer
call start s = if s.running then s else record s { running = true; caller = starting }
call stop s = if s.running then record s { running = false; caller = stopping false } else s
call destroy s =
    if s.running
    then record s { running = false; caller = stopping true }
    else record s { caller = joining }

-- `if ( server ) server->Shutdown();`.
abbrev pub shut_down : Option Bool → Option Bool
shut_down none = none
shut_down (some shut) = some true

-- The rest of a call, by steps; `none` where the caller waits or is done.
unfoldable pub caller_step : GrpcServer → Option GrpcServer
caller_step s = elim s.caller [
  | idle ↦ none
  | starting ↦ elim s.thread [
    | none ↦ some (record s { thread = some building; caller = idle })
    | some p ↦ some (record s { caller = terminated })
  ]
  | stopping destroying ↦
      some (record s { server = shut_down s.server; caller = if destroying then joining else idle })
  | joining ↦ elim s.thread [
    | none ↦ some (record s { caller = destroyed })
    | some building ↦ none
    | some serving ↦ none
    | some clearing ↦ none
    | some finished ↦ some (record s { thread = none; caller = destroyed })
  ]
  | destroyed ↦ none
  | terminated ↦ none
]

-- The lambda of `start`, by steps; the argument is whether the server could be built.
abbrev pub thread_goes : Bool → GrpcServer → Option GrpcServer
thread_goes built s = elim s.thread [
  | none ↦ none
  | some building ↦
      if built
      then some (record s { server = some false; thread = some serving })
      else some (record s { server = none; thread = some clearing })
  | some serving ↦ elim s.server [
    | none ↦ none
    | some shut ↦ if shut then some (record s { thread = some clearing }) else none
  ]
  | some clearing ↦ some (record s { running = false; thread = some finished })
  | some finished ↦ none
]

unfoldable pub thread_step : Bool → GrpcServer → Option GrpcServer
thread_step built s = elim s.caller [ terminated ↦ none | _ ↦ thread_goes built s ]

-- A step of either. A call is made by a caller outside.
pub data Step : GrpcServer → GrpcServer → Type 0 where
  calls : (o : Operation) (s : GrpcServer) → s.caller ≡ idle → Step s (call o s)
  caller_goes : {s s' : GrpcServer} → caller_step s ≡ some s' → Step s s'
  thread_runs : (built : Bool) {s s' : GrpcServer} → thread_step built s ≡ some s' → Step s s'

pub data Reach (s : GrpcServer) : GrpcServer → Type 0 where
  here : Reach s s
  then_ : {s' s'' : GrpcServer} → Reach s s' → Step s' s'' → Reach s s''

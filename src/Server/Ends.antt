-- ===== src/Server/Ends.antt =====
-- Proofs about grpc_server.cpp.
-- When the destructor returns.
use rssani.Base.{
  ◌≡◌, refl, sym, ap, ◌∙◌, Bool, true, false, not, ◌&&◌, ◌||◌, Option, none, some, arith,
}
use rssani.Server.{
  Place, building, serving, clearing, finished, idle, joining, GrpcServer, grpc_server, Operation,
  start, stop, destroy, call, caller_step, thread_step, Step, calls, caller_goes, thread_runs,
  Reach, here, then_,
}
use rssani.Server.Check.{is_none, is_destroyed, holds, holds-some, IsEnding, ends, ends-IsEnding}

-- What the states have in common: a thread that has not built its server leaves none, one that waits
-- has one, and behind the destructor there is no thread.
sound : GrpcServer → Bool
sound s = elim s.thread [
  | none ↦ is_none s.server || is_destroyed s.caller
  | some building ↦ is_none s.server && not (is_destroyed s.caller)
  | some serving ↦ not (is_none s.server) && not (is_destroyed s.caller)
  | some clearing ↦ not (is_destroyed s.caller)
  | some finished ↦ not (is_destroyed s.caller)
]

call-sound :
    (o : Operation) (s : GrpcServer) → s.caller ≡ idle → sound s ≡ true → sound (call o s) ≡ true
unfolding sound call
call-sound start s e h = ground (arith, e)
call-sound stop s e h = ground (arith, e)
call-sound destroy s e h = ground (arith, e)

caller_step-sound : (s : GrpcServer) → sound s ≡ true → holds sound (caller_step s) ≡ true
unfolding sound caller_step
caller_step-sound s h = ground arith

thread_step-sound :
    (built : Bool) (s : GrpcServer) → sound s ≡ true → holds sound (thread_step built s) ≡ true
unfolding sound thread_step
thread_step-sound built s h = ground arith

Reach-sound : {s s' : GrpcServer} → Reach s s' → sound s ≡ true → sound s' ≡ true
Reach-sound here h = h
Reach-sound (then_ r (calls o s e)) h = call-sound o s e (Reach-sound r h)
Reach-sound (then_ {s'} r (caller_goes e)) h =
    holds-some sound (caller_step s') _ (caller_step-sound s' (Reach-sound r h)) e
Reach-sound (then_ {s'} r (thread_runs b e)) h =
    holds-some sound (thread_step b s') _ (thread_step-sound b s' (Reach-sound r h)) e

abbrev is_shut : Option Bool → Bool
is_shut none = false
is_shut (some shut) = shut

-- The server is not being built, and the server of a thread that waits is shut down, or no `stop` came
-- yet.
unfoldable pub settled : GrpcServer → Bool
settled s = elim s.thread [
  | some building ↦ false
  | some serving ↦ s.running || is_shut s.server
  | none ↦ true
  | some clearing ↦ true
  | some finished ↦ true
]

destroy-ends :
    (r : Bool) (server : Option Bool) (thread : Option Place)
    → let s : GrpcServer = record {
      running = r;
      server = server;
      thread = thread;
      caller = idle;
    } in
      sound s ≡ true → settled s ≡ true → ends 4 (call destroy s) ≡ true
unfolding sound settled ends call caller_step thread_step
destroy-ends r server thread h g = ground arith

-- The destructor, called in a state that the object can be in, from outside every call: unless the
-- thread is at `BuildAndStart`, or waits for a server that is not shut down though a `stop` has cleared
-- the flag, the thread ends, its
-- `join` returns, and so does the destructor, within four steps, in whatever turns the two take them.
pub destroy-IsEnding :
    (s : GrpcServer)
    → Reach grpc_server s
    → s.caller ≡ idle
    → settled s ≡ true
    → IsEnding 4 (call destroy s)
unfolding sound
destroy-IsEnding s r e h =
    let same : s ≡ record s { caller = idle } = ap (λ c. record s { caller = c }) e in
    ends-IsEnding 4 (call destroy s) (
      ap (λ x. ends 4 (call destroy x)) same
      ∙ destroy-ends s.running s.server s.thread (sym (ap sound same) ∙ Reach-sound r refl)
          (sym (ap settled same) ∙ h))

-- Nothing can follow a state in which the caller joins a thread that waits for its server.
stuck-Step :
    {s s' : GrpcServer}
    → s.caller ≡ joining
    → s.thread ≡ some serving
    → s.server ≡ some false
    → Step s s'
    → s' ≡ s
unfolding caller_step thread_step
stuck-Step c t v (calls o s e) = ground (arith, c, e)
stuck-Step c t v (caller_goes e) = ground (arith, c, t, e)
stuck-Step c t v (thread_runs built e) = ground (arith, c, t, v, e)

stuck :
    {s s' : GrpcServer}
    → s.caller ≡ joining
    → s.thread ≡ some serving
    → s.server ≡ some false
    → Reach s s'
    → s' ≡ s
stuck c t v here = refl
stuck c t v (then_ r st) =
    let e = stuck c t v r in
    stuck-Step (ap (λ (x : GrpcServer). x.caller) e ∙ c) (ap (λ (x : GrpcServer). x.thread) e ∙ t)
      (ap (λ (x : GrpcServer). x.server) e ∙ v) st
    ∙ e

-- A destructor that is called while the thread is still at `BuildAndStart` finds no server to shut
-- down. If the server is then built, a state follows that none leaves, in which the thread waits and
-- the destructor joins it.
pub destroy-waits :
    (s : GrpcServer)
    → s.caller ≡ idle
    → s.running ≡ true
    → s.thread ≡ some building
    → s.server ≡ none
    → (s' : GrpcServer) × Reach (call destroy s) s'
      × (s'.caller ≡ joining)
      × (s'.thread ≡ some serving)
      × ((s'' : GrpcServer) → Reach s' s'' → s'' ≡ s')
unfolding call caller_step thread_step
destroy-waits s e r t v =
    let s1 : GrpcServer = record {
      running = false;
      server = none;
      thread = some building;
      caller = joining;
    } in
    let s2 : GrpcServer = record {
      running = false;
      server = some false;
      thread = some serving;
      caller = joining;
    } in
    (
      s2,
      then_ (then_ {s' = call destroy s} here (caller_goes {s' = s1} (ground (arith, e, r, t, v))))
          (thread_runs true {s = s1} {s' = s2} refl),
      refl,
      refl,
      (λ s'' reach. stuck refl refl refl reach),
    )

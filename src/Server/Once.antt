-- ===== src/Server/Once.antt =====
-- Proofs about grpc_server.cpp.
-- A thread once started stays joinable until the destructor.
use rssani.Base.{
  ◌≡◌, ◌⊎◌, inl, inr, refl, Bool, true, not, ◌||◌, some, arith, Bool-cases, Option-cases,
}
use rssani.Server.{
  Place, idle, terminated, GrpcServer, Operation, start, stop, destroy, call, caller_step,
  thread_step, calls, caller_goes, thread_runs, Reach, here, then_,
}
use rssani.Server.Check.{is_none, is_destroyed, holds, holds-some}

joinable : GrpcServer → Bool
joinable s = not (is_none s.thread) || is_destroyed s.caller

call-joinable :
    (o : Operation) (s : GrpcServer)
    → s.caller ≡ idle
    → joinable s ≡ true
    → joinable (call o s) ≡ true
unfolding joinable call
call-joinable start s e h = ground (arith, e)
call-joinable stop s e h = ground (arith, e)
call-joinable destroy s e h = ground (arith, e)

caller_step-joinable : (s : GrpcServer) → joinable s ≡ true → holds joinable (caller_step s) ≡ true
unfolding joinable caller_step
caller_step-joinable s h = ground arith

thread_step-joinable :
    (built : Bool) (s : GrpcServer)
    → joinable s ≡ true
    → holds joinable (thread_step built s) ≡ true
unfolding joinable thread_step
thread_step-joinable built s h = ground arith

Reach-joinable : {s s' : GrpcServer} → Reach s s' → joinable s ≡ true → joinable s' ≡ true
Reach-joinable here h = h
Reach-joinable (then_ r (calls o s e)) h = call-joinable o s e (Reach-joinable r h)
Reach-joinable (then_ {s'} r (caller_goes e)) h =
    holds-some joinable (caller_step s') _ (caller_step-joinable s' (Reach-joinable r h)) e
Reach-joinable (then_ {s'} r (thread_runs b e)) h =
    holds-some joinable (thread_step b s') _ (thread_step-joinable b s' (Reach-joinable r h)) e

-- Once `start` has made its thread, whatever steps follow, a further `start` from outside every call
-- either does nothing, since the server is running, or ends the process at the assignment of the
-- thread, also where the server was stopped and its thread is at its end.
pub start_again :
    (s s' : GrpcServer) (p : Place)
    → s.thread ≡ some p
    → Reach s s'
    → s'.caller ≡ idle
    → (call start s' ≡ s')
      ⊎ ((t : GrpcServer) × (caller_step (call start s') ≡ some t) × (t.caller ≡ terminated))
unfolding joinable call caller_step
start_again s s' p h r e =
    let j = Reach-joinable r (ground (arith, h)) in
    elim (Option-cases s'.thread) [
      | inl n ↦ ground (arith, n, e, j)
      | inr (q, n) ↦ elim (Bool-cases s'.running) [
        | inl on ↦ inl (ground (arith, on))
        | inr off ↦
            inr (record s' { running = true; caller = terminated }, ground (arith, off, n), refl)
      ]
    ]

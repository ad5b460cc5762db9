-- ===== src/Server/Check.antt =====
-- Proofs about grpc_server.cpp.
-- The states are few: a check of all that follows a state decides whether the destructor returns.
use rssani.Base.{
  ℕ, zero, suc, ◌≡◌, ◌⊎◌, inl, inr, refl, Bool, true, false, not, ◌&&◌, ◌||◌, Option, none, some,
  arith, Bool-cases, Option-cases,
}
use rssani.Server.{
  Caller, idle, starting, stopping, joining, destroyed, terminated, GrpcServer, caller_step,
  thread_step, Step, calls, caller_goes, thread_runs,
}

abbrev pub is_none {ℓ} : {A : Type ℓ} → Option A → Bool
is_none none = true
is_none (some a) = false

abbrev pub is_destroyed : Caller → Bool
is_destroyed destroyed = true
is_destroyed _ = false

abbrev pub is_idle : Caller → Bool
is_idle idle = true
is_idle _ = false

abbrev pub holds : (GrpcServer → Bool) → Option GrpcServer → Bool
holds p none = true
holds p (some s) = p s

pub holds-some :
    (p : GrpcServer → Bool) (o : Option GrpcServer) (s : GrpcServer)
    → holds p o ≡ true
    → o ≡ some s
    → p s ≡ true
holds-some p none s h e = cc
holds-some p (some s') s h e = ground (arith, h, e)

-- Within that many steps, whoever takes them, the destructor returns: there is always a step until then.
abbrev pub IsEnding : ℕ → GrpcServer → Type 0
IsEnding zero s = s.caller ≡ destroyed
IsEnding (suc n) s =
    (s.caller ≡ destroyed)
    ⊎ (((s' : GrpcServer) × Step s s') × ((s' : GrpcServer) → Step s s' → IsEnding n s'))

abbrev pub moves : GrpcServer → Bool
moves s = not (is_none (caller_step s)) || not (is_none (thread_step true s))

unfoldable pub ends : ℕ → GrpcServer → Bool
ends zero s = is_destroyed s.caller
ends (suc n) s =
    let goes = holds (ends n) (caller_step s) in
    let built = holds (ends n) (thread_step true s) in
    let failed = holds (ends n) (thread_step false s) in
    is_destroyed s.caller || (not (is_idle s.caller) && (moves s && (goes && (built && failed))))

is_destroyed_lem : (c : Caller) → is_destroyed c ≡ true → c ≡ destroyed
is_destroyed_lem destroyed h = refl
is_destroyed_lem idle h = cc
is_destroyed_lem starting h = cc
is_destroyed_lem (stopping b) h = cc
is_destroyed_lem joining h = cc
is_destroyed_lem terminated h = cc

moves-Step : (s : GrpcServer) → moves s ≡ true → (s' : GrpcServer) × Step s s'
moves-Step s h = elim (Option-cases (caller_step s)) [
  | inr (s', e) ↦ (s', caller_goes e)
  | inl e ↦ elim (Option-cases (thread_step true s)) [
    | inr (s', e') ↦ (s', thread_runs true e')
    | inl e' ↦ ground (arith, e, e', h)
  ]
]

ends-Step :
    (p : GrpcServer → Bool) {s s' : GrpcServer}
    → is_idle s.caller ≡ false
    → holds p (caller_step s) ≡ true
    → holds p (thread_step true s) ≡ true
    → holds p (thread_step false s) ≡ true
    → Step s s'
    → p s' ≡ true
ends-Step p idle_ c t f (calls o s e) = ground (arith, idle_, e)
ends-Step p idle_ c t f (caller_goes e) = holds-some p _ _ c e
ends-Step p idle_ c t f (thread_runs true e) = holds-some p _ _ t e
ends-Step p idle_ c t f (thread_runs false e) = holds-some p _ _ f e

pub ends-IsEnding : (n : ℕ) (s : GrpcServer) → ends n s ≡ true → IsEnding n s
unfolding ends
ends-IsEnding zero s h = is_destroyed_lem s.caller h
ends-IsEnding (suc n) s h = elim (Bool-cases (is_destroyed s.caller)) [
  | inl e ↦ inl (is_destroyed_lem s.caller e)
  | inr e ↦ inr (
    moves-Step s (ground (arith, h, e)),
    (λ s' st. ends-IsEnding n s' (
        ends-Step (ends n) (ground (arith, h, e)) (ground (arith, h, e)) (ground (arith, h, e))
          (ground (arith, h, e)) st)),
  )
]

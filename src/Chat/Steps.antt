-- ===== src/Chat/Steps.antt =====
-- What a successful operation on the chat stores says of its parts.
use ai_agent_sandbox_bluepri.Base.{◌≡◌, refl, ◌⊎◌, inl, inr, true, arith, Bool-cases}
use ai_agent_sandbox_bluepri.Chat.{
  ChatState, StoreCall, Surroundings, Step, and_then, attempt, locks_init, opens_sessions,
  opens_runs, ensure_initialized, session_store, run_store,
}

module _ {J A : Type 0} where
  pub and_then-ok :
      {B : Type 0} (p : (StoreCall ⊎ A) × ChatState J) (next : A → Step J B) (b : B)
      → (and_then p next).0 ≡ inr b
      → (a : A) × (p.0 ≡ inr a) × (and_then p next ≡ next a p.1)
  and_then-ok (inl call, s) next b h = ground arith
  and_then-ok (inr a, s) next b h = (a, refl, refl)

  pub attempt-ok :
      (x : Surroundings) (call : StoreCall) (step : Step J A) (s : ChatState J) (a : A)
      → (attempt x call step s).0 ≡ inr a
      → attempt x call step s ≡ step s
  attempt-ok x call step s a h = elim (Bool-cases (x.fails call)) [
    | inl broken ↦ ground (arith, broken)
    | inr works ↦ rw works refl
  ]

-- After the start the stores only have to open.
module _ {J : Type 0} (x : Surroundings) where
  ensure_initialized-ready :
      (s : ChatState J) (u : Unit {0})
      → s.initialized ≡ true
      → (ensure_initialized x s).0 ≡ inr u
      → ensure_initialized x s ≡ (inr tt, s)
  unfolding ensure_initialized
  ensure_initialized-ready s u ready h = ground (arith, ready)

  -- With the start done, the store opens or not.
  pub session_store-cases :
      (s : ChatState J)
      → s.initialized ≡ true
      → ((c : StoreCall) × (session_store x s ≡ (inl c, s))) ⊎ (session_store x s ≡ (inr tt, s))
  unfolding session_store ensure_initialized
  session_store-cases s ready = elim (Bool-cases (x.fails locks_init)) [
    | inl locked ↦ inl (locks_init, rw locked refl)
    | inr free ↦ elim (Bool-cases (x.fails opens_sessions)) [
      | inl shut ↦ inl (opens_sessions, rw (free, ready, shut) refl)
      | inr opens ↦ inr (rw (free, ready, opens) refl)
    ]
  ]

  pub run_store-cases :
      (s : ChatState J)
      → s.initialized ≡ true
      → ((c : StoreCall) × (run_store x s ≡ (inl c, s))) ⊎ (run_store x s ≡ (inr tt, s))
  unfolding run_store ensure_initialized
  run_store-cases s ready = elim (Bool-cases (x.fails locks_init)) [
    | inl locked ↦ inl (locks_init, rw locked refl)
    | inr free ↦ elim (Bool-cases (x.fails opens_runs)) [
      | inl shut ↦ inl (opens_runs, rw (free, ready, shut) refl)
      | inr opens ↦ inr (rw (free, ready, opens) refl)
    ]
  ]

  pub session_store-ready :
      (s : ChatState J) (u : Unit {0})
      → s.initialized ≡ true
      → (session_store x s).0 ≡ inr u
      → session_store x s ≡ (inr tt, s)
  unfolding session_store
  session_store-ready s u ready h =
      let (v, first, next) = and_then-ok (ensure_initialized x s) _ u h in
      let same = ensure_initialized-ready s v ready first in ground (arith, same, rw (same) at h)

  pub run_store-ready :
      (s : ChatState J) (u : Unit {0})
      → s.initialized ≡ true
      → (run_store x s).0 ≡ inr u
      → run_store x s ≡ (inr tt, s)
  unfolding run_store
  run_store-ready s u ready h =
      let (v, first, next) = and_then-ok (ensure_initialized x s) _ u h in
      let same = ensure_initialized-ready s v ready first in ground (arith, same, rw (same) at h)

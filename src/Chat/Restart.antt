-- ===== src/Chat/Restart.antt =====
-- What the start of chat_state.rs does to the runs and the sessions that an earlier process left.
use text.Mathlib.TextEquality.{eq_iff}
use ai_agent_sandbox_bluepri.Base.{
  ℕ, ◌≡◌, refl, String, Bool, true, false, ◌&&◌, ◌||◌, Option, none, some, inl, inr, List, [], ◌∷◌,
  ◌++◌, if◌then◌else◌, ◌==◌, string_eq, arith, All, Bool-cases,
}
use ai_agent_sandbox_bluepri.Base.Map.{Map, IsMap, lookup, update, values, lookup-update}
use ai_agent_sandbox_bluepri.Chat.{
  ChatRunRecord, ChatState, writes_session, Surroundings, Step, is_active, interrupt, release,
  update_session, update_run_entry, interrupt_runs, release_sessions, ensure_initialized, and_then,
  ◌>>=◌,
}
use ai_agent_sandbox_bluepri.Chat.Steps.{and_then-ok}

-- Every run stands under its own id.
abbrev pub IsKeyed : Map String ChatRunRecord → Type 0
IsKeyed = All (λ (e : String × ChatRunRecord). e.0 ≡ e.1.id)

-- What the start makes of a run.
abbrev pub restarted : ℕ → ChatRunRecord → ChatRunRecord
restarted at r = if is_active r.status then interrupt at r else r

abbrev pub mapped {ℓ} : {A : Type ℓ} → (A → A) → Option A → Option A
mapped f none = none
mapped f (some a) = some (f a)

abbrev pub is_active_entry : Option ChatRunRecord → Bool
is_active_entry none = false
is_active_entry (some r) = is_active r.status

-- An active run of the session is among them.
abbrev pub has_active : String → List ChatRunRecord → Bool
has_active id [] = false
has_active id (r ∷ rs) = (is_active r.status && r.session_id == id) || has_active id rs

abbrev pub mem : String → List String → Bool
mem id [] = false
mem id (j ∷ js) = j == id || mem id js

mem-append : (id : String) (xs ys : List String) → mem id (xs ++ ys) ≡ (mem id xs || mem id ys)
mem-append id [] ys = refl
mem-append id (x ∷ xs) ys = ground (arith, mem-append id xs ys)

-- After the start: an active run is interrupted and another stays, the sessions of the active runs
-- have no active run and the others stay, and the start is done.
pub record IsRestarted {J : Type 0} (at : ℕ) (s t : ChatState J) : Type 0 where
  pub runs : (k : String) → lookup k t.runs ≡ mapped (restarted at) (lookup k s.runs)
  pub sessions :
      (k : String)
      → lookup k t.sessions ≡ (
          if has_active k (values s.runs)
          then mapped (release at) (lookup k s.sessions)
          else lookup k s.sessions)
  pub ready : t.initialized ≡ true

module _ {J : Type 0} (x : Surroundings) where
  interrupt_runs-runs :
      (m : Map String ChatRunRecord) (ids found : List String) (s : ChatState J) (k : String)
      → IsMap m
      → IsKeyed m
      → (interrupt_runs x (values m) ids s).0 ≡ inr found
      → lookup k (interrupt_runs x (values m) ids s).1.runs ≡ (
          if is_active_entry (lookup k m)
          then mapped (interrupt x.interrupted_at) (lookup k s.runs)
          else lookup k s.runs)
  unfolding interrupt_runs update_run_entry lookup
  interrupt_runs-runs [] ids found s k map keyed done = refl
  interrupt_runs-runs ((j, r) ∷ m) ids found s k map keyed done =
      let at = interrupt x.interrupted_at in
      let next = record s { runs = update r.id at s.runs } in
      ground (
        arith,
        keyed.0,
        map.0,
        eq_iff j k,
        eq_iff r.id k,
        lookup-update r.id k at s.runs,
        interrupt_runs-runs m (ids ++ (r.session_id ∷ [])) found next k map.1 keyed.1,
        interrupt_runs-runs m ids found s k map.1 keyed.1,
      )

  interrupt_runs-found :
      (rs : List ChatRunRecord) (ids found : List String) (s : ChatState J) (k : String)
      → (interrupt_runs x rs ids s).0 ≡ inr found
      → (mem k found ≡ (mem k ids || has_active k rs))
        × ((interrupt_runs x rs ids s).1.sessions ≡ s.sessions)
  unfolding interrupt_runs update_run_entry
  interrupt_runs-found [] ids found s k done = ground (arith, done)
  interrupt_runs-found (r ∷ rs) ids found s k done =
      let next = record s { runs = update r.id (interrupt x.interrupted_at) s.runs } in
      ground (
        arith,
        mem-append k ids (r.session_id ∷ []),
        interrupt_runs-found rs (ids ++ (r.session_id ∷ [])) found next k,
        interrupt_runs-found rs ids found s k,
      )

  release_sessions-cons :
      (id : String) (ids : List String) (s : ChatState J)
      → release_sessions x (id ∷ ids) s ≡ (
          if x.fails (writes_session id)
          then (inl (writes_session id), s)
          else release_sessions x ids
              (record s { sessions = update id (release x.interrupted_at) s.sessions }))
  unfolding release_sessions update_session
  release_sessions-cons id ids s = elim (Bool-cases (x.fails (writes_session id))) [
    | inl broken ↦ rw (broken) refl
    | inr works ↦ rw (works) refl
  ]

  release_sessions-sessions :
      (ids : List String) (s : ChatState J) (k : String)
      → (release_sessions x ids s).0 ≡ inr tt
      → (lookup k (release_sessions x ids s).1.sessions ≡ (
          if mem k ids
          then mapped (release x.interrupted_at) (lookup k s.sessions)
          else lookup k s.sessions))
        × ((release_sessions x ids s).1.runs ≡ s.runs)
  release_sessions-sessions [] s k done = unfold release_sessions in (refl, refl)
  release_sessions-sessions (id ∷ ids) s k done =
      let next = record s { sessions = update id (release x.interrupted_at) s.sessions } in
      ground (
        arith,
        rw (release_sessions-cons id ids s) at done,
        release_sessions-cons id ids s,
        eq_iff id k,
        lookup-update id k (release x.interrupted_at) s.sessions,
        release_sessions-sessions ids next k,
      )

  -- The start with its first calls answered.
  loops : Step J (Unit {0})
  loops s =
      and_then (interrupt_runs x (values s.runs) [] s)
        (λ ids. release_sessions x ids >>= λ end t. (inr tt, record t { initialized = true }))

  ensure_initialized-loops :
      (s : ChatState J)
      → s.initialized ≡ false
      → (ensure_initialized x s).0 ≡ inr tt
      → ensure_initialized x s ≡ loops s
  unfolding ensure_initialized loops
  ensure_initialized-loops s cold done = ground (arith, cold)

  loops-IsRestarted :
      (s : ChatState J)
      → IsMap s.runs
      → IsKeyed s.runs
      → (loops s).0 ≡ inr tt
      → IsRestarted x.interrupted_at s (loops s).1
  unfolding loops
  loops-IsRestarted s map keyed done =
      let (ids, first, rest) = and_then-ok (interrupt_runs x (values s.runs) [] s) _ tt done in
      let mid = (interrupt_runs x (values s.runs) [] s).1 in
      let (end, second, last) =
        and_then-ok (release_sessions x ids mid)
          (λ end t. (inr tt, record t { initialized = true })) tt (rw rest at done) in
      record {
        runs = λ k.
            rw (rest, last) ground
              (
                arith,
                interrupt_runs-runs (s.runs) [] ids s k map keyed first,
                release_sessions-sessions ids mid k second,
              );
        sessions = λ k.
            rw (rest, last) ground
              (
                arith,
                interrupt_runs-found (values s.runs) [] ids s k first,
                release_sessions-sessions ids mid k second,
              );
        ready = rw (rest, last) refl;
      }

  -- The start: where every call of it is answered and it is not done yet, it interrupts each active
  -- run, with the error and the time of the start, leaves the other runs as they are, takes the active
  -- run from exactly the sessions that had an active run, and is then done. The runs stand under their
  -- ids, no id twice.
  pub ensure_initialized-IsRestarted :
      (s : ChatState J)
      → s.initialized ≡ false
      → IsMap s.runs
      → IsKeyed s.runs
      → (ensure_initialized x s).0 ≡ inr tt
      → IsRestarted x.interrupted_at s (ensure_initialized x s).1
  ensure_initialized-IsRestarted s cold map keyed done =
      let same = ensure_initialized-loops s cold done in
      rw same (loops-IsRestarted s map keyed (rw same at done))

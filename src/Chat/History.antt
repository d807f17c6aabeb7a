-- ===== src/Chat/History.antt =====
-- The progress log of a session over any history of calls of `append_run_progress`.
use text.Mathlib.TextEquality.{eq_iff}
use mathlib.Core.List.{append-nil, append_assoc}
use ai_agent_sandbox_bluepri.Base.{
  suc, ◌+◌, ◌<◌, ◌≤◌, ◌≡◌, refl, ◌∙◌, String, true, Option, none, some, List, [], ◌∷◌, ◌++◌, inl,
  inr, ◌⊎◌, if◌then◌else◌, ◌==◌, string_eq, length, length-append, arith, u64_modulus, Bool-cases,
}
use ai_agent_sandbox_bluepri.Base.Map.{lookup, update, lookup-update}
use ai_agent_sandbox_bluepri.Chat.{
  ChatRunProgressRecord, ChatSessionRecord, ChatState, StoreCall, Surroundings, writes_session,
}
use ai_agent_sandbox_bluepri.Chat.Steps.{session_store-cases}
use ai_agent_sandbox_bluepri.Chat.Runs.{Report, progress_entry, push_progress, append_run_progress}
use ai_agent_sandbox_bluepri.Chat.Progress.{IsLog, push_progress-IsLog}

-- A call that reports on a session.
abbrev pub Call : Type 0
Call = Surroundings × (String × Report)

-- The stores after a history of reports.
pub reports : {J : Type 0} → List Call → ChatState J → ChatState J
reports [] s = s
reports ((x, (id, e)) ∷ calls) s = reports calls (append_run_progress x id e s).1

-- What a call on the session `id` returns for the session `k`.
abbrev returned :
    String → String → StoreCall ⊎ Option ChatRunProgressRecord → List ChatRunProgressRecord
returned k id (inl call) = []
returned k id (inr answer) =
    if id == k then elim answer [ none ↦ [] | some entry ↦ entry ∷ [] ] else []

-- The entries that a history's calls return for the session `k`.
pub entries : {J : Type 0} → String → List Call → ChatState J → List ChatRunProgressRecord
entries k [] s = []
entries k ((x, (id, e)) ∷ calls) s =
    returned k id (append_run_progress x id e s).0
    ++ entries k calls (append_run_progress x id e s).1

length-returned :
    (k id : String) (x : StoreCall ⊎ Option ChatRunProgressRecord) → length (returned k id x) ≤ 1
length-returned k id (inl call) = omega arith
length-returned k id (inr none) = ground arith
length-returned k id (inr (some entry)) = ground arith

module _ {J : Type 0} where
  -- After the start a call fails and changes nothing, or appends to its session.
  append_run_progress-cases :
      (x : Surroundings) (id : String) (e : Report) (s : ChatState J)
      → s.initialized ≡ true
      → ((c : StoreCall) × (append_run_progress x id e s ≡ (inl c, s)))
        ⊎ (append_run_progress x id e s ≡ (
          inr (elim (lookup id s.sessions) [
            | none ↦ none
            | some c ↦ some (progress_entry x.now e c)
          ]),
          record s { sessions = update id (push_progress x.now e) s.sessions },
        ))
  unfolding append_run_progress
  append_run_progress-cases x id e s ready = elim (session_store-cases x s ready) [
    | inl (c, shut) ↦ inl (c, rw shut refl)
    | inr opened ↦ elim (Bool-cases (x.fails (writes_session id))) [
      | inl broken ↦ inl (writes_session id, rw (opened, broken) refl)
      | inr works ↦ inr (rw (opened, works) refl)
    ]
  ]

  -- The session `k` is stored with the log of `all` its entries.
  HasLog : String → List ChatRunProgressRecord → ChatState J → Type 0
  HasLog k all s = (c : ChatSessionRecord J) × (lookup k s.sessions ≡ some c) × IsLog all c

  append_run_progress-ready :
      (x : Surroundings) (id : String) (e : Report) (s : ChatState J)
      → s.initialized ≡ true
      → (append_run_progress x id e s).1.initialized ≡ true
  append_run_progress-ready x id e s ready = elim (append_run_progress-cases x id e s ready) [
    | inl (f, failed) ↦ rw failed ready
    | inr works ↦ rw works ready
  ]

  append_run_progress-HasLog :
      (k : String) (x : Surroundings) (id : String) (e : Report) (all : List ChatRunProgressRecord)
      (s : ChatState J)
      → s.initialized ≡ true
      → suc (suc (length all)) < u64_modulus
      → HasLog k all s
      → HasLog k
          (all ++ returned k id (append_run_progress x id e s).0)
          (append_run_progress x id e s).1
  unfolding HasLog
  append_run_progress-HasLog k x id e all s ready fits (c, found, log) =
      elim (append_run_progress-cases x id e s ready) [
        | inl (f, failed) ↦ rw (failed, append-nil all) (c, found, log)
        | inr works ↦ elim (Bool-cases (id == k)) [
          | inr other ↦
              rw (works, other, append-nil all)
                (c, lookup-update id k (push_progress x.now e) s.sessions ∙ rw other found, log)
          | inl same ↦
              let key : id ≡ k = (eq_iff id k).0 same in
              let at_id : lookup id s.sessions ≡ some c = rw key found in
              rw (works, same, at_id)
                (
                  push_progress x.now e c,
                  lookup-update id k (push_progress x.now e) s.sessions ∙ rw (same, found) refl,
                  push_progress-IsLog x.now e all c fits log,
                )
        ]
      ]

  reports-HasLog :
      (k : String) (calls : List Call) (all : List ChatRunProgressRecord) (s : ChatState J)
      → s.initialized ≡ true
      → length all + length calls + 2 < u64_modulus
      → HasLog k all s
      → HasLog k (all ++ entries k calls s) (reports calls s)
  unfolding reports entries HasLog
  reports-HasLog k [] all s ready fits h = rw (append-nil all) h
  reports-HasLog k ((x, (id, e)) ∷ calls) all s ready fits h =
      let now = returned k id (append_run_progress x id e s).0 in
      rw (← append_assoc all now (entries k calls (append_run_progress x id e s).1)) (
        reports-HasLog k calls (all ++ now) (append_run_progress x id e s).1
          (append_run_progress-ready x id e s ready)
          (omega (arith, fits, length-append all now, length-returned k id _))
          (append_run_progress-HasLog k x id e all s ready (omega (arith, fits)) h))

  -- The progress log: over any history of reports on any sessions, some of which fail, a session whose
  -- log was empty has the log of the entries that its successful calls returned: the last 200 of them
  -- in their order, numbered from 1 on without a gap, with the next number after the last. The start
  -- is done, and the history has fewer calls than the counter can number.
  pub reports-IsLog :
      (k : String) (calls : List Call) (s : ChatState J) (c : ChatSessionRecord J)
      → s.initialized ≡ true
      → length calls + 2 < u64_modulus
      → lookup k s.sessions ≡ some c
      → IsLog [] c
      → (d : ChatSessionRecord J) × (lookup k (reports calls s).sessions ≡ some d)
        × IsLog (entries k calls s) d
  unfolding HasLog
  reports-IsLog k calls s c ready fits found empty =
      reports-HasLog k calls [] s ready (omega (arith, fits)) (c, found, empty)

-- ===== src/Chat/Runs.antt =====
-- The operations of chat_state.rs on the runs and on the progress of a session's runs.
use ai_agent_sandbox_bluepri.Base.{
  ℕ, zero, suc, ◌+◌, ◌-◌, String, Bool, ◌&&◌, Option, none, some, List, [], ◌∷◌, ◌++◌, inr,
  if◌then◌else◌, ltb, eqb, ◌==◌, string_eq, length, saturating_add,
}
use ai_agent_sandbox_bluepri.Base.Map.{lookup, insert, update, values}
use ai_agent_sandbox_bluepri.Base.Text.{eq_ignore_ascii_case}
use ai_agent_sandbox_bluepri.Chat.{
  ChatRunKind, ChatRunStatus, queued, ChatRunRecord, ChatRunProgressRecord, ChatSessionRecord,
  Surroundings, Step, ◌>>=◌, attempt, is_active, lists_runs, gets_run, writes_run, writes_session,
  session_store, run_store, update_session, update_run_entry,
}
use ai_agent_sandbox_bluepri.Chat.Sessions.{get_session}

abbrev pub chat_run_progress_limit : ℕ
chat_run_progress_limit = 200

unfoldable pub new_run :
    String → String → String → String → ChatRunKind → String → ℕ → ChatRunRecord
new_run fresh session scope owner kind request_text now = record {
  id = fresh;
  session_id = session;
  scope_id = scope;
  owner = owner;
  kind = kind;
  status = queued;
  request_text = request_text;
  created_at = now;
  started_at = none;
  completed_at = none;
  sidecar_session_id = none;
  trace_id = none;
  final_output = none;
  error = none;
}

-- What a step of a run reports.
pub record Report : Type 0 where
  pub run_id : String
  pub status : ChatRunStatus
  pub phase : String
  pub message : String

-- `drain(0..n)`: what is left after the first entries.
unfoldable pub drop : {A : Type 0} → ℕ → List A → List A
drop zero log = log
drop (suc n) [] = []
drop (suc n) (a ∷ rest) = drop n rest

-- The entry of a report: a counter of 0 is that of a session stored before there was one.
unfoldable pub progress_entry :
    {J : Type 0} → ℕ → Report → ChatSessionRecord J → ChatRunProgressRecord
progress_entry now e c = record {
  seq = if eqb c.next_progress_seq 0 then length c.run_progress + 1 else c.next_progress_seq;
  run_id = e.run_id;
  status = e.status;
  phase = e.phase;
  message = e.message;
  timestamp_ms = now;
}

unfoldable pub push_progress : {J : Type 0} → ℕ → Report → ChatSessionRecord J → ChatSessionRecord J
unfolding progress_entry drop
push_progress now e c =
    let entry = progress_entry now e c in
    let log = c.run_progress ++ (entry ∷ []) in
    record c {
      run_progress =
          if ltb chat_run_progress_limit (length log)
          then drop (length log - chat_run_progress_limit) log
          else log;
      next_progress_seq = saturating_add entry.seq 1;
      updated_at = now;
    }

unfoldable pub find_run : (ChatRunRecord → Bool) → List ChatRunRecord → Option ChatRunRecord
find_run p [] = none
find_run p (r ∷ rs) = if p r then some r else find_run p rs

-- The run is active, for the scope and the owner.
abbrev pub is_active_for : String → String → ChatRunRecord → Bool
is_active_for scope owner r =
    r.scope_id == scope && eq_ignore_ascii_case r.owner owner && is_active r.status

module _ {J : Type 0} (x : Surroundings) where
  unfoldable pub create_run :
      String → String → String → String → ChatRunKind → String → Step J ChatRunRecord
  unfolding run_store session_store update_session new_run
  create_run fresh session scope owner kind request_text =
      let run = new_run fresh session scope owner kind request_text x.now in
      run_store x >>= (λ ready.
        attempt x (writes_run fresh) (λ s. (inr tt, record s { runs = insert fresh run s.runs }))
        >>= (λ inserted. session_store x >>= (λ ready.
            update_session x session
              (λ c. record c { active_run_id = some fresh; updated_at = x.now })
            >>= λ found s. (inr run, s))))

  unfoldable pub get_run : String → Step J (Option ChatRunRecord)
  unfolding run_store
  get_run id = run_store x >>= λ ready. attempt x (gets_run id) (λ s. (inr (lookup id s.runs), s))

  unfoldable pub update_run : String → (ChatRunRecord → ChatRunRecord) → Step J Bool
  unfolding run_store update_run_entry
  update_run id f = run_store x >>= λ ready. update_run_entry x id f

  unfoldable pub active_run_for_scope : String → String → Step J (Option ChatRunRecord)
  unfolding run_store find_run
  active_run_for_scope scope owner = run_store x >>= λ ready.
      attempt x lists_runs (λ s. (inr (find_run (is_active_for scope owner) (values s.runs)), s))

  unfoldable pub append_run_progress : String → Report → Step J (Option ChatRunProgressRecord)
  unfolding session_store push_progress
  append_run_progress id e = session_store x >>= λ ready. attempt x (writes_session id) (λ s. (
    inr (elim (lookup id s.sessions) [ none ↦ none | some c ↦ some (progress_entry x.now e c) ]),
    record s { sessions = update id (push_progress x.now e) s.sessions },
  ))

  unfoldable pub list_run_progress_for_session : String → Step J (List ChatRunProgressRecord)
  unfolding get_session
  list_run_progress_for_session id =
      get_session x id >>= λ found s. (inr (elim found [ none ↦ [] | some c ↦ c.run_progress ]), s)

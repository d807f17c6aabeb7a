-- ===== src/Chat/Tests.antt =====
-- Two sessions of one owner, with runs: a restart, a deletion, reports, an enqueue and its panic.
use ai_agent_sandbox_bluepri.Base.{
  ◌≡◌, ◌↔◌, ◌<◌, refl, String, true, false, none, some, List, [], ◌∷◌, arith, string_eq,
}
use ai_agent_sandbox_bluepri.Base.Map.{lookup}
use ai_agent_sandbox_bluepri.Base.Text.{codes, byte_len, trim_text}
use ai_agent_sandbox_bluepri.Chat.{
  prompt, ChatRunStatus, running, completed, ChatRunRecord, ChatSessionRecord, ChatState,
  Surroundings, ensure_initialized,
}
use ai_agent_sandbox_bluepri.Chat.Restart.{IsRestarted, ensure_initialized-IsRestarted}
use ai_agent_sandbox_bluepri.Chat.Sessions.{delete_session}
use ai_agent_sandbox_bluepri.Chat.Delete.{IsDeleted, delete_session-IsDeleted}
use ai_agent_sandbox_bluepri.Chat.Runs.{Report, drop}
use ai_agent_sandbox_bluepri.Chat.Progress.{IsLog}
use ai_agent_sandbox_bluepri.Chat.History.{Call, reports, entries, reports-IsLog}
use ai_agent_sandbox_bluepri.Chat.Messages.{Json}
use ai_agent_sandbox_bluepri.Chat.Enqueue.{
  Visit, Queue, panics, maybe_auto_title_session, enqueue_chat_run,
}
use ai_agent_sandbox_bluepri.Chat.Title.{IsBoundary, maybe_auto_title_session-panics}
use ai_agent_sandbox_bluepri.Chat.Grows.{IsSingle}
use ai_agent_sandbox_bluepri.Chat.Exclusion.{enqueues, call_queue, call_queue-IsSingle}

-- A JSON value is a text here.
abbrev json : Json String
json = record { is_object = λ part. true; text_at = λ name part. some part }

abbrev calm : Surroundings
calm = record { fails = λ call. false; interrupted_at = 50; now = 60 }

abbrev run_with : String → String → ChatRunStatus → ChatRunRecord
run_with run session status = record {
  id = run;
  session_id = session;
  scope_id = "sandbox:1";
  owner = "0xAB";
  kind = prompt;
  status = status;
  request_text = "hi";
  created_at = 1;
  started_at = none;
  completed_at = none;
  sidecar_session_id = none;
  trace_id = none;
  final_output = none;
  error = none;
}

abbrev session : String → ChatSessionRecord String
session id = record {
  id = id;
  scope_id = "sandbox:1";
  owner = "0xAB";
  title = "New Chat";
  created_at = 1;
  updated_at = 1;
  latest_sidecar_session_id = none;
  active_run_id = none;
  run_progress = [];
  next_progress_seq = 1;
  messages = [];
}

abbrev cold : ChatState String
cold = record {
  sessions = ("s1", session "s1") ∷ ("s2", session "s2") ∷ [];
  runs = ("r1", run_with "r1" "s1" running) ∷ ("r2", run_with "r2" "s2" completed) ∷ [];
  streams = [];
  initialized = false;
}

abbrev warm : ChatState String
warm = record cold { initialized = true }

ensure_initialized-IsRestarted_example : IsRestarted 50 cold (ensure_initialized calm cold).1
unfolding ensure_initialized lookup
ensure_initialized-IsRestarted_example =
    ensure_initialized-IsRestarted calm cold refl (refl, (refl, tt)) (refl, (refl, tt)) refl

delete_session-IsDeleted_example : IsDeleted "s1" warm (delete_session calm "s1" warm).1
unfolding delete_session lookup
delete_session-IsDeleted_example =
    delete_session-IsDeleted calm "s1" warm refl (refl, (refl, tt)) (refl, (refl, tt)) refl

abbrev report : Report
report = record { run_id = "r1"; status = running; phase = "running"; message = "started" }

abbrev calls : List Call
calls = (calm, ("s1", report)) ∷ (calm, ("s2", report)) ∷ (calm, ("s1", report)) ∷ []

empty-IsLog : IsLog [] (session "s1")
unfolding drop
empty-IsLog = record { keeps = refl; numbered = refl; next = refl }

reports-IsLog_example :
    (d : ChatSessionRecord String) × (lookup "s1" (reports calls warm).sessions ≡ some d)
    × IsLog (entries "s1" calls warm) d
unfolding lookup
reports-IsLog_example =
    reports-IsLog "s1" calls warm (session "s1") refl (omega arith) refl empty-IsLog

abbrev visit : Visit String
visit = record {
  active = calm;
  resolve = calm;
  create = calm;
  title = calm;
  publish = calm;
  reread = calm;
  emits = calm;
  requeue = calm;
  session_id = "s3";
  run_id = "r3";
  message_id = "m3";
  part = "text";
  message_created = 60;
  message_completed = 60;
}

-- Only the finished run is left.
abbrev idle : Queue String
idle = record {
  state = record warm { runs = ("r2", run_with "r2" "s2" completed) ∷ [] };
  poisoned = false;
}

idle-IsSingle : IsSingle idle.state.runs
idle-IsSingle scope owner = ground arith

call_queue-IsSingle_example :
    IsSingle (call_queue json (enqueues visit "sandbox:1" "0xAB" "s1" prompt "hi") idle).state.runs
unfolding lookup
call_queue-IsSingle_example =
    call_queue-IsSingle json (enqueues visit "sandbox:1" "0xAB" "s1" prompt "hi") idle refl
      (refl, tt) refl idle-IsSingle

-- 39 letters and a letter of two bytes: the slice at 40 bytes cuts it.
abbrev accented : String
accented = "abcdefghijklmnopqrstuvwxyzabcdefghijklmé"

enqueue-panics :
    (enqueue_chat_run json visit "sandbox:1" "0xAB" "s1" prompt accented idle).0 ≡ panics
unfolding enqueue_chat_run lookup
enqueue-panics = refl

maybe_auto_title_session-panics_example :
    (maybe_auto_title_session calm "s1" accented warm ≡ none)
    ↔ ((40 < byte_len (codes (trim_text accented))) × ¬ IsBoundary 40 (codes (trim_text accented)))
maybe_auto_title_session-panics_example = maybe_auto_title_session-panics calm "s1" accented warm

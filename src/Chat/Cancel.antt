-- ===== src/Chat/Cancel.antt =====
-- The cancellation of a chat run: `resolve_chat_run` and `finalize_cancelled_chat_run` of
-- operator_api/chat.rs, `cancel_chat_run` of operator_api/sessions_core.rs, and
-- `publish_run_progress` of operator_api/sse.rs. The abort of the run's task and the call of the
-- sidecar are outside. The code holds no lock over a cancellation; here no other call comes between
-- its parts.
use ai_agent_sandbox_bluepri.Base.{
  ℕ, String, Bool, true, false, not, ◌&&◌, ◌||◌, Option, none, some, ◌⊎◌, inl, inr, if◌then◌else◌,
  ◌==◌, string_eq,
}
use ai_agent_sandbox_bluepri.Base.Text.{eq_ignore_ascii_case}
use ai_agent_sandbox_bluepri.Chat.{
  ChatSessionRecord, ChatRunRecord, ChatRunStatus, cancelled, cancelling, ChatState, Surroundings,
  is_active,
}
use ai_agent_sandbox_bluepri.Chat.Sessions.{session_matches, get_session, clear_session_active_run}
use ai_agent_sandbox_bluepri.Chat.Runs.{Report, get_run, update_run, append_run_progress}
use ai_agent_sandbox_bluepri.Chat.Enqueue.{emit_event}

pub data CancelError : Type 0 where
  store_failed no_session no_run not_active : CancelError

-- What the calls of one cancellation meet.
pub record Cancellation : Type 0 where
  pub session : Surroundings
  pub run : Surroundings
  pub mark : Surroundings
  pub reread : Surroundings
  pub progress : Surroundings
  pub finalize : Surroundings
  pub clear : Surroundings
  pub final : Surroundings
  pub events : Surroundings

abbrev pub is_cancelled : ChatRunStatus → Bool
is_cancelled cancelled = true
is_cancelled _ = false

abbrev pub is_run : Option String → String → Bool
is_run none id = false
is_run (some j) id = j == id

unfoldable pub mark_cancelling : ℕ → ChatRunRecord → ChatRunRecord
mark_cancelling now r = record r {
  status = cancelling;
  started_at = elim r.started_at [ none ↦ some now | some at ↦ some at ];
}

unfoldable pub mark_cancelled : ℕ → String → ChatRunRecord → ChatRunRecord
mark_cancelled now text r = record r {
  status = cancelled;
  completed_at = some now;
  error = some text;
}

module _ {J : Type 0} (c : Cancellation) where
  unfoldable pub resolve_chat_run :
      String
      → String
      → String
      → String
      → ChatState J
      → (CancelError ⊎ (ChatSessionRecord J × ChatRunRecord)) × ChatState J
  unfolding get_session get_run session_matches eq_ignore_ascii_case
  resolve_chat_run scope owner session_id run_id s =
      let (found, t) = get_session c.session session_id s in
      elim found [
        | inl call ↦ (inl store_failed, t)
        | inr none ↦ (inl no_session, t)
        | inr (some session) ↦
            if session_matches session scope owner
            then (let (got, u) = get_run c.run run_id t in
                elim got [
                  | inl call ↦ (inl store_failed, u)
                  | inr none ↦ (inl no_run, u)
                  | inr (some run) ↦
                      if run.session_id == session.id
                        && run.scope_id == scope
                        && eq_ignore_ascii_case run.owner owner
                      then (inr (session, run), u)
                      else (inl no_run, u)
                ])
            else (inl no_session, t)
      ]

  -- `publish_run_event`, and `publish_run_progress` with its event.
  unfoldable pub publish_run : String → Report → ChatState J → ChatState J
  unfolding emit_event append_run_progress
  publish_run session e s =
      let (appended, t) =
        append_run_progress c.progress session e (emit_event c.events session s) in
      elim appended [
        | inl call ↦ t
        | inr none ↦ t
        | inr (some entry) ↦ emit_event c.events session t
      ]

  -- The run, cancelled, and the events of the end.
  unfoldable pub finalize_cancelled_chat_run :
      String → String → String → ChatState J → (CancelError ⊎ ChatRunRecord) × ChatState J
  unfolding update_run mark_cancelled clear_session_active_run get_run publish_run emit_event
  finalize_cancelled_chat_run session run text s =
      let (updated, t) = update_run c.finalize run (mark_cancelled c.finalize.now text) s in
      elim updated [
        | inl call ↦ (inl store_failed, t)
        | inr false ↦ (inl no_run, t)
        | inr true ↦
            let cleared = (clear_session_active_run c.clear session t).1 in
            let (got, u) = get_run c.final run cleared in
            elim got [
              | inl call ↦ (inl store_failed, u)
              | inr none ↦ (inl store_failed, u)
              | inr (some r) ↦
                  let told =
                    publish_run session
                      (record {
                        run_id = r.id;
                        status = r.status;
                        phase = "cancelled";
                        message = "Run cancelled by user.";
                      })
                      u in
                  (inr r, emit_event c.events session (emit_event c.events session told))
            ]
      ]

  -- The mark and its events, best effort.
  unfoldable pub request_cancel : String → String → ChatState J → ChatState J
  unfolding update_run mark_cancelling get_run publish_run
  request_cancel session run s =
      let t = (update_run c.mark run (mark_cancelling c.mark.now) s).1 in
      let (got, u) = get_run c.reread run t in
      elim got [
        | inl call ↦ u
        | inr none ↦ u
        | inr (some r) ↦
            publish_run session
              (record {
                run_id = r.id;
                status = r.status;
                phase = "cancelling";
                message = "Cancellation requested. Stopping the active run.";
              })
              u
      ]

  -- The run as it is answered: one that has ended is answered as it stands.
  unfoldable pub cancel_chat_run :
      String → String → String → String → ChatState J → (CancelError ⊎ ChatRunRecord) × ChatState J
  unfolding resolve_chat_run request_cancel finalize_cancelled_chat_run
  cancel_chat_run scope owner session_id run_id s =
      let (resolved, t) = resolve_chat_run scope owner session_id run_id s in
      elim resolved [
        | inl e ↦ (inl e, t)
        | inr (session, run) ↦
            if is_cancelled run.status || not (is_active run.status)
            then (inr run, t)
            else if is_run session.active_run_id run.id
            then finalize_cancelled_chat_run session.id run.id "Run cancelled by user."
                (request_cancel session.id run.id t)
            else (inl not_active, t)
      ]

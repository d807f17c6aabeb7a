-- ===== src/Chat/Enqueue.antt =====
-- The queue of the chat runs: `maybe_auto_title_session` and the streams of chat_state.rs,
-- `publish_chat_message` of operator_api/sse.rs, and `resolve_or_create_chat_session` and
-- `enqueue_chat_run` of operator_api/chat.rs. An event that is sent changes only the streams.
use ai_agent_sandbox_bluepri.Base.{
  ℕ, String, Bool, true, false, ◌&&◌, ◌||◌, Option, none, some, List, [], ◌∷◌, ◌⊎◌, inl, inr,
  if◌then◌else◌, ltb, ◌==◌, string_eq, last,
}
use ai_agent_sandbox_bluepri.Base.Text.{
  codes, byte_len, slice_to, trim_text, is_empty_text, eq_ignore_ascii_case,
}
use Prim.Native.String.{◌++◌}
use ai_agent_sandbox_bluepri.Chat.{
  ChatMessageRecord, ChatSessionRecord, ChatRunRecord, ChatRunKind, ChatState, StoreCall,
  Surroundings, ◌>>=◌, session_store, update_session,
}
use ai_agent_sandbox_bluepri.Chat.Sessions.{
  session_matches, create_session, get_session, sender_for_session,
}
use ai_agent_sandbox_bluepri.Chat.Messages.{Json, append_message}
use ai_agent_sandbox_bluepri.Chat.Runs.{create_run, get_run, active_run_for_scope}

-- The title that a request gives: nothing where the slice at 40 bytes panics.
unfoldable pub auto_title : String → Option String
unfolding byte_len slice_to
auto_title candidate =
    if ltb 40 (byte_len (codes candidate))
    then elim (slice_to 40 candidate) [ none ↦ none | some t ↦ some (t ++ "...") ]
    else some candidate

abbrev pub no_messages : {A : Type 0} → List A → Bool
no_messages [] = true
no_messages (m ∷ ms) = false

unfoldable pub with_title : {J : Type 0} → ℕ → String → ChatSessionRecord J → ChatSessionRecord J
with_title now title c =
    if no_messages c.messages && (c.title == "New Chat" || c.title == "Chat Session")
    then record c { title = title; updated_at = now }
    else c

-- An error that the API answers.
pub data ApiError : Type 0 where
  internal session_not_found : ApiError
  run_active : (existing : String) → ApiError

module _ {J : Type 0} where
  -- Nothing where the slice panics.
  unfoldable pub maybe_auto_title_session :
      Surroundings → String → String → ChatState J → Option ((StoreCall ⊎ Bool) × ChatState J)
  unfolding trim_text auto_title session_store update_session with_title
  maybe_auto_title_session x id request_text s =
      let candidate = trim_text request_text in
      if is_empty_text candidate then some (inr false, s) else elim (auto_title candidate) [
        | none ↦ none
        | some title ↦
            some ((session_store x >>= λ ready. update_session x id (with_title x.now title)) s)
      ]

  unfoldable pub emit_event : Surroundings → String → ChatState J → ChatState J
  unfolding sender_for_session
  emit_event x id s = (sender_for_session x id s).1

  -- `emit_message_part_updated` sends a part that is an object.
  unfoldable pub emit_parts : Json J → Surroundings → String → List J → ChatState J → ChatState J
  unfolding emit_event
  emit_parts json x id [] s = s
  emit_parts json x id (p ∷ ps) s =
      emit_parts json x id ps (if json.is_object p then emit_event x id s else s)

  unfoldable pub publish_chat_message :
      Surroundings → String → ChatMessageRecord J → ChatState J → ChatState J
  unfolding trim_text eq_ignore_ascii_case append_message emit_event
  publish_chat_message x id m s =
      if is_empty_text (trim_text m.content) && eq_ignore_ascii_case m.role "assistant"
      then s
      else emit_event x id (append_message x id m s).1

  unfoldable pub resolve_or_create_chat_session :
      Surroundings
      → String
      → String
      → String
      → String
      → ChatState J
      → (ApiError ⊎ ChatSessionRecord J) × ChatState J
  unfolding trim_text create_session get_session session_matches
  resolve_or_create_chat_session x fresh scope owner id s =
      if is_empty_text (trim_text id)
      then (let (made, t) = create_session x fresh scope owner (some "New Chat") s in
          elim made [ inl call ↦ (inl internal, t) | inr c ↦ (inr c, t) ])
      else (let (found, t) = get_session x id s in
          elim found [
            | inl call ↦ (inl internal, t)
            | inr none ↦ (inl session_not_found, t)
            | inr (some c) ↦
                if session_matches c scope owner then (inr c, t) else (inl session_not_found, t)
          ])

-- What one call of `enqueue_chat_run` meets: the surroundings of each of its operations, the fresh
-- ids of a session, of the run and of the message, the part of the message and its two times.
pub record Visit (J : Type 0) : Type 0 where
  pub active : Surroundings
  pub resolve : Surroundings
  pub create : Surroundings
  pub title : Surroundings
  pub publish : Surroundings
  pub reread : Surroundings
  pub emits : Surroundings
  pub requeue : Surroundings
  pub session_id : String
  pub run_id : String
  pub message_id : String
  pub part : J
  pub message_created : ℕ
  pub message_completed : ℕ

-- The stores behind the lock of the queue, which is poisoned once a call panics while it holds it.
pub record Queue (J : Type 0) : Type 0 where
  pub state : ChatState J
  pub poisoned : Bool

pub data Answer (J : Type 0) : Type 0 where
  queues : ChatSessionRecord J → ChatRunRecord → Answer J
  refuses : ApiError → Answer J
  lock_poisoned panics : Answer J

module _ {J : Type 0} (json : Json J) (v : Visit J) where
  unfoldable pub user_message : ChatRunRecord → String → ChatMessageRecord J
  user_message run request_text = record {
    id = v.message_id;
    run_id = some run.id;
    role = "user";
    content = request_text;
    created_at = v.message_created;
    completed_at = some v.message_completed;
    parts = v.part ∷ [];
    trace_id = none;
    success = none;
    error = none;
  }

  -- The events of the session's last message.
  unfoldable pub emit_last_message : String → ChatState J → ChatState J
  unfolding get_session emit_event emit_parts
  emit_last_message id s =
      let (found, t) = get_session v.reread id s in
      elim found [
        | inl call ↦ t
        | inr none ↦ t
        | inr (some c) ↦ elim (last c.messages) [
          | none ↦ t
          | some m ↦ emit_parts json v.emits id m.parts (emit_event v.emits id t)
        ]
      ]

  -- What follows the title.
  unfoldable pub announce :
      ChatSessionRecord J → ChatRunRecord → String → ChatState J → Answer J × ChatState J
  unfolding user_message publish_chat_message emit_last_message get_run emit_event
  announce session run request_text s =
      let said = publish_chat_message v.publish session.id (user_message run request_text) s in
      let (again, t) = get_run v.requeue run.id (emit_last_message session.id said) in
      elim again [
        | inl call ↦ (queues session run, t)
        | inr none ↦ (queues session run, t)
        | inr (some queued_run) ↦ (queues session queued_run, emit_event v.emits session.id t)
      ]

  -- The run of a session, with the lock held.
  unfoldable pub enqueue_in :
      String
      → String
      → ChatRunKind
      → String
      → ChatSessionRecord J
      → ChatState J
      → Answer J × Queue J
  unfolding create_run maybe_auto_title_session announce
  enqueue_in scope owner kind request_text session s =
      let (created, t) = create_run v.create v.run_id session.id scope owner kind request_text s in
      elim created [
        | inl call ↦ (refuses internal, record { state = t; poisoned = false })
        | inr run ↦ elim (maybe_auto_title_session v.title session.id request_text t) [
          | none ↦ (panics, record { state = t; poisoned = true })
          | some (titled, u) ↦
              let (answer, w) = announce session run request_text u in
              (answer, record { state = w; poisoned = false })
        ]
      ]

  unfoldable pub enqueue_chat_run :
      String → String → String → ChatRunKind → String → Queue J → Answer J × Queue J
  unfolding active_run_for_scope resolve_or_create_chat_session enqueue_in
  enqueue_chat_run scope owner session_id kind request_text q =
      if q.poisoned
      then (lock_poisoned, q)
      else (let (active, s) = active_run_for_scope v.active scope owner q.state in
          elim active [
            | inl call ↦ (refuses internal, record { state = s; poisoned = false })
            | inr (some existing) ↦
                (refuses (run_active existing.id), record { state = s; poisoned = false })
            | inr none ↦
                let (resolved, t) =
                  resolve_or_create_chat_session v.resolve v.session_id scope owner session_id s in
                elim resolved [
                  | inl e ↦ (refuses e, record { state = t; poisoned = false })
                  | inr session ↦ enqueue_in scope owner kind request_text session t
                ]
          ])

-- ===== src/Chat.antt =====
-- The chat sessions and runs of sandbox-runtime/src/chat_state.rs: the records, the stores and the
-- start, which interrupts the runs that an earlier process left active. A JSON value is a type `J`.
pub mod Steps
pub mod Sessions
pub mod Messages
pub mod Runs
pub mod Enqueue
pub mod Cancel
pub mod Shrinks
pub mod Ends
pub mod Found
pub mod Exclusion
pub mod Title
pub mod Restart
pub mod Delete
pub mod Progress
pub mod History
pub mod Keeps
pub mod Grows
pub mod Single
mod Tests
use ai_agent_sandbox_bluepri.Base.{
  ℕ, String, Bool, true, false, Option, none, some, ◌⊎◌, inl, inr, List, [], ◌∷◌, ◌++◌,
  if◌then◌else◌, ◌==◌, string_eq,
}
use ai_agent_sandbox_bluepri.Base.Map.{Map, update, values, contains_key}

pub data ChatRunKind : Type 0 where
  prompt task : ChatRunKind

pub data ChatRunStatus : Type 0 where
  queued running cancelling completed failed cancelled interrupted : ChatRunStatus

abbrev pub is_active : ChatRunStatus → Bool
is_active queued = true
is_active running = true
is_active cancelling = true
is_active completed = false
is_active failed = false
is_active cancelled = false
is_active interrupted = false

pub record ChatMessageRecord (J : Type 0) : Type 0 where
  pub id : String
  pub run_id : Option String
  pub role : String
  pub content : String
  pub created_at : ℕ
  pub completed_at : Option ℕ
  pub parts : List J
  pub trace_id : Option String
  pub success : Option Bool
  pub error : Option String

pub record ChatRunProgressRecord : Type 0 where
  pub seq : ℕ
  pub run_id : String
  pub status : ChatRunStatus
  pub phase : String
  pub message : String
  pub timestamp_ms : ℕ

pub record ChatSessionRecord (J : Type 0) : Type 0 where
  pub id : String
  pub scope_id : String
  pub owner : String
  pub title : String
  pub created_at : ℕ
  pub updated_at : ℕ
  pub latest_sidecar_session_id : Option String
  pub active_run_id : Option String
  pub run_progress : List ChatRunProgressRecord
  pub next_progress_seq : ℕ
  pub messages : List (ChatMessageRecord J)

pub record ChatRunRecord : Type 0 where
  pub id : String
  pub session_id : String
  pub scope_id : String
  pub owner : String
  pub kind : ChatRunKind
  pub status : ChatRunStatus
  pub request_text : String
  pub created_at : ℕ
  pub started_at : Option ℕ
  pub completed_at : Option ℕ
  pub sidecar_session_id : Option String
  pub trace_id : Option String
  pub final_output : Option String
  pub error : Option String

-- The stores of the sessions and of the runs, the ids with a stream of events, and whether the start
-- is done.
pub record ChatState (J : Type 0) : Type 0 where
  pub sessions : Map String (ChatSessionRecord J)
  pub runs : Map String ChatRunRecord
  pub streams : Map String (Unit {0})
  pub initialized : Bool

-- The calls that can fail: a lock, the opening of a store, and an access of it.
pub data StoreCall : Type 0 where
  locks_init locks_streams opens_sessions opens_runs lists_sessions lists_runs : StoreCall
  gets_session writes_session gets_run writes_run : String → StoreCall

-- Which calls fail, the time that the start reads, and the time that the operation reads.
pub record Surroundings : Type 0 where
  pub fails : StoreCall → Bool
  pub interrupted_at : ℕ
  pub now : ℕ

-- An operation on the stores: the failed call or a value, and the stores after it.
abbrev pub Step : Type 0 → Type 0 → Type 0
Step J A = ChatState J → (StoreCall ⊎ A) × ChatState J

abbrev pub and_then :
    {J A B : Type 0}
    → (StoreCall ⊎ A) × ChatState J
    → (A → Step J B)
    → (StoreCall ⊎ B) × ChatState J
and_then (inl call, s) next = (inl call, s)
and_then (inr a, s) next = next a s

infixl 5 ◌>>=◌
abbrev pub ◌>>=◌ : {J A B : Type 0} → Step J A → (A → Step J B) → Step J B
◌>>=◌ step next s = and_then (step s) next

abbrev pub done : {J A : Type 0} → A → Step J A
done a s = (inr a, s)

abbrev pub attempt : {J A : Type 0} → Surroundings → StoreCall → Step J A → Step J A
attempt x call step s = if x.fails call then (inl call, s) else step s

unfoldable pub interrupt : ℕ → ChatRunRecord → ChatRunRecord
interrupt at r = record r {
  status = interrupted;
  error = some "Operator restarted before the run completed";
  completed_at = some at;
}

abbrev pub release : {J : Type 0} → ℕ → ChatSessionRecord J → ChatSessionRecord J
release at c = record c { active_run_id = none; updated_at = at }

module _ {J : Type 0} (x : Surroundings) where
  -- `PersistentStore::update`, which tells whether the key is there.
  unfoldable pub update_session : String → (ChatSessionRecord J → ChatSessionRecord J) → Step J Bool
  update_session id f s =
      if x.fails (writes_session id)
      then (inl (writes_session id), s)
      else (inr (contains_key id s.sessions), record s { sessions = update id f s.sessions })

  unfoldable pub update_run_entry : String → (ChatRunRecord → ChatRunRecord) → Step J Bool
  update_run_entry id f s =
      if x.fails (writes_run id)
      then (inl (writes_run id), s)
      else (inr (contains_key id s.runs), record s { runs = update id f s.runs })

  -- The first loop of the start, with the ids of the interrupted sessions.
  unfoldable pub interrupt_runs : List ChatRunRecord → List String → Step J (List String)
  unfolding update_run_entry interrupt
  interrupt_runs [] ids = done ids
  interrupt_runs (r ∷ rs) ids = elim (is_active r.status) [
    | true ↦ update_run_entry r.id (interrupt x.interrupted_at) >>= λ found.
        interrupt_runs rs (ids ++ (r.session_id ∷ []))
    | false ↦ interrupt_runs rs ids
  ]

  -- The second loop of the start.
  unfoldable pub release_sessions : List String → Step J (Unit {0})
  unfolding update_session
  release_sessions [] s = (inr tt, s)
  release_sessions (id ∷ ids) s =
      (update_session id (release x.interrupted_at) >>= λ found. release_sessions ids) s

  unfoldable pub ensure_initialized : Step J (Unit {0})
  unfolding interrupt_runs release_sessions
  ensure_initialized = attempt x locks_init (λ s.
      if s.initialized
      then (inr tt, s)
      else attempt x opens_runs
          (attempt x opens_sessions (
            attempt x lists_runs (
              interrupt_runs (values s.runs) [] >>= λ ids.
              release_sessions ids >>= λ end t. (inr tt, record t { initialized = true }))))
          s)

  unfoldable pub session_store : Step J (Unit {0})
  unfolding ensure_initialized
  session_store = ensure_initialized >>= λ ready. attempt x opens_sessions (done tt)

  unfoldable pub run_store : Step J (Unit {0})
  unfolding ensure_initialized
  run_store = ensure_initialized >>= λ ready. attempt x opens_runs (done tt)

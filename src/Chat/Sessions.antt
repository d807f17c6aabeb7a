-- ===== src/Chat/Sessions.antt =====
-- The operations of chat_state.rs on the sessions, and on the runs of a session. An id is a fresh
-- UUID, which the caller of the model gives.
use ai_agent_sandbox_bluepri.Base.{
  ℕ, String, Bool, ◌&&◌, Option, none, some, List, [], ◌∷◌, inr, if◌then◌else◌, leb, ◌==◌,
  string_eq, retain,
}
use ai_agent_sandbox_bluepri.Base.Map.{lookup, insert, remove, values}
use ai_agent_sandbox_bluepri.Base.Text.{codes, trim, eq_ignore_ascii_case}
use ai_agent_sandbox_bluepri.Chat.{
  ChatSessionRecord, ChatRunRecord, Surroundings, Step, ◌>>=◌, and_then, attempt, release,
  locks_streams, lists_sessions, lists_runs, gets_session, writes_session, writes_run,
  session_store, run_store, update_session,
}

-- `sort_by_key`, which is stable: `before a b` says that `a` may stand before `b`.
unfoldable pub insert_sorted : {A : Type 0} → (A → A → Bool) → A → List A → List A
insert_sorted before a [] = a ∷ []
insert_sorted before a (b ∷ bs) =
    let rest = insert_sorted before a bs in if before a b then a ∷ (b ∷ bs) else b ∷ rest

unfoldable pub sort_by : {A : Type 0} → (A → A → Bool) → List A → List A
unfolding insert_sorted
sort_by before [] = []
sort_by before (a ∷ rest) = insert_sorted before a (sort_by before rest)

-- The title of a new session: a blank one is the default.
unfoldable pub title_or_default : Option String → String
unfolding trim
title_or_default none = "New Chat"
title_or_default (some title) = elim (trim (codes title)) [ [] ↦ "New Chat" | c ∷ cs ↦ title ]

unfoldable pub new_session :
    {J : Type 0} → String → String → String → Option String → ℕ → ChatSessionRecord J
unfolding title_or_default
new_session fresh scope owner title now = record {
  id = fresh;
  scope_id = scope;
  owner = owner;
  title = title_or_default title;
  created_at = now;
  updated_at = now;
  latest_sidecar_session_id = none;
  active_run_id = none;
  run_progress = [];
  next_progress_seq = 1;
  messages = [];
}

unfoldable pub session_matches : {J : Type 0} → ChatSessionRecord J → String → String → Bool
unfolding eq_ignore_ascii_case
session_matches c scope owner = c.scope_id == scope && eq_ignore_ascii_case c.owner owner

module _ {J : Type 0} (x : Surroundings) where
  unfoldable pub create_session :
      String → String → String → Option String → Step J (ChatSessionRecord J)
  unfolding session_store new_session
  create_session fresh scope owner title =
      let c = new_session fresh scope owner title x.now in
      session_store x >>= λ ready.
      attempt x (writes_session fresh)
        (λ s. (inr c, record s { sessions = insert fresh c s.sessions }))

  -- `session_store()?.values()`, filtered and sorted with the last changed first.
  unfoldable pub list_sessions : String → String → Step J (List (ChatSessionRecord J))
  unfolding session_store session_matches sort_by
  list_sessions scope owner = session_store x >>= λ ready. attempt x lists_sessions (λ s. (
    inr (
        sort_by (λ a b. leb b.updated_at a.updated_at)
          (retain (λ c. session_matches c scope owner) (values s.sessions))),
    s,
  ))

  unfoldable pub get_session : String → Step J (Option (ChatSessionRecord J))
  unfolding session_store
  get_session id = session_store x >>= λ ready.
      attempt x (gets_session id) (λ s. (inr (lookup id s.sessions), s))

  unfoldable pub list_runs_for_session : String → Step J (List ChatRunRecord)
  unfolding run_store sort_by
  list_runs_for_session id = run_store x >>= λ ready. attempt x lists_runs (λ s. (
    inr (
        sort_by (λ a b. leb a.created_at b.created_at)
          (retain (λ r. r.session_id == id) (values s.runs))),
    s,
  ))

  -- The loop of `delete_session`.
  unfoldable pub remove_runs : List ChatRunRecord → Step J (Unit {0})
  remove_runs [] s = (inr tt, s)
  remove_runs (r ∷ rs) s =
      and_then
        (attempt x (writes_run r.id) (λ t. (inr tt, record t { runs = remove r.id t.runs })) s)
        (λ removed. remove_runs rs)

  unfoldable pub delete_session : String → Step J (Unit {0})
  unfolding list_runs_for_session run_store session_store remove_runs
  delete_session id = list_runs_for_session id >>= (λ runs. run_store x >>= (λ ready.
      remove_runs runs >>= (λ removed. session_store x >>= (λ ready.
        attempt x (writes_session id) (λ s.
          attempt x locks_streams (λ t. (inr tt, record t { streams = remove id t.streams }))
            (record s { sessions = remove id s.sessions }))))))

  unfoldable pub set_session_sidecar_session_id : String → Option String → Step J Bool
  unfolding session_store update_session
  set_session_sidecar_session_id id sidecar_session_id = session_store x >>= λ ready.
      update_session x id
        (λ c. record c { latest_sidecar_session_id = sidecar_session_id; updated_at = x.now })

  unfoldable pub clear_session_active_run : String → Step J Bool
  unfolding session_store update_session
  clear_session_active_run id = session_store x >>= λ ready. update_session x id (release x.now)

  -- `sender_for_session`: the stream of a session is made where there is none.
  unfoldable pub sender_for_session : String → Step J (Unit {0})
  sender_for_session id = attempt x locks_streams (λ s. elim (lookup id s.streams) [
    | some sender ↦ (inr sender, s)
    | none ↦ (inr tt, record s { streams = insert id tt s.streams })
  ])

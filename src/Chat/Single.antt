-- ===== src/Chat/Single.antt =====
-- `enqueue_chat_run` of operator_api/chat.rs: at most one run of a scope and an owner is active.
use ai_agent_sandbox_bluepri.Base.{
  ◌≡◌, refl, ◌∙◌, ap, String, true, false, Option, none, some, inl, inr, ◌⊎◌, string_eq, Bool-cases,
  Option-cases,
}
use ai_agent_sandbox_bluepri.Base.Map.{lookup, insert, values}
use ai_agent_sandbox_bluepri.Chat.{
  ChatSessionRecord, ChatRunRecord, ChatRunKind, ChatState, StoreCall,
}
use ai_agent_sandbox_bluepri.Chat.Messages.{Json}
use ai_agent_sandbox_bluepri.Chat.Runs.{
  new_run, find_run, is_active_for, create_run, active_run_for_scope,
}
use ai_agent_sandbox_bluepri.Chat.Enqueue.{
  Visit, Queue, Answer, ApiError, run_active, refuses, panics, internal, maybe_auto_title_session,
  resolve_or_create_chat_session, announce, enqueue_in, enqueue_chat_run,
}
use ai_agent_sandbox_bluepri.Chat.Keeps.{
  Keeps, Keeps-trans, resolve-Keeps, maybe_auto_title_session-Keeps, announce-Keeps,
}
use ai_agent_sandbox_bluepri.Chat.Grows.{
  IsSingle, Grows, Grows-IsSingle, active_run_for_scope-ready, create_run-runs,
}

module _ {J : Type 0} (json : Json J) (v : Visit J) where
  -- What follows the creation of the run leaves the runs.
  created-Keeps :
      (session : ChatSessionRecord J) (text : String)
      (p : (StoreCall ⊎ ChatRunRecord) × ChatState J)
      → p.1.initialized ≡ true
      → Keeps p.1
          (elim p.0 as (λ z. Answer J × Queue J) [
            | inl call ↦ (refuses internal, record { state = p.1; poisoned = false })
            | inr run ↦ elim (maybe_auto_title_session v.title session.id text p.1) [
              | none ↦ (panics, record { state = p.1; poisoned = true })
              | some (titled, u) ↦
                  let (answer, w) = announce json v session run text u in
                  (answer, record { state = w; poisoned = false })
            ]
          ]).1.state
  created-Keeps session text (inl call, t) ready = record { runs = refl; ready = ready }
  created-Keeps session text (inr run, t) ready =
      elim (Option-cases (maybe_auto_title_session v.title session.id text t)) [
        | inl e ↦ rw e (record { runs = refl; ready = ready })
        | inr ((titled, u), e) ↦
            let kept =
              maybe_auto_title_session-Keeps v.title session.id text t (titled, u) ready e in
            rw e (
              Keeps-trans t u (announce json v session run text u).1 kept
                (announce-Keeps json v session run text u kept.ready))
      ]

  enqueue_in-runs :
      (scope owner : String) (kind : ChatRunKind) (text : String) (session : ChatSessionRecord J)
      (s : ChatState J)
      → s.initialized ≡ true
      → ((enqueue_in json v scope owner kind text session s).1.state.runs ≡ s.runs)
        ⊎ ((enqueue_in json v scope owner kind text session s).1.state.runs
            ≡ insert v.run_id
                (new_run v.run_id session.id scope owner kind text v.create.now)
                s.runs)
  unfolding enqueue_in
  enqueue_in-runs scope owner kind text session s ready =
      let (still, runs) =
        create_run-runs v.create v.run_id session.id scope owner kind text s ready in
      let kept =
        created-Keeps session text (create_run v.create v.run_id session.id scope owner kind text s)
          still in
      elim runs [ inl same ↦ inl (kept.runs ∙ same) | inr grown ↦ inr (kept.runs ∙ grown) ]

  resolved-Grows :
      (scope owner : String) (kind : ChatRunKind) (text : String) (s : ChatState J)
      (p : (ApiError ⊎ ChatSessionRecord J) × ChatState J)
      → find_run (is_active_for scope owner) (values s.runs) ≡ none
      → Keeps s p.1
      → Grows v.run_id scope owner s
          (elim p.0 as (λ z. Answer J × Queue J) [
            | inl e ↦ (refuses e, record { state = p.1; poisoned = false })
            | inr session ↦ enqueue_in json v scope owner kind text session p.1
          ]).1.state
  unfolding Grows
  resolved-Grows scope owner kind text s (inl e, t) idle kept = inl kept.runs
  resolved-Grows scope owner kind text s (inr session, t) idle kept =
      elim (enqueue_in-runs scope owner kind text session t kept.ready) [
        | inl same ↦ inl (same ∙ kept.runs)
        | inr grown ↦ inr (
          session.id,
          kind,
          text,
          v.create.now,
          idle,
          grown
              ∙ ap
                  (insert v.run_id (new_run v.run_id session.id scope owner kind text v.create.now))
                  kept.runs,
        )
      ]

  active-Grows :
      (scope owner session : String) (kind : ChatRunKind) (text : String) (s : ChatState J)
      (p : (StoreCall ⊎ Option ChatRunRecord) × ChatState J)
      → s.initialized ≡ true
      → p.1 ≡ s
      → (p.0 ≡ inr none → find_run (is_active_for scope owner) (values s.runs) ≡ none)
      → Grows v.run_id scope owner s
          (elim p.0 as (λ z. Answer J × Queue J) [
            | inl call ↦ (refuses internal, record { state = p.1; poisoned = false })
            | inr (some existing) ↦
                (refuses (run_active existing.id), record { state = p.1; poisoned = false })
            | inr none ↦
                let (resolved, t) =
                  resolve_or_create_chat_session v.resolve v.session_id scope owner session p.1 in
                elim resolved [
                  | inl e ↦ (refuses e, record { state = t; poisoned = false })
                  | inr c ↦ enqueue_in json v scope owner kind text c t
                ]
          ]).1.state
  active-Grows scope owner session kind text s (inl call, t) ready same idle =
      unfold Grows in inl (ap (λ (u : ChatState J). u.runs) same)
  active-Grows scope owner session kind text s (inr (some r), t) ready same idle =
      unfold Grows in inl (ap (λ (u : ChatState J). u.runs) same)
  active-Grows scope owner session kind text s (inr none, t) ready same idle =
      let before : Keeps s t = record {
        runs = ap (λ (u : ChatState J). u.runs) same;
        ready = ap (λ (u : ChatState J). u.initialized) same ∙ ready;
      } in
      let resolved = resolve_or_create_chat_session v.resolve v.session_id scope owner session t in
      resolved-Grows scope owner kind text s resolved (idle refl) (
        Keeps-trans s t resolved.1 before
          (resolve-Keeps v.resolve v.session_id scope owner session t before.ready))

  enqueue_chat_run-Grows :
      (scope owner session : String) (kind : ChatRunKind) (text : String) (q : Queue J)
      → q.state.initialized ≡ true
      → Grows v.run_id scope owner q.state
          (enqueue_chat_run json v scope owner session kind text q).1.state
  unfolding enqueue_chat_run
  enqueue_chat_run-Grows scope owner session kind text q ready =
      let (same, idle) = active_run_for_scope-ready v.active scope owner q.state ready in
      elim (Bool-cases q.poisoned) [
        | inl poisoned ↦ rw poisoned (unfold Grows in inl refl)
        | inr free ↦ rw free (
            active-Grows scope owner session kind text q.state
              (active_run_for_scope v.active scope owner q.state) ready same idle)
      ]

  pub enqueue_chat_run-IsSingle :
      (scope owner session : String) (kind : ChatRunKind) (text : String) (q : Queue J)
      → q.state.initialized ≡ true
      → lookup v.run_id q.state.runs ≡ none
      → IsSingle q.state.runs
      → IsSingle (enqueue_chat_run json v scope owner session kind text q).1.state.runs
  enqueue_chat_run-IsSingle scope owner session kind text q ready absent single =
      Grows-IsSingle v.run_id scope owner q.state
        (enqueue_chat_run json v scope owner session kind text q).1.state absent
        (enqueue_chat_run-Grows scope owner session kind text q ready) single

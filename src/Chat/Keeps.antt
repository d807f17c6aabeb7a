-- ===== src/Chat/Keeps.antt =====
-- The operations on the chat stores that leave the runs as they are, after the start.
use ai_agent_sandbox_bluepri.Base.{
  ◌≡◌, refl, ◌∙◌, String, Bool, true, false, Option, none, some, List, [], ◌∷◌, inl, inr, ◌⊎◌,
  if◌then◌else◌, string_eq, arith, Bool-cases, Option-cases, subst, some-inj, last,
}
use ai_agent_sandbox_bluepri.Base.Text.{trim_text, is_empty_text}
use ai_agent_sandbox_bluepri.Chat.{
  ChatMessageRecord, ChatSessionRecord, ChatRunRecord, ChatState, StoreCall, Surroundings, Step,
  ◌>>=◌, session_store, update_session, gets_session, gets_run, writes_session,
}
use ai_agent_sandbox_bluepri.Chat.Steps.{session_store-cases, run_store-cases}
use ai_agent_sandbox_bluepri.Chat.Sessions.{create_session, get_session, sender_for_session}
use ai_agent_sandbox_bluepri.Chat.Messages.{Json, append_message}
use ai_agent_sandbox_bluepri.Chat.Runs.{get_run}
use ai_agent_sandbox_bluepri.Chat.Enqueue.{
  Visit, Answer, queues, maybe_auto_title_session, emit_event, emit_parts, publish_chat_message,
  resolve_or_create_chat_session, emit_last_message, announce, auto_title, with_title, user_message,
}

-- The runs are as they were, and the start is done.
pub record Keeps {J : Type 0} (s t : ChatState J) : Type 0 where
  pub runs : t.runs ≡ s.runs
  pub ready : t.initialized ≡ true

pub Keeps-trans : {J : Type 0} (s t u : ChatState J) → Keeps s t → Keeps t u → Keeps s u
Keeps-trans s t u a b = record { runs = b.runs ∙ a.runs; ready = b.ready }

module _ {J : Type 0} (x : Surroundings) where
  -- A step that opens the store of the sessions first.
  pub session_store-Keeps :
      {A : Type 0} (next : Unit {0} → Step J A) (s : ChatState J)
      → s.initialized ≡ true
      → Keeps s (next tt s).1
      → Keeps s ((session_store x >>= next) s).1
  session_store-Keeps next s ready h = elim (session_store-cases x s ready) [
    | inl (c, shut) ↦ rw shut (record { runs = refl; ready = ready })
    | inr opened ↦ rw opened h
  ]

  pub update_session-Keeps :
      (id : String) (f : ChatSessionRecord J → ChatSessionRecord J) (s : ChatState J)
      → s.initialized ≡ true
      → Keeps s (update_session x id f s).1
  unfolding update_session
  update_session-Keeps id f s ready = elim (Bool-cases (x.fails (writes_session id))) [
    | inl broken ↦ rw broken (record { runs = refl; ready = ready })
    | inr works ↦ rw works (record { runs = refl; ready = ready })
  ]

  pub get_session-Keeps :
      (id : String) (s : ChatState J) → s.initialized ≡ true → Keeps s (get_session x id s).1
  unfolding get_session
  get_session-Keeps id s ready =
      session_store-Keeps _ s ready (elim (Bool-cases (x.fails (gets_session id))) [
        | inl broken ↦ rw broken (record { runs = refl; ready = ready })
        | inr works ↦ rw works (record { runs = refl; ready = ready })
      ])

  pub create_session-Keeps :
      (fresh scope owner : String) (title : Option String) (s : ChatState J)
      → s.initialized ≡ true
      → Keeps s (create_session x fresh scope owner title s).1
  unfolding create_session
  create_session-Keeps fresh scope owner title s ready =
      session_store-Keeps _ s ready (elim (Bool-cases (x.fails (writes_session fresh))) [
        | inl broken ↦ rw broken (record { runs = refl; ready = ready })
        | inr works ↦ rw works (record { runs = refl; ready = ready })
      ])

  pub append_message-Keeps :
      (id : String) (m : ChatMessageRecord J) (s : ChatState J)
      → s.initialized ≡ true
      → Keeps s (append_message x id m s).1
  unfolding append_message
  append_message-Keeps id m s ready =
      session_store-Keeps _ s ready (update_session-Keeps id _ s ready)

  pub emit_event-Keeps :
      (id : String) (s : ChatState J) → s.initialized ≡ true → Keeps s (emit_event x id s)
  unfolding emit_event sender_for_session
  emit_event-Keeps id s ready = record { runs = ground arith; ready = ground (arith, ready) }

  pub emit_parts-Keeps :
      (json : Json J) (id : String) (ps : List J) (s : ChatState J)
      → s.initialized ≡ true
      → Keeps s (emit_parts json x id ps s)
  unfolding emit_parts
  emit_parts-Keeps json id [] s ready = record { runs = refl; ready = ready }
  emit_parts-Keeps json id (p ∷ ps) s ready = elim (Bool-cases (json.is_object p)) [
    | inl object ↦
        let sent = emit_event-Keeps id s ready in
        rw object
          (Keeps-trans s _ _ sent (emit_parts-Keeps json id ps (emit_event x id s) sent.ready))
    | inr other ↦ rw other (emit_parts-Keeps json id ps s ready)
  ]

  pub publish_chat_message-Keeps :
      (id : String) (m : ChatMessageRecord J) (s : ChatState J)
      → s.initialized ≡ true
      → Keeps s (publish_chat_message x id m s)
  unfolding publish_chat_message
  publish_chat_message-Keeps id m s ready =
      let said = append_message-Keeps id m s ready in
      let sent =
        Keeps-trans s _ _ said (emit_event-Keeps id (append_message x id m s).1 said.ready) in
      record { runs = ground (arith, sent.runs); ready = ground (arith, ready, sent.ready) }

  pub get_run-Keeps :
      (id : String) (s : ChatState J) → s.initialized ≡ true → Keeps s (get_run x id s).1
  unfolding get_run
  get_run-Keeps id s ready = elim (run_store-cases x s ready) [
    | inl (c, shut) ↦ rw shut (record { runs = refl; ready = ready })
    | inr opened ↦ elim (Bool-cases (x.fails (gets_run id))) [
      | inl broken ↦ rw (opened, broken) (record { runs = refl; ready = ready })
      | inr works ↦ rw (opened, works) (record { runs = refl; ready = ready })
    ]
  ]

  pub resolve-Keeps :
      (fresh scope owner id : String) (s : ChatState J)
      → s.initialized ≡ true
      → Keeps s (resolve_or_create_chat_session x fresh scope owner id s).1
  unfolding resolve_or_create_chat_session
  resolve-Keeps fresh scope owner id s ready =
      let made = create_session-Keeps fresh scope owner (some "New Chat") s ready in
      let found = get_session-Keeps id s ready in
      record {
        runs = ground (arith, made.runs, found.runs);
        ready = ground (arith, made.ready, found.ready);
      }

  titled-Keeps :
      (id : String) (s : ChatState J) (p : (StoreCall ⊎ Bool) × ChatState J) (empty : Bool)
      (title : Option String)
      → s.initialized ≡ true
      → (if empty then some (inr false, s) else elim title [
        | none ↦ none
        | some t ↦ some ((session_store x >>= λ open_. update_session x id (with_title x.now t)) s)
      ])
        ≡ some p
      → Keeps s p.1
  titled-Keeps id s p true title ready h =
      subst (λ q. Keeps s q.1) (some-inj h) (record { runs = refl; ready = ready })
  titled-Keeps id s p false none ready h = ground (arith, h)
  titled-Keeps id s p false (some t) ready h =
      subst (λ q. Keeps s q.1) (some-inj h)
        (session_store-Keeps _ s ready (update_session-Keeps id (with_title x.now t) s ready))

  pub maybe_auto_title_session-Keeps :
      (id text : String) (s : ChatState J) (p : (StoreCall ⊎ Bool) × ChatState J)
      → s.initialized ≡ true
      → maybe_auto_title_session x id text s ≡ some p
      → Keeps s p.1
  unfolding maybe_auto_title_session
  maybe_auto_title_session-Keeps id text s p ready h =
      titled-Keeps id s p (is_empty_text (trim_text text)) (auto_title (trim_text text)) ready h

module _ {J : Type 0} (json : Json J) (v : Visit J) where
  emit_last_message-Keeps :
      (id : String) (s : ChatState J)
      → s.initialized ≡ true
      → Keeps s (emit_last_message json v id s)
  unfolding emit_last_message
  emit_last_message-Keeps id s ready =
      shown (get_session v.reread id s) (get_session-Keeps v.reread id s ready)
    where
      shown :
          (p : (StoreCall ⊎ Option (ChatSessionRecord J)) × ChatState J)
          → Keeps s p.1
          → Keeps s (elim p.0 [
            | inl call ↦ p.1
            | inr none ↦ p.1
            | inr (some c) ↦ elim (last c.messages) [
              | none ↦ p.1
              | some m ↦ emit_parts json v.emits id m.parts (emit_event v.emits id p.1)
            ]
          ])
      shown (inl call, t) kept = kept
      shown (inr none, t) kept = kept
      shown (inr (some c), t) kept = elim (Option-cases (last c.messages)) [
        | inl e ↦ rw e kept
        | inr (m, e) ↦
            let sent = Keeps-trans s t _ kept (emit_event-Keeps v.emits id t kept.ready) in
            rw e (
              Keeps-trans s _ _ sent
                (emit_parts-Keeps v.emits json id m.parts (emit_event v.emits id t) sent.ready))
      ]

  requeued-Keeps :
      (session : ChatSessionRecord J) (run : ChatRunRecord) (s : ChatState J)
      (p : (StoreCall ⊎ Option ChatRunRecord) × ChatState J)
      → Keeps s p.1
      → Keeps s
          (elim p.0 as (λ x. Answer J × ChatState J) [
            | inl call ↦ (queues session run, p.1)
            | inr none ↦ (queues session run, p.1)
            | inr (some r) ↦ (queues session r, emit_event v.emits session.id p.1)
          ]).1
  requeued-Keeps session run s (inl call, t) kept = kept
  requeued-Keeps session run s (inr none, t) kept = kept
  requeued-Keeps session run s (inr (some r), t) kept =
      Keeps-trans s t (emit_event v.emits session.id t) kept
        (emit_event-Keeps v.emits session.id t kept.ready)

  shown-Keeps :
      (session : ChatSessionRecord J) (m : ChatMessageRecord J) (s : ChatState J)
      → s.initialized ≡ true
      → Keeps s
          (emit_last_message json v session.id (publish_chat_message v.publish session.id m s))
  shown-Keeps session m s ready =
      let t : ChatState J = publish_chat_message v.publish session.id m s in
      let said = publish_chat_message-Keeps v.publish session.id m s ready in
      Keeps-trans s t (emit_last_message json v session.id t) said
        (emit_last_message-Keeps session.id t said.ready)

  pub announce-Keeps :
      (session : ChatSessionRecord J) (run : ChatRunRecord) (text : String) (s : ChatState J)
      → s.initialized ≡ true
      → Keeps s (announce json v session run text s).1
  unfolding announce
  announce-Keeps session run text s ready =
      let m : ChatMessageRecord J = user_message json v run text in
      let t : ChatState J =
        emit_last_message json v session.id (publish_chat_message v.publish session.id m s) in
      let shown = shown-Keeps session m s ready in
      requeued-Keeps session run s (get_run v.requeue run.id t) (
        Keeps-trans s t (get_run v.requeue run.id t).1 shown
          (get_run-Keeps v.requeue run.id t shown.ready))

-- ===== src/Chat/Found.antt =====
-- The run that `resolve_chat_run` of operator_api/chat.rs answers is the stored one.
use ai_agent_sandbox_bluepri.Base.{
  ◌≡◌, refl, ◌∙◌, sym, ap, String, true, ◌&&◌, Option, none, some, inl, inr, ◌⊎◌, if◌then◌else◌,
  ◌==◌, string_eq, arith, Bool-cases,
}
use ai_agent_sandbox_bluepri.Base.Text.{eq_ignore_ascii_case}
use ai_agent_sandbox_bluepri.Base.Map.{lookup}
use ai_agent_sandbox_bluepri.Chat.{
  ChatSessionRecord, ChatRunRecord, ChatState, StoreCall, Surroundings, gets_run,
}
use ai_agent_sandbox_bluepri.Chat.Steps.{run_store-cases}
use ai_agent_sandbox_bluepri.Chat.Sessions.{session_matches, get_session}
use ai_agent_sandbox_bluepri.Chat.Runs.{get_run}
use ai_agent_sandbox_bluepri.Chat.Keeps.{Keeps, Keeps-trans, get_session-Keeps, get_run-Keeps}
use ai_agent_sandbox_bluepri.Chat.Cancel.{
  Cancellation, CancelError, store_failed, no_run, no_session, resolve_chat_run,
}

module _ {J : Type 0} (c : Cancellation) where
  -- The answer of `resolve_chat_run` is the run that is stored under the id.
  unfoldable pub IsFound :
      String
      → ChatState J
      → (CancelError ⊎ (ChatSessionRecord J × ChatRunRecord)) × ChatState J
      → Type 0
  IsFound run_id s p =
      Keeps s p.1
      × ((session : ChatSessionRecord J) (run : ChatRunRecord)
          → p.0 ≡ inr (session, run)
          → lookup run_id s.runs ≡ some run)

  get_run-found :
      (x : Surroundings) (id : String) (s : ChatState J) (r : ChatRunRecord)
      → s.initialized ≡ true
      → (get_run x id s).0 ≡ inr (some r)
      → lookup id s.runs ≡ some r
  unfolding get_run
  get_run-found x id s r ready h = elim (run_store-cases x s ready) [
    | inl (call, shut) ↦ ground (arith, shut, h)
    | inr opened ↦ elim (Bool-cases (x.fails (gets_run id))) [
      | inl broken ↦ ground (arith, opened, broken, h)
      | inr works ↦ ground (arith, opened, works, h)
    ]
  ]

  run-IsFound :
      (scope owner run_id : String) (session : ChatSessionRecord J) (s : ChatState J)
      (q : (StoreCall ⊎ Option ChatRunRecord) × ChatState J)
      → Keeps s q.1
      → ((r : ChatRunRecord) → q.0 ≡ inr (some r) → lookup run_id s.runs ≡ some r)
      → IsFound run_id s
          (elim q.0 as (λ z. (CancelError ⊎ (ChatSessionRecord J × ChatRunRecord)) × ChatState J) [
            | inl call ↦ (inl store_failed, q.1)
            | inr none ↦ (inl no_run, q.1)
            | inr (some run) ↦
                if run.session_id == session.id
                  && run.scope_id == scope
                  && eq_ignore_ascii_case run.owner owner
                then (inr (session, run), q.1)
                else (inl no_run, q.1)
          ])
  unfolding IsFound
  run-IsFound scope owner run_id session s (inl call, u) h found =
      (h, λ session2 run2 e. ground (arith, e))
  run-IsFound scope owner run_id session s (inr none, u) h found =
      (h, λ session2 run2 e. ground (arith, e))
  run-IsFound scope owner run_id session s (inr (some r), u) h found =
      elim (Bool-cases
        (r.session_id == session.id && r.scope_id == scope && eq_ignore_ascii_case r.owner owner)) [
          | inl right ↦ rw right (h, λ session2 run2 e. ground (arith, e, found r refl))
          | inr wrong ↦ rw wrong (h, λ session2 run2 e. ground (arith, e))
        ]

  session-IsFound :
      (scope owner run_id : String) (s : ChatState J)
      (p : (StoreCall ⊎ Option (ChatSessionRecord J)) × ChatState J)
      → Keeps s p.1
      → IsFound run_id s
          (elim p.0 as (λ z. (CancelError ⊎ (ChatSessionRecord J × ChatRunRecord)) × ChatState J) [
            | inl call ↦ (inl store_failed, p.1)
            | inr none ↦ (inl no_session, p.1)
            | inr (some session) ↦
                if session_matches session scope owner
                then (let (got, u) = get_run c.run run_id p.1 in
                    elim got [
                      | inl call ↦ (inl store_failed, u)
                      | inr none ↦ (inl no_run, u)
                      | inr (some run) ↦
                          if run.session_id == session.id
                            && run.scope_id == scope
                            && eq_ignore_ascii_case run.owner owner
                          then (inr (session, run), u)
                          else (inl no_run, u)
                    ])
                else (inl no_session, p.1)
          ])
  session-IsFound scope owner run_id s (inl call, t) h =
      unfold IsFound in (h, λ session run e. ground (arith, e))
  session-IsFound scope owner run_id s (inr none, t) h =
      unfold IsFound in (h, λ session run e. ground (arith, e))
  session-IsFound scope owner run_id s (inr (some session), t) h =
      elim (Bool-cases (session_matches session scope owner)) [
        | inr other ↦ rw other (unfold IsFound in (h, λ session2 run e. ground (arith, e)))
        | inl right ↦
            let q = get_run c.run run_id t in
            rw right (
              run-IsFound scope owner run_id session s q
                (Keeps-trans s t q.1 h (get_run-Keeps c.run run_id t h.ready))
                (λ r e. ap (lookup run_id) (sym h.runs) ∙ get_run-found c.run run_id t r h.ready e))
      ]

  pub resolve_chat_run-IsFound :
      (scope owner session_id run_id : String) (s : ChatState J)
      → s.initialized ≡ true
      → IsFound run_id s (resolve_chat_run c scope owner session_id run_id s)
  unfolding resolve_chat_run
  resolve_chat_run-IsFound scope owner session_id run_id s ready =
      session-IsFound scope owner run_id s (get_session c.session session_id s)
        (get_session-Keeps c.session session_id s ready)

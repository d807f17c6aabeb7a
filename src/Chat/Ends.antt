-- ===== src/Chat/Ends.antt =====
-- The mark, the end and the events of a cancelled run add no active run.
use ai_agent_sandbox_bluepri.Base.{
  ◌≡◌, String, Bool, true, false, Option, none, some, inl, inr, ◌⊎◌, string_eq, arith,
}
use ai_agent_sandbox_bluepri.Base.Map.{lookup}
use ai_agent_sandbox_bluepri.Chat.{ChatRunRecord, ChatState, StoreCall, is_active}
use ai_agent_sandbox_bluepri.Chat.Sessions.{clear_session_active_run}
use ai_agent_sandbox_bluepri.Chat.Runs.{Report, get_run, update_run, append_run_progress}
use ai_agent_sandbox_bluepri.Chat.Enqueue.{emit_event}
use ai_agent_sandbox_bluepri.Chat.Keeps.{Keeps, Keeps-trans, get_run-Keeps, emit_event-Keeps}
use ai_agent_sandbox_bluepri.Chat.Cancel.{
  Cancellation, CancelError, store_failed, no_run, mark_cancelling, mark_cancelled, publish_run,
  finalize_cancelled_chat_run, request_cancel,
}
use ai_agent_sandbox_bluepri.Chat.Shrinks.{
  Shrinks, Keeps-Shrinks, Shrinks-trans, update_run-Shrinks, clear_session_active_run-Keeps,
  append_run_progress-Keeps,
}

module _ {J : Type 0} (c : Cancellation) where
  told-Keeps :
      {A : Type 0} (session : String) (s : ChatState J) (p : (StoreCall ⊎ Option A) × ChatState J)
      → Keeps s p.1
      → Keeps s (elim p.0 as (λ z. ChatState J) [
        | inl call ↦ p.1
        | inr none ↦ p.1
        | inr (some entry) ↦ emit_event c.events session p.1
      ])
  told-Keeps session s (inl call, t) h = h
  told-Keeps session s (inr none, t) h = h
  told-Keeps session s (inr (some entry), t) h =
      Keeps-trans s t (emit_event c.events session t) h
        (emit_event-Keeps c.events session t h.ready)

  publish_run-Keeps :
      (session : String) (e : Report) (s : ChatState J)
      → s.initialized ≡ true
      → Keeps s (publish_run c session e s)
  unfolding publish_run
  publish_run-Keeps session e s ready =
      let t = emit_event c.events session s in
      let sent = emit_event-Keeps c.events session s ready in
      let p = append_run_progress c.progress session e t in
      told-Keeps session s p
        (Keeps-trans s t p.1 sent (append_run_progress-Keeps c.progress session e t sent.ready))

  -- A read of the run, and what is told where it is there.
  reread-Keeps :
      (session : String) (report : ChatRunRecord → Report) (s : ChatState J)
      (p : (StoreCall ⊎ Option ChatRunRecord) × ChatState J)
      → Keeps s p.1
      → Keeps s (elim p.0 as (λ z. ChatState J) [
        | inl call ↦ p.1
        | inr none ↦ p.1
        | inr (some r) ↦ publish_run c session (report r) p.1
      ])
  reread-Keeps session report s (inl call, t) h = h
  reread-Keeps session report s (inr none, t) h = h
  reread-Keeps session report s (inr (some r), t) h =
      Keeps-trans s t (publish_run c session (report r) t) h
        (publish_run-Keeps session (report r) t h.ready)

  pub request_cancel-Shrinks :
      (session run : String) (s : ChatState J)
      → s.initialized ≡ true
      → ((r : ChatRunRecord) → lookup run s.runs ≡ some r → is_active r.status ≡ true)
      → Shrinks s (request_cancel c session run s)
  unfolding request_cancel
  request_cancel-Shrinks session run s ready active =
      let t = (update_run c.mark run (mark_cancelling c.mark.now) s).1 in
      let marked =
        update_run-Shrinks c.mark run (mark_cancelling c.mark.now) s ready
          (λ scope owner r found h. unfold mark_cancelling in ground (arith, h, active r found)) in
      let p = get_run c.reread run t in
      let told =
        reread-Keeps session
          (λ r. record {
            run_id = r.id;
            status = r.status;
            phase = "cancelling";
            message = "Cancellation requested. Stopping the active run.";
          })
          t p (get_run-Keeps c.reread run t marked.ready) in
      Shrinks-trans s t _ marked (Keeps-Shrinks t _ told)

  ended-Keeps :
      (session : String) (s : ChatState J) (p : (StoreCall ⊎ Option ChatRunRecord) × ChatState J)
      (q : ChatRunRecord → ChatState J)
      → Keeps s p.1
      → ((r : ChatRunRecord) → Keeps p.1 (q r))
      → Keeps s
          (elim p.0 as (λ z. (CancelError ⊎ ChatRunRecord) × ChatState J) [
            | inl call ↦ (inl store_failed, p.1)
            | inr none ↦ (inl store_failed, p.1)
            | inr (some r) ↦ (inr r, q r)
          ]).1
  ended-Keeps session s (inl call, t) q h rest = h
  ended-Keeps session s (inr none, t) q h rest = h
  ended-Keeps session s (inr (some r), t) q h rest = Keeps-trans s t (q r) h (rest r)

  -- The state after the run is marked as cancelled.
  after_mark : String → String → ChatState J → (CancelError ⊎ ChatRunRecord) × ChatState J
  after_mark session run t =
      let cleared = (clear_session_active_run c.clear session t).1 in
      let (got, u) = get_run c.final run cleared in
      elim got [
        | inl call ↦ (inl store_failed, u)
        | inr none ↦ (inl store_failed, u)
        | inr (some r) ↦
            let told =
              publish_run c session
                (record {
                  run_id = r.id;
                  status = r.status;
                  phase = "cancelled";
                  message = "Run cancelled by user.";
                })
                u in
            (inr r, emit_event c.events session (emit_event c.events session told))
      ]

  after_mark-Keeps :
      (session run : String) (t : ChatState J)
      → t.initialized ≡ true
      → Keeps t (after_mark session run t).1
  unfolding after_mark
  after_mark-Keeps session run t ready =
      let cleared = (clear_session_active_run c.clear session t).1 in
      let clear = clear_session_active_run-Keeps c.clear session t ready in
      let p = get_run c.final run cleared in
      let got = Keeps-trans t cleared p.1 clear (get_run-Keeps c.final run cleared clear.ready) in
      ended-Keeps session t p _ got (λ r.
        let report : Report = record {
          run_id = r.id;
          status = r.status;
          phase = "cancelled";
          message = "Run cancelled by user.";
        } in
        let told = publish_run c session report p.1 in
        let tells = publish_run-Keeps session report p.1 got.ready in
        let once = emit_event c.events session told in
        let sends = emit_event-Keeps c.events session told tells.ready in
        Keeps-trans p.1 told (emit_event c.events session once) tells (
          Keeps-trans told once (emit_event c.events session once) sends
            (emit_event-Keeps c.events session once sends.ready)))

  marked-Shrinks :
      (session run : String) (s : ChatState J) (p : (StoreCall ⊎ Bool) × ChatState J)
      → Shrinks s p.1
      → Shrinks s
          (elim p.0 as (λ z. (CancelError ⊎ ChatRunRecord) × ChatState J) [
            | inl call ↦ (inl store_failed, p.1)
            | inr false ↦ (inl no_run, p.1)
            | inr true ↦ after_mark session run p.1
          ]).1
  marked-Shrinks session run s (inl call, t) h = h
  marked-Shrinks session run s (inr false, t) h = h
  marked-Shrinks session run s (inr true, t) h =
      Shrinks-trans s t (after_mark session run t).1 h
        (Keeps-Shrinks t (after_mark session run t).1 (after_mark-Keeps session run t h.ready))

  pub finalize-Shrinks :
      (session run text : String) (s : ChatState J)
      → s.initialized ≡ true
      → Shrinks s (finalize_cancelled_chat_run c session run text s).1
  unfolding finalize_cancelled_chat_run after_mark
  finalize-Shrinks session run text s ready =
      marked-Shrinks session run s
        (update_run c.finalize run (mark_cancelled c.finalize.now text) s)
        (update_run-Shrinks c.finalize run (mark_cancelled c.finalize.now text) s ready
          (λ scope owner r found h. unfold mark_cancelled in ground (arith, h)))

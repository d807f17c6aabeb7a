-- ===== src/Chat/Exclusion.antt =====
-- The calls of the queue of operator_api/ leave at most one active run of a scope and an owner.
use ai_agent_sandbox_bluepri.Base.{
  ◌≡◌, refl, ◌∙◌, sym, ap, String, true, not, ◌||◌, none, some, inl, inr, ◌⊎◌, if◌then◌else◌,
  string_eq, arith, Bool-cases,
}
use ai_agent_sandbox_bluepri.Base.Map.{lookup}
use ai_agent_sandbox_bluepri.Chat.{ChatSessionRecord, ChatRunRecord, ChatState, is_active}
use ai_agent_sandbox_bluepri.Chat.Restart.{IsKeyed}
use ai_agent_sandbox_bluepri.Chat.Grows.{IsSingle}
use ai_agent_sandbox_bluepri.Chat.Cancel.{
  Cancellation, CancelError, not_active, is_cancelled, is_run, resolve_chat_run,
  finalize_cancelled_chat_run, request_cancel, cancel_chat_run,
}
use ai_agent_sandbox_bluepri.Chat.Shrinks.{Shrinks, Keeps-Shrinks, Shrinks-trans, lookup-IsKeyed}
use ai_agent_sandbox_bluepri.Chat.Ends.{request_cancel-Shrinks, finalize-Shrinks}
use ai_agent_sandbox_bluepri.Chat.Found.{IsFound, resolve_chat_run-IsFound}
use ai_agent_sandbox_bluepri.Chat.{ChatRunKind}
use ai_agent_sandbox_bluepri.Chat.Messages.{Json}
use ai_agent_sandbox_bluepri.Chat.Enqueue.{Visit, Queue, enqueue_chat_run}
use ai_agent_sandbox_bluepri.Chat.Single.{enqueue_chat_run-IsSingle}

module _ {J : Type 0} (c : Cancellation) where
  cancelled-Shrinks :
      (s : ChatState J) (run_id : String)
      (p : (CancelError ⊎ (ChatSessionRecord J × ChatRunRecord)) × ChatState J)
      → IsKeyed s.runs
      → IsFound c run_id s p
      → Shrinks s
          (elim p.0 as (λ z. (CancelError ⊎ ChatRunRecord) × ChatState J) [
            | inl e ↦ (inl e, p.1)
            | inr (session, run) ↦
                if is_cancelled run.status || not (is_active run.status)
                then (inr run, p.1)
                else if is_run session.active_run_id run.id
                then finalize_cancelled_chat_run c session.id run.id "Run cancelled by user."
                    (request_cancel c session.id run.id p.1)
                else (inl not_active, p.1)
          ]).1
  unfolding IsFound
  cancelled-Shrinks s run_id (inl e, t) keyed (h, found) = Keeps-Shrinks s t h
  cancelled-Shrinks s run_id (inr (session, run), t) keyed (h, found) =
      let stay = Keeps-Shrinks s t h in
      elim (Bool-cases (is_cancelled run.status || not (is_active run.status))) [
        | inl ended ↦ rw ended stay
        | inr live ↦ elim (Bool-cases (is_run session.active_run_id run.id)) [
          | inr other ↦ rw (live, other) stay
          | inl mine ↦
              let at_id = found session run refl in
              let key : run.id ≡ run_id = lookup-IsKeyed run_id s.runs run keyed at_id in
              let active : (r : ChatRunRecord)
                  → lookup run.id t.runs ≡ some r
                  → is_active r.status ≡ true =
                λ r e.
                  let same : some run ≡ some r =
                    sym at_id
                    ∙ ap (λ k. lookup k s.runs) (sym key)
                    ∙ ap (lookup run.id) (sym h.runs)
                    ∙ e in
                  ground (arith, same, live) in
              let u = request_cancel c session.id run.id t in
              let asked = request_cancel-Shrinks c session.id run.id t h.ready active in
              rw (live, mine)
                (Shrinks-trans s t _ stay (
                  Shrinks-trans t u _ asked
                    (finalize-Shrinks c session.id run.id "Run cancelled by user." u asked.ready)))
        ]
      ]

  cancel_chat_run-IsSingle :
      (scope owner session_id run_id : String) (s : ChatState J)
      → s.initialized ≡ true
      → IsKeyed s.runs
      → IsSingle s.runs
      → IsSingle (cancel_chat_run c scope owner session_id run_id s).1.runs
  unfolding cancel_chat_run
  cancel_chat_run-IsSingle scope owner session_id run_id s ready keyed single =
      let resolved = resolve_chat_run c scope owner session_id run_id s in
      let shrinks =
        cancelled-Shrinks s run_id resolved keyed
          (resolve_chat_run-IsFound c scope owner session_id run_id s ready) in
      λ scope2 owner2. omega (arith, shrinks.fewer scope2 owner2, single scope2 owner2)

-- A call on the queue. A cancellation does not take the lock: here it is one step, with no other call
-- between its reading of the run and its writes.
pub data QueueCall (J : Type 0) : Type 0 where
  enqueues : Visit J → (scope owner session : String) → ChatRunKind → (text : String) → QueueCall J
  cancels : Cancellation → (scope owner session run : String) → QueueCall J

unfoldable pub call_queue : {J : Type 0} → Json J → QueueCall J → Queue J → Queue J
unfolding enqueue_chat_run cancel_chat_run
call_queue json (enqueues v scope owner session kind text) q =
    (enqueue_chat_run json v scope owner session kind text q).1
call_queue json (cancels c scope owner session run) q = record q {
  state = (cancel_chat_run c scope owner session run q.state).1;
}

-- The id of a new run is not taken.
abbrev pub IsFresh : {J : Type 0} → QueueCall J → Queue J → Type 0
IsFresh (enqueues v scope owner session kind text) q = lookup v.run_id q.state.runs ≡ none
IsFresh (cancels c scope owner session run) q = Unit

-- Exclusion: a call of `enqueue_chat_run` or of `cancel_chat_run`, with no other call before it ends,
-- whatever it answers and whichever of its store calls fail, leaves at most one active run of each
-- scope and owner where there was at most one. The case of an owner's ASCII letters does not count. The start is done, the runs stand
-- under their ids, and the id of a new run is fresh.
pub call_queue-IsSingle :
    {J : Type 0} (json : Json J) (call : QueueCall J) (q : Queue J)
    → q.state.initialized ≡ true
    → IsKeyed q.state.runs
    → IsFresh call q
    → IsSingle q.state.runs
    → IsSingle (call_queue json call q).state.runs
unfolding call_queue
call_queue-IsSingle json (enqueues v scope owner session kind text) q ready keyed fresh single =
    enqueue_chat_run-IsSingle json v scope owner session kind text q ready fresh single
call_queue-IsSingle json (cancels c scope owner session run) q ready keyed fresh single =
    cancel_chat_run-IsSingle c scope owner session run q.state ready keyed single

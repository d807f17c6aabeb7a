-- ===== src/Chat/Shrinks.antt =====
-- Steps on the chat stores after which no scope and owner has more active runs.
use text.Mathlib.TextEquality.{eq_iff}
use ai_agent_sandbox_bluepri.Base.{
  ◌≤◌, ◌≡◌, refl, String, Bool, true, some, [], ◌∷◌, inl, inr, ◌==◌, string_eq, arith, count,
  Bool-cases,
}
use ai_agent_sandbox_bluepri.Base.Map.{Map, lookup, update, values}
use ai_agent_sandbox_bluepri.Chat.{
  ChatRunRecord, ChatState, Surroundings, writes_run, writes_session, update_run_entry,
}
use ai_agent_sandbox_bluepri.Chat.Steps.{run_store-cases}
use ai_agent_sandbox_bluepri.Chat.Restart.{IsKeyed}
use ai_agent_sandbox_bluepri.Chat.Sessions.{clear_session_active_run}
use ai_agent_sandbox_bluepri.Chat.Runs.{Report, is_active_for, update_run, append_run_progress}
use ai_agent_sandbox_bluepri.Chat.Keeps.{Keeps, session_store-Keeps, update_session-Keeps}

-- No scope and owner has more active runs, and the start is done.
pub record Shrinks {J : Type 0} (s t : ChatState J) : Type 0 where
  pub fewer :
      (scope owner : String)
      → count (is_active_for scope owner) (values t.runs)
        ≤ count (is_active_for scope owner) (values s.runs)
  pub ready : t.initialized ≡ true

pub Keeps-Shrinks : {J : Type 0} (s t : ChatState J) → Keeps s t → Shrinks s t
Keeps-Shrinks s t h = record { fewer = λ scope owner. rw h.runs (omega arith); ready = h.ready }

pub Shrinks-trans : {J : Type 0} (s t u : ChatState J) → Shrinks s t → Shrinks t u → Shrinks s u
Shrinks-trans s t u a b = record {
  fewer = λ scope owner. omega (arith, a.fewer scope owner, b.fewer scope owner);
  ready = b.ready;
}

pub lookup-IsKeyed :
    (k : String) (m : Map String ChatRunRecord) (r : ChatRunRecord)
    → IsKeyed m
    → lookup k m ≡ some r
    → r.id ≡ k
unfolding lookup
lookup-IsKeyed k [] r h found = ground (arith, found)
lookup-IsKeyed k ((j, q) ∷ m) r h found =
    ground (arith, eq_iff j k, h.0, found, lookup-IsKeyed k m r h.1)

count-update-le :
    (p : ChatRunRecord → Bool) (k : String) (f : ChatRunRecord → ChatRunRecord)
    (m : Map String ChatRunRecord)
    → ((r : ChatRunRecord) → lookup k m ≡ some r → p (f r) ≡ true → p r ≡ true)
    → count p (values (update k f m)) ≤ count p (values m)
unfolding update lookup
count-update-le p k f [] h = omega arith
count-update-le p k f ((j, q) ∷ m) h = elim (Bool-cases (j == k)) [
  | inl e ↦ rw e (ground (arith, h q (rw e refl)))
  | inr e ↦
      let rest = count-update-le p k f m (λ r found. h r (rw e found)) in
      rw e (ground (arith, rest))
]

module _ {J : Type 0} (x : Surroundings) where
  pub update_run-Shrinks :
      (k : String) (f : ChatRunRecord → ChatRunRecord) (s : ChatState J)
      → s.initialized ≡ true
      → ((scope owner : String) (r : ChatRunRecord)
          → lookup k s.runs ≡ some r
          → is_active_for scope owner (f r) ≡ true
          → is_active_for scope owner r ≡ true)
      → Shrinks s (update_run x k f s).1
  unfolding update_run update_run_entry
  update_run-Shrinks k f s ready h =
      let same : Shrinks s s = record { fewer = λ scope owner. omega arith; ready = ready } in
      elim (run_store-cases x s ready) [
        | inl (call, shut) ↦ rw shut same
        | inr opened ↦ elim (Bool-cases (x.fails (writes_run k))) [
          | inl broken ↦ rw (opened, broken) same
          | inr works ↦
              rw (opened, works)
                (record {
                  fewer = λ scope owner.
                      count-update-le (is_active_for scope owner) k f s.runs (h scope owner);
                  ready = ready;
                })
        ]
      ]

  pub clear_session_active_run-Keeps :
      (id : String) (s : ChatState J)
      → s.initialized ≡ true
      → Keeps s (clear_session_active_run x id s).1
  unfolding clear_session_active_run
  clear_session_active_run-Keeps id s ready =
      session_store-Keeps x _ s ready (update_session-Keeps x id _ s ready)

  pub append_run_progress-Keeps :
      (id : String) (e : Report) (s : ChatState J)
      → s.initialized ≡ true
      → Keeps s (append_run_progress x id e s).1
  unfolding append_run_progress
  append_run_progress-Keeps id e s ready =
      session_store-Keeps x _ s ready (elim (Bool-cases (x.fails (writes_session id))) [
        | inl broken ↦ rw broken (record { runs = refl; ready = ready })
        | inr works ↦ rw works (record { runs = refl; ready = ready })
      ])

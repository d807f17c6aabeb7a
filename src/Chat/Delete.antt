-- ===== src/Chat/Delete.antt =====
-- What `delete_session` of chat_state.rs removes.
use text.Mathlib.TextEquality.{eq_iff}
use ai_agent_sandbox_bluepri.Base.{
  ◌≡◌, ◌∙◌, ap, refl, String, Bool, true, false, not, ◌||◌, Option, none, some, inr, List, [], ◌∷◌,
  if◌then◌else◌, ◌==◌, string_eq, arith, retain, leb,
}
use ai_agent_sandbox_bluepri.Base.Map.{Map, IsMap, lookup, remove, values, kept, lookup-remove}
use ai_agent_sandbox_bluepri.Chat.{
  ChatRunRecord, ChatState, Surroundings, Step, and_then, attempt, writes_run, writes_session,
  lists_runs, locks_streams, run_store, session_store,
}
use ai_agent_sandbox_bluepri.Chat.Steps.{
  and_then-ok, attempt-ok, session_store-ready, run_store-ready,
}
use ai_agent_sandbox_bluepri.Chat.Restart.{IsKeyed}
use ai_agent_sandbox_bluepri.Chat.Sessions.{
  insert_sorted, sort_by, list_runs_for_session, remove_runs, delete_session,
}

-- A run with the id is among them.
abbrev has_id : String → List ChatRunRecord → Bool
has_id id [] = false
has_id id (r ∷ rs) = r.id == id || has_id id rs

has_id-insert_sorted :
    (before : ChatRunRecord → ChatRunRecord → Bool) (id : String) (r : ChatRunRecord)
    (rs : List ChatRunRecord)
    → has_id id (insert_sorted before r rs) ≡ (r.id == id || has_id id rs)
unfolding insert_sorted
has_id-insert_sorted before id r [] = refl
has_id-insert_sorted before id r (q ∷ qs) = ground (arith, has_id-insert_sorted before id r qs)

has_id-sort_by :
    (before : ChatRunRecord → ChatRunRecord → Bool) (id : String) (rs : List ChatRunRecord)
    → has_id id (sort_by before rs) ≡ has_id id rs
unfolding sort_by
has_id-sort_by before id [] = refl
has_id-sort_by before id (r ∷ rs) =
    ground
      (arith, has_id-insert_sorted before id r (sort_by before rs), has_id-sort_by before id rs)

-- The entry is there and passes the test.
abbrev passes : (ChatRunRecord → Bool) → Option ChatRunRecord → Bool
passes p none = false
passes p (some r) = p r

has_id-retain :
    (p : ChatRunRecord → Bool) (id : String) (m : Map String ChatRunRecord)
    → IsMap m
    → IsKeyed m
    → has_id id (retain p (values m)) ≡ passes p (lookup id m)
unfolding lookup
has_id-retain p id [] map keyed = refl
has_id-retain p id ((j, r) ∷ m) map keyed =
    ground (arith, eq_iff j id, eq_iff r.id id, keyed.0, map.0, has_id-retain p id m map.1 keyed.1)

-- The runs that `delete_session` removes.
abbrev runs_of : {J : Type 0} → String → ChatState J → List ChatRunRecord
runs_of id s =
    sort_by (λ a b. leb a.created_at b.created_at)
      (retain (λ r. r.session_id == id) (values s.runs))

module _ {J : Type 0} (x : Surroundings) where
  remove_runs-cons :
      (r : ChatRunRecord) (rs : List ChatRunRecord) (s : ChatState J)
      → (remove_runs x (r ∷ rs) s).0 ≡ inr tt
      → remove_runs x (r ∷ rs) s ≡ remove_runs x rs (record s { runs = remove r.id s.runs })
  unfolding remove_runs
  remove_runs-cons r rs s done =
      let step =
        attempt x (writes_run r.id) (λ t. (inr tt, record t { runs = remove r.id t.runs })) in
      let (u, first, next) = and_then-ok (step s) (λ removed. remove_runs x rs) tt done in
      ap (λ p. and_then p (λ removed. remove_runs x rs))
        (attempt-ok x (writes_run r.id) (λ t. (inr tt, record t { runs = remove r.id t.runs })) s u
          first)

  remove_runs-runs :
      (rs : List ChatRunRecord) (s : ChatState J) (k : String)
      → (remove_runs x rs s).0 ≡ inr tt
      → (lookup k (remove_runs x rs s).1.runs ≡ (if has_id k rs then none else lookup k s.runs))
        × ((remove_runs x rs s).1.sessions ≡ s.sessions)
        × ((remove_runs x rs s).1.streams ≡ s.streams)
        × ((remove_runs x rs s).1.initialized ≡ s.initialized)
  remove_runs-runs [] s k done = unfold remove_runs in (refl, refl, refl, refl)
  remove_runs-runs (r ∷ rs) s k done =
      let same = remove_runs-cons r rs s done in
      ground (
        arith,
        same,
        rw same at done,
        eq_iff r.id k,
        lookup-remove r.id k s.runs,
        remove_runs-runs rs (record s { runs = remove r.id s.runs }) k,
      )

  list_runs_for_session-ready :
      (id : String) (s : ChatState J) (rs : List ChatRunRecord)
      → s.initialized ≡ true
      → (list_runs_for_session x id s).0 ≡ inr rs
      → list_runs_for_session x id s ≡ (inr (runs_of id s), s)
  unfolding list_runs_for_session
  list_runs_for_session-ready id s rs ready h =
      let (u, first, next) = and_then-ok (run_store x s) _ rs h in
      let same = run_store-ready x s u ready first in
      rw same (attempt-ok x lists_runs (λ t. (inr (runs_of id t), t)) s rs (rw same at h))

  delete_session-ready :
      (id : String) (s : ChatState J)
      → s.initialized ≡ true
      → (delete_session x id s).0 ≡ inr tt
      → let t = remove_runs x (runs_of id s) s in
        (t.0 ≡ inr tt)
        × (delete_session x id s ≡ (
          inr tt,
          record t.1 { sessions = remove id t.1.sessions; streams = remove id t.1.streams },
        ))
  unfolding delete_session
  delete_session-ready id s ready done =
      let (rs, e1, n1) = and_then-ok (list_runs_for_session x id s) _ tt done in
      let listed = list_runs_for_session-ready id s rs ready e1 in
      let done2 = rw listed at done in
      let (u, e2, n2) = and_then-ok (run_store x s) _ tt done2 in
      let opened = run_store-ready x s u ready e2 in
      let done3 = rw opened at done2 in
      let (v, e3, n3) = and_then-ok (remove_runs x (runs_of id s) s) _ tt done3 in
      let t = (remove_runs x (runs_of id s) s).1 in
      let (r1, r2, r3, still) = remove_runs-runs (runs_of id s) s id e3 in
      let done4 = rw n3 at done3 in
      let (w, e4, n4) = and_then-ok (session_store x t) _ tt done4 in
      let reopened = session_store-ready x t w (still ∙ ready) e4 in
      let done5 = rw reopened at done4 in
      let unlist : Step J (Unit {0}) = λ a. (inr tt, record a { streams = remove id a.streams }) in
      let unlisted =
        attempt-ok x (writes_session id)
          (λ a. attempt x locks_streams unlist (record a { sessions = remove id a.sessions })) t tt
          done5 in
      let done6 = rw unlisted at done5 in
      let silent =
        attempt-ok x locks_streams unlist (record t { sessions = remove id t.sessions }) tt done6 in
      (e3, rw (listed, opened, n3, reopened, unlisted, silent) refl)

-- After the deletion of a session.
pub record IsDeleted {J : Type 0} (id : String) (s t : ChatState J) : Type 0 where
  pub runs : (k : String) → lookup k t.runs ≡ kept (λ r. not (r.session_id == id)) (lookup k s.runs)
  pub sessions :
      (k : String) → lookup k t.sessions ≡ (if id == k then none else lookup k s.sessions)
  pub streams : (k : String) → lookup k t.streams ≡ (if id == k then none else lookup k s.streams)

-- A deletion that succeeds, after the start, removes the session and its stream, exactly the runs of
-- the session, and nothing else. The runs stand under their ids, no id twice.
pub delete_session-IsDeleted :
    {J : Type 0} (x : Surroundings) (id : String) (s : ChatState J)
    → s.initialized ≡ true
    → IsMap s.runs
    → IsKeyed s.runs
    → (delete_session x id s).0 ≡ inr tt
    → IsDeleted id s (delete_session x id s).1
delete_session-IsDeleted x id s ready map keyed done =
    let (removed, same) = delete_session-ready x id s ready done in
    let t = (remove_runs x (runs_of id s) s).1 in
    rw same (record {
      runs = λ k. ground (
        arith,
        remove_runs-runs x (runs_of id s) s k removed,
        has_id-sort_by (λ a b. leb a.created_at b.created_at) k
            (retain (λ (r : ChatRunRecord). r.session_id == id) (values s.runs)),
        has_id-retain (λ (r : ChatRunRecord). r.session_id == id) k s.runs map keyed,
      );
      sessions = λ k.
          ground
            (arith, remove_runs-runs x (runs_of id s) s k removed, lookup-remove id k t.sessions);
      streams = λ k.
          ground
            (arith, remove_runs-runs x (runs_of id s) s k removed, lookup-remove id k t.streams);
    })

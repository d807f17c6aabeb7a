-- ===== src/Chat/Grows.antt =====
-- A run more, or none: the searches, the counts and the owners behind the exclusion of active runs.
use text.Mathlib.TextEquality.{eq_iff}
use text.Mathlib.TextPositions.{eq_refl}
use ai_agent_sandbox_bluepri.Base.{
  ℕ, ◌≤◌, ◌≡◌, refl, ◌∙◌, ap, String, Bool, true, none, some, List, [], ◌∷◌, inl, inr, ◌⊎◌,
  string_eq, arith, count, Bool-cases,
}
use ai_agent_sandbox_bluepri.Base.Text.{codes, same_codes, eq_ignore_ascii_case}
use ai_agent_sandbox_bluepri.Base.Map.{Map, lookup, insert, remove, values}
use ai_agent_sandbox_bluepri.Chat.{
  ChatSessionRecord, ChatRunRecord, ChatRunKind, ChatState, StoreCall, Surroundings, lists_runs,
  writes_run, session_store, update_session, and_then, ◌>>=◌,
}
use ai_agent_sandbox_bluepri.Chat.Steps.{run_store-cases}
use ai_agent_sandbox_bluepri.Chat.Runs.{
  new_run, find_run, is_active_for, create_run, active_run_for_scope,
}
use ai_agent_sandbox_bluepri.Chat.Keeps.{Keeps, session_store-Keeps, update_session-Keeps}

-- At most one run of each scope and owner is active.
abbrev pub IsSingle : Map String ChatRunRecord → Type 0
IsSingle runs = (scope owner : String) → count (is_active_for scope owner) (values runs) ≤ 1

-- The runs are as they were, or none of the scope and the owner was active and one of them is new.
unfoldable pub Grows : {J : Type 0} → String → String → String → ChatState J → ChatState J → Type 0
Grows fresh scope owner s t =
    (t.runs ≡ s.runs)
    ⊎ ((session : String) × (kind : ChatRunKind) × (text : String) × (now : ℕ) × (find_run
            (is_active_for scope owner) (values s.runs)
          ≡ none)
        × (t.runs ≡ insert fresh (new_run fresh session scope owner kind text now) s.runs))

find_run-count :
    (p : ChatRunRecord → Bool) (rs : List ChatRunRecord) → find_run p rs ≡ none → count p rs ≡ 0
unfolding find_run
find_run-count p [] h = refl
find_run-count p (r ∷ rs) h = ground (arith, find_run-count p rs)

remove-absent : (k : String) (m : Map String ChatRunRecord) → lookup k m ≡ none → remove k m ≡ m
unfolding lookup remove
remove-absent k [] h = refl
remove-absent k ((j, r) ∷ m) h = ground (arith, remove-absent k m)

same_codes_sym : (a b : List ℕ) → same_codes a b ≡ true → same_codes b a ≡ true
unfolding same_codes
same_codes_sym [] [] h = refl
same_codes_sym [] (b ∷ bs) h = h
same_codes_sym (a ∷ as_) [] h = h
same_codes_sym (a ∷ as_) (b ∷ bs) h = ground (arith, same_codes_sym as_ bs)

same_codes_trans :
    (a b c : List ℕ) → same_codes a b ≡ true → same_codes b c ≡ true → same_codes a c ≡ true
unfolding same_codes
same_codes_trans [] [] c h i = i
same_codes_trans [] (b ∷ bs) c h i = ground (arith, h)
same_codes_trans (a ∷ as_) [] c h i = ground (arith, h)
same_codes_trans (a ∷ as_) (b ∷ bs) [] h i = i
same_codes_trans (a ∷ as_) (b ∷ bs) (c ∷ cs) h i = ground (arith, same_codes_trans as_ bs cs)

same_codes_refl : (a : List ℕ) → same_codes a a ≡ true
unfolding same_codes
same_codes_refl [] = refl
same_codes_refl (a ∷ as_) = ground (arith, same_codes_refl as_)

new_run-is_active_for :
    (fresh session scope owner : String) (kind : ChatRunKind) (text : String) (now : ℕ)
    → is_active_for scope owner (new_run fresh session scope owner kind text now) ≡ true
unfolding new_run eq_ignore_ascii_case
new_run-is_active_for fresh session scope owner kind text now =
    ground (arith, eq_refl scope, same_codes_refl (codes owner))

-- A run that two owners and scopes both match makes them match the same runs.
is_active_for-same :
    (scope owner scope2 owner2 : String) (r q : ChatRunRecord)
    → is_active_for scope owner r ≡ true
    → is_active_for scope2 owner2 r ≡ true
    → is_active_for scope owner q ≡ true
    → is_active_for scope2 owner2 q ≡ true
unfolding eq_ignore_ascii_case
is_active_for-same scope owner scope2 owner2 r q a b c = ground (
  arith,
  eq_iff r.scope_id scope,
  eq_iff r.scope_id scope2,
  eq_iff q.scope_id scope,
  eq_iff q.scope_id scope2,
  same_codes_sym (codes r.owner) (codes owner),
  same_codes_trans (codes q.owner) (codes owner) (codes r.owner),
  same_codes_trans (codes q.owner) (codes r.owner) (codes owner2),
)

count-same :
    (p q : ChatRunRecord → Bool) (rs : List ChatRunRecord)
    → ((r : ChatRunRecord) → q r ≡ true → p r ≡ true)
    → count p rs ≡ 0
    → count q rs ≡ 0
count-same p q [] h none_p = refl
count-same p q (r ∷ rs) h none_p = ground (arith, h r, count-same p q rs h)

pub Grows-IsSingle :
    {J : Type 0} (fresh scope owner : String) (s t : ChatState J)
    → lookup fresh s.runs ≡ none
    → Grows fresh scope owner s t
    → IsSingle s.runs
    → IsSingle t.runs
unfolding Grows insert
Grows-IsSingle fresh scope owner s t absent (inl same) single = rw same single
Grows-IsSingle fresh scope owner s t absent (inr (session, kind, text, now, idle, grown)) single =
    λ scope2 owner2.
      let r = new_run fresh session scope owner kind text now in
      let rs = values s.runs in
      let same : t.runs ≡ (fresh, r) ∷ s.runs =
        grown ∙ ap (λ m. (fresh, r) ∷ m) (remove-absent fresh s.runs absent) in
      let bound : count (is_active_for scope2 owner2) (r ∷ rs) ≤ 1 =
        elim (Bool-cases (is_active_for scope2 owner2 r)) [
          | inl theirs ↦
              let none_yet =
                count-same (is_active_for scope owner) (is_active_for scope2 owner2) rs
                  (λ q.
                    is_active_for-same scope2 owner2 scope owner r q theirs
                      (new_run-is_active_for fresh session scope owner kind text now))
                  (find_run-count (is_active_for scope owner) rs idle) in
              rw (theirs, none_yet) (omega arith)
          | inr other ↦ rw other (single scope2 owner2)
        ] in
      rw same bound

and_then-last :
    {J A B : Type 0} (p : (StoreCall ⊎ A) × ChatState J) (b : B)
    → (and_then p (λ a u. (inr b, u))).1 ≡ p.1
and_then-last (inl call, s) b = refl
and_then-last (inr a, s) b = refl

module _ {J : Type 0} (x : Surroundings) where
  -- The search changes nothing, and where it finds no run there is none.
  pub active_run_for_scope-ready :
      (scope owner : String) (s : ChatState J)
      → s.initialized ≡ true
      → ((active_run_for_scope x scope owner s).1 ≡ s)
        × ((active_run_for_scope x scope owner s).0 ≡ inr none
            → find_run (is_active_for scope owner) (values s.runs) ≡ none)
  unfolding active_run_for_scope
  active_run_for_scope-ready scope owner s ready = elim (run_store-cases x s ready) [
    | inl (c, shut) ↦ rw shut (refl, λ h. ground (arith, h))
    | inr opened ↦ elim (Bool-cases (x.fails lists_runs)) [
      | inl broken ↦ rw (opened, broken) (refl, λ h. ground (arith, h))
      | inr works ↦ rw (opened, works) (refl, λ h. ground (arith, h))
    ]
  ]

  -- The new run is inserted, or nothing is.
  pub create_run-runs :
      (fresh session scope owner : String) (kind : ChatRunKind) (text : String) (s : ChatState J)
      → s.initialized ≡ true
      → ((create_run x fresh session scope owner kind text s).1.initialized ≡ true)
        × (((create_run x fresh session scope owner kind text s).1.runs ≡ s.runs)
            ⊎ ((create_run x fresh session scope owner kind text s).1.runs
                ≡ insert fresh (new_run fresh session scope owner kind text x.now) s.runs))
  unfolding create_run
  create_run-runs fresh session scope owner kind text s ready = elim (run_store-cases x s ready) [
    | inl (c, shut) ↦ rw shut (ready, inl refl)
    | inr opened ↦ elim (Bool-cases (x.fails (writes_run fresh))) [
      | inl broken ↦ rw (opened, broken) (ready, inl refl)
      | inr works ↦
          let run = new_run fresh session scope owner kind text x.now in
          let t : ChatState J = record s { runs = insert fresh run s.runs } in
          let f : ChatSessionRecord J → ChatSessionRecord J =
            λ c. record c { active_run_id = some fresh; updated_at = x.now } in
          let kept : Keeps t
              ((session_store x >>= λ open_. update_session x session f >>= λ found u. (inr run, u))
                t).1 =
            session_store-Keeps x (λ open_. update_session x session f >>= λ found u. (inr run, u))
              t ready
              (rw (and_then-last (update_session x session f t) run)
                (update_session-Keeps x session f t ready)) in
          rw (opened, works) (kept.ready, inr kept.runs)
    ]
  ]

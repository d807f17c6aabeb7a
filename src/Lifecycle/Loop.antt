-- ===== src/Lifecycle/Loop.antt =====
-- A loop over the records of the store whose body only changes the entry of its record.
use text.Mathlib.TextEquality.{eq_iff}
use ai_agent_sandbox_bluepri.Base.{
  some-inj, ◌≡◌, refl, ◌∙◌, sym, subst, String, string_eq, false, ◌&&◌, Option, none, some, List,
  [], ◌∷◌, arith, All, if◌then◌else◌, ◌==◌, Bool-cases, inl, inr,
}
use ai_agent_sandbox_bluepri.Base.Map.{
  Map, IsMap, lookup, remove, update, values, lookup-remove, lookup-update, remove-IsMap,
  update-IsMap,
}
use ai_agent_sandbox_bluepri.Sandbox.{SandboxRecord}
use ai_agent_sandbox_bluepri.Lifecycle.{World, Outside, write, change, forget, for_each}

-- Every record stands under its own id.
abbrev pub IsKeyed : Map String SandboxRecord → Type 0
IsKeyed = All (λ (e : String × SandboxRecord). e.0 ≡ e.1.id)

-- The store is a map of records under their ids.
abbrev pub IsStore : Map String SandboxRecord → Type 0
IsStore store = IsMap store × IsKeyed store

-- The body leaves the entries of the other ids.
abbrev pub IsLocal : (SandboxRecord → World → World) → Type 0
IsLocal body =
    (r : SandboxRecord) (w : World) (k : String)
    → (r.id == k) ≡ false
    → lookup k (body r w).store ≡ lookup k w.store

-- What becomes of the entry of a record is a function of the record.
abbrev pub HasFate :
    (SandboxRecord → World → World) → (SandboxRecord → Option SandboxRecord) → Type 0
HasFate body fate =
    (r : SandboxRecord) (w : World)
    → lookup r.id w.store ≡ some r
    → lookup r.id (body r w).store ≡ fate r

abbrev pub KeepsStore : (SandboxRecord → World → World) → Type 0
KeepsStore body = (r : SandboxRecord) (w : World) → IsStore w.store → IsStore (body r w).store

module _ (body : SandboxRecord → World → World) where
  for_each-other :
      (m : Map String SandboxRecord) (w : World) (k : String)
      → IsLocal body
      → IsKeyed m
      → lookup k m ≡ none
      → lookup k (for_each body (values m) w).store ≡ lookup k w.store
  unfolding for_each lookup
  for_each-other [] w k local keyed h = refl
  for_each-other ((j, r) ∷ m) w k local keyed h = elim (Bool-cases (j == k)) [
    | inl e ↦ ground (arith, e)
    | inr e ↦
        for_each-other m (body r w) k local keyed.1 (rw e at h) ∙ local r w k (rw keyed.0 at e)
  ]

  pub for_each-fate :
      (fate : SandboxRecord → Option SandboxRecord) (m : Map String SandboxRecord) (w : World)
      (r : SandboxRecord)
      → IsLocal body
      → HasFate body fate
      → IsStore m
      → lookup r.id m ≡ some r
      → lookup r.id w.store ≡ some r
      → lookup r.id (for_each body (values m) w).store ≡ fate r
  unfolding for_each lookup
  for_each-fate fate [] w r local own h m-r w-r = cc
  for_each-fate fate ((j, s) ∷ m) w r local own h m-r w-r = elim (Bool-cases (j == r.id)) [
    | inl e ↦
        subst
          (λ (first : SandboxRecord).
            lookup r.id (for_each body (values m) (body first w)).store ≡ fate r)
          (sym (some-inj (rw e at m-r)))
          (for_each-other m (body r w) r.id local h.1.1 (rw ((eq_iff j r.id).0 e) at (h.0.0))
            ∙ own r w w-r)
    | inr e ↦
        for_each-fate fate m (body s w) r local own (h.0.1, h.1.1) (rw e at m-r)
          (local s w r.id (rw h.1.0 at e) ∙ w-r)
  ]

  pub for_each-IsStore :
      (rs : List SandboxRecord) (w : World)
      → KeepsStore body
      → IsStore w.store
      → IsStore (for_each body rs w).store
  unfolding for_each
  for_each-IsStore [] w keeps h = h
  for_each-IsStore (r ∷ rs) w keeps h = for_each-IsStore rs (body r w) keeps (keeps r w h)

module _ (o : Outside) where
  pub lookup-change :
      (id k : String) (f : SandboxRecord → SandboxRecord) (w : World)
      → lookup k (change o id f w).store ≡ (
          if o.writes id && id == k
          then elim (lookup k w.store) [ none ↦ none | some r ↦ some (f r) ]
          else lookup k w.store)
  unfolding change write
  lookup-change id k f w = ground (arith, lookup-update id k f w.store)

  pub lookup-forget :
      (id k : String) (w : World)
      → lookup k (forget o id w).store ≡ (if o.writes id && id == k then none else lookup k w.store)
  unfolding forget write
  lookup-forget id k w = ground (arith, lookup-remove id k w.store)

update-IsKeyed :
    (id : String) (f : SandboxRecord → SandboxRecord) (m : Map String SandboxRecord)
    → ((r : SandboxRecord) → r.id ≡ (f r).id)
    → IsKeyed m
    → IsKeyed (update id f m)
unfolding update
update-IsKeyed id f [] same h = tt
update-IsKeyed id f ((j, r) ∷ m) same h = elim (Bool-cases (j == id)) [
  | inl e ↦ rw e (h.0 ∙ same r, h.1)
  | inr e ↦ rw e (h.0, update-IsKeyed id f m same h.1)
]

remove-IsKeyed : (id : String) (m : Map String SandboxRecord) → IsKeyed m → IsKeyed (remove id m)
unfolding remove
remove-IsKeyed id [] h = tt
remove-IsKeyed id ((j, r) ∷ m) h = elim (Bool-cases (j == id)) [
  | inl e ↦ rw e (remove-IsKeyed id m h.1)
  | inr e ↦ rw e (h.0, remove-IsKeyed id m h.1)
]

pub change-IsStore :
    (o : Outside) (id : String) (f : SandboxRecord → SandboxRecord) (w : World)
    → ((r : SandboxRecord) → r.id ≡ (f r).id)
    → IsStore w.store
    → IsStore (change o id f w).store
unfolding change write
change-IsStore o id f w same (is_map, keyed) = elim (Bool-cases (o.writes id)) [
  | inl e ↦ rw e (update-IsMap id f w.store is_map, update-IsKeyed id f w.store same keyed)
  | inr e ↦ rw e (is_map, keyed)
]

pub forget-IsStore :
    (o : Outside) (id : String) (w : World) → IsStore w.store → IsStore (forget o id w).store
unfolding forget write
forget-IsStore o id w (is_map, keyed) = elim (Bool-cases (o.writes id)) [
  | inl e ↦ rw e (remove-IsMap id w.store is_map, remove-IsKeyed id w.store keyed)
  | inr e ↦ rw e (is_map, keyed)
]

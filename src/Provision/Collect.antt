-- ===== src/Provision/Collect.antt =====
-- Which provisions the collection removes.
use ai_agent_sandbox_bluepri.Base.{
  ℕ, ◌-◌, ◌≡◌, refl, nat_eq, Bool, false, ◌&&◌, ◌||◌, not, Option, none, some, List, [], ◌∷◌,
  if◌then◌else◌, All, arith, ◌==◌, leb,
}
use ai_agent_sandbox_bluepri.Base.Map.{Map, IsMap, lookup, remove, values, kept, lookup-remove}
use ai_agent_sandbox_bluepri.Provision.{
  ProvisionStatus, is_stale, is_terminal, to_remove, remove_all, gc_provisions,
}

-- Every status stands under the id of its call.
abbrev pub IsKeyed : {J : Type 0} → Map ℕ (ProvisionStatus J) → Type 0
IsKeyed {J = J} = All (λ (e : ℕ × ProvisionStatus J). e.0 ≡ e.1.call_id)

abbrev elem : ℕ → List ℕ → Bool
elem k [] = false
elem k (j ∷ js) = (j == k) || elem k js

module _ {J : Type 0} where
  lookup-remove_all :
      (k : ℕ) (keys : List ℕ) (m : Map ℕ (ProvisionStatus J))
      → lookup k (remove_all keys m) ≡ (if elem k keys then none else lookup k m)
  unfolding remove_all
  lookup-remove_all k [] m = refl
  lookup-remove_all k (j ∷ js) m =
      ground (arith, lookup-remove_all k js (remove j m), lookup-remove j k m)

  -- The stale entry of a key, if there is one.
  abbrev stale_at : ℕ → Option (ProvisionStatus J) → Bool
  stale_at cutoff none = false
  stale_at cutoff (some s) = is_stale cutoff s

  elem-to_remove :
      (cutoff k : ℕ) (m : Map ℕ (ProvisionStatus J))
      → IsMap m
      → IsKeyed m
      → elem k (to_remove cutoff (values m)) ≡ stale_at cutoff (lookup k m)
  unfolding to_remove lookup
  elem-to_remove cutoff k [] h keyed = refl
  elem-to_remove cutoff k ((j, s) ∷ m) h keyed = ground (
    arith,
    keyed.0,
    h.0,
    elem-to_remove cutoff k m h.1 keyed.1,
    elem-to_remove cutoff j m h.1 keyed.1,
  )

  -- The collection removes exactly the finished provisions that have not changed for `max_age_secs`
  -- seconds, and leaves every other one as it is: an active one is kept however old it is. Every
  -- status stands under the id of its call, once.
  pub lookup-gc_provisions :
      (now max_age_secs k : ℕ) (m : Map ℕ (ProvisionStatus J))
      → IsMap m
      → IsKeyed m
      → lookup k (gc_provisions now max_age_secs m)
        ≡ kept
            (λ (s : ProvisionStatus J).
              not (is_terminal s.phase && leb s.updated_at (now - max_age_secs)))
            (lookup k m)
  unfolding gc_provisions
  lookup-gc_provisions now max_age_secs k m h keyed = ground (
    arith,
    lookup-remove_all k (to_remove (now - max_age_secs) (values m)) m,
    elem-to_remove (now - max_age_secs) k m h keyed,
  )

-- ===== src/Base/Map.antt =====
-- `HashMap` as an association list with distinct keys, behind its laws.
use Prim.Native.Nat.{suc, ◌≤◌}
use mathlib.Core.Path.{◌≡◌, refl, subst}
use mathlib.Core.Logic.{inl, inr}
use mathlib.Core.Bool.{Bool, true}
use mathlib.Core.List.{List, [], ◌∷◌, map}
use mathlib.Core.Option.{Option, none, some}
use native.Mathlib.Omega.{arith}
use ai_agent_sandbox_bluepri.Base.Tests.{if◌then◌else◌, Eq, ◌==◌, is_some, Bool-cases, some-inj}
use ai_agent_sandbox_bluepri.Base.Lists.{length}

abbrev pub Map : Type 0 → Type 0 → Type 0
Map K V = List (K × V)

-- What a test leaves of an entry.
abbrev pub kept : {V : Type 0} → (V → Bool) → Option V → Option V
kept p none = none
kept p (some v) = if p v then some v else none

module _ {K V : Type 0} ⦃e : Eq K⦄ where
  unfoldable pub lookup : K → Map K V → Option V
  lookup k [] = none
  lookup k ((j, v) ∷ m) = if j == k then some v else lookup k m

  unfoldable pub remove : K → Map K V → Map K V
  remove k [] = []
  remove k ((j, v) ∷ m) = if j == k then remove k m else (j, v) ∷ remove k m

  -- A new key goes to the front; an old one gets the new value.
  unfoldable pub insert : K → V → Map K V → Map K V
  unfolding remove
  insert k v m = (k, v) ∷ remove k m

  -- `get_mut` and a change of the entry.
  unfoldable pub update : K → (V → V) → Map K V → Map K V
  update k f [] = []
  update k f ((j, v) ∷ m) = if j == k then (j, f v) ∷ m else (j, v) ∷ update k f m

  abbrev pub contains_key : K → Map K V → Bool
  contains_key k m = is_some (lookup k m)

  -- No key occurs twice.
  abbrev pub IsMap : Map K V → Type 0
  IsMap [] = Unit
  IsMap ((k, v) ∷ m) = (lookup k m ≡ none) × IsMap m

  pub lookup-remove :
      (k j : K) (m : Map K V) → lookup j (remove k m) ≡ (if k == j then none else lookup j m)
  unfolding lookup remove
  lookup-remove k j [] = ground arith
  lookup-remove k j ((i, w) ∷ m) =
      ground (arith, e.beq_iff k j, e.beq_iff i k, e.beq_iff i j, lookup-remove k j m)

  pub lookup-insert :
      (k j : K) (v : V) (m : Map K V)
      → lookup j (insert k v m) ≡ (if k == j then some v else lookup j m)
  unfolding lookup insert
  lookup-insert k j v m = ground (arith, lookup-remove k j m)

  pub lookup-update :
      (k j : K) (f : V → V) (m : Map K V)
      → lookup j (update k f m)
        ≡ (if k == j then elim (lookup j m) [ none ↦ none | some v ↦ some (f v) ] else lookup j m)
  unfolding lookup update
  lookup-update k j f [] = ground arith
  lookup-update k j f ((i, w) ∷ m) =
      ground (arith, e.beq_iff k j, e.beq_iff i k, e.beq_iff i j, lookup-update k j f m)

  -- `retain` by a test of the values.
  unfoldable pub retain_values : (V → Bool) → Map K V → Map K V
  retain_values p [] = []
  retain_values p ((j, v) ∷ m) = if p v then (j, v) ∷ retain_values p m else retain_values p m

  abbrev pub values : Map K V → List V
  values = map (λ e. e.1)

  pub lookup-retain_values-none :
      (p : V → Bool) (k : K) (m : Map K V) → lookup k m ≡ none → lookup k (retain_values p m) ≡ none
  unfolding lookup retain_values
  lookup-retain_values-none p k [] h = refl
  lookup-retain_values-none p k ((j, v) ∷ m) h = ground (arith, lookup-retain_values-none p k m)

  pub lookup-retain_values :
      (p : V → Bool) (k : K) (m : Map K V)
      → IsMap m
      → lookup k (retain_values p m) ≡ kept p (lookup k m)
  unfolding lookup retain_values
  lookup-retain_values p k [] h = refl
  lookup-retain_values p k ((j, v) ∷ m) h =
      ground
        (arith, e.beq_iff j k, lookup-retain_values p k m h.1, lookup-retain_values-none p j m h.0)

  pub remove-IsMap : (k : K) (m : Map K V) → IsMap m → IsMap (remove k m)
  unfolding remove
  remove-IsMap k [] h = tt
  remove-IsMap k ((j, v) ∷ m) h = ground (arith, remove-IsMap k m h.1, lookup-remove k j m)

  pub insert-IsMap : (k : K) (v : V) (m : Map K V) → IsMap m → IsMap (insert k v m)
  unfolding insert
  insert-IsMap k v m h = ground (arith, remove-IsMap k m h, lookup-remove k k m, e.beq_iff k k)

  lookup-update-none :
      (k j : K) (f : V → V) (m : Map K V) → lookup j m ≡ none → lookup j (update k f m) ≡ none
  lookup-update-none k j f m h = ground (arith, lookup-update k j f m)

  pub update-IsMap : (k : K) (f : V → V) (m : Map K V) → IsMap m → IsMap (update k f m)
  unfolding update
  update-IsMap k f [] h = tt
  update-IsMap k f ((j, v) ∷ m) h =
      ground (arith, update-IsMap k f m h.1, lookup-update-none k j f m h.0)

  pub retain_values-IsMap : (p : V → Bool) (m : Map K V) → IsMap m → IsMap (retain_values p m)
  unfolding retain_values
  retain_values-IsMap p [] h = tt
  retain_values-IsMap p ((j, v) ∷ m) h =
      ground (arith, retain_values-IsMap p m h.1, lookup-retain_values-none p j m h.0)

  pub length-remove-le : (k : K) (m : Map K V) → length (remove k m) ≤ length m
  unfolding remove
  length-remove-le k [] = omega arith
  length-remove-le k ((j, v) ∷ m) = ground (arith, length-remove-le k m)

  pub length-insert-le : (k : K) (v : V) (m : Map K V) → length (insert k v m) ≤ suc (length m)
  unfolding insert
  length-insert-le k v m = omega (arith, length-remove-le k m)

  pub length-retain_values-le : (p : V → Bool) (m : Map K V) → length (retain_values p m) ≤ length m
  unfolding retain_values
  length-retain_values-le p [] = omega arith
  length-retain_values-le p ((j, v) ∷ m) = ground (arith, length-retain_values-le p m)

  -- Every entry of the map has the property.
  abbrev pub Every : (K → V → Type 0) → Map K V → Type 0
  Every P [] = Unit
  Every P ((k, v) ∷ m) = P k v × Every P m

  pub lookup-Every :
      (P : K → V → Type 0) (k : K) (v : V) (m : Map K V) → Every P m → lookup k m ≡ some v → P k v
  unfolding lookup
  lookup-Every P k v [] h found = absurd (ground (arith, found))
  lookup-Every P k v ((j, w) ∷ m) h found = elim (Bool-cases (j == k)) [
    | inl same ↦
        let found_here : some w ≡ some v = ground (arith, same, found) in
        subst (λ u. P k u) (some-inj found_here) (subst (λ i. P i w) ((e.beq_iff j k).0 same) h.0)
    | inr other ↦ lookup-Every P k v m h.1 (ground (arith, other, found))
  ]

  pub remove-Every : (P : K → V → Type 0) (k : K) (m : Map K V) → Every P m → Every P (remove k m)
  unfolding remove
  remove-Every P k [] h = tt
  remove-Every P k ((j, v) ∷ m) h = elim (Bool-cases (j == k)) [
    | inl same ↦ rw same (remove-Every P k m h.1)
    | inr other ↦ rw other (h.0, remove-Every P k m h.1)
  ]

  pub insert-Every :
      (P : K → V → Type 0) (k : K) (v : V) (m : Map K V)
      → P k v
      → Every P m
      → Every P (insert k v m)
  unfolding insert
  insert-Every P k v m p h = (p, remove-Every P k m h)

  -- What is kept has passed the test.
  pub retain_values-Every :
      (P : K → V → Type 0) (keep : V → Bool) (m : Map K V)
      → Every P m
      → Every (λ k v. P k v × (keep v ≡ true)) (retain_values keep m)
  unfolding retain_values
  retain_values-Every P keep [] h = tt
  retain_values-Every P keep ((j, v) ∷ m) h = elim (Bool-cases (keep v)) [
    | inl passes ↦ rw passes ((h.0, passes), retain_values-Every P keep m h.1)
    | inr dropped ↦ rw dropped (retain_values-Every P keep m h.1)
  ]

  pub Every-map :
      (P Q : K → V → Type 0) (m : Map K V)
      → ((k : K) (v : V) → P k v → Q k v)
      → Every P m
      → Every Q m
  Every-map P Q [] f h = tt
  Every-map P Q ((k, v) ∷ m) f h = (f k v h.0, Every-map P Q m f h.1)

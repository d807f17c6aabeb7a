-- ===== src/Base/Trim.antt =====
-- `str::trim` where the text in the middle has no white space.
use Prim.Native.Nat.{ℕ}
use mathlib.Core.Path.{◌≡◌, refl, sym, subst}
use mathlib.Core.Bool.{true, false}
use mathlib.Core.List.{List, [], ◌∷◌, ◌++◌, map, reverse, reverse-append, reverse-reverse}
use native.Mathlib.Omega.{arith}
use ai_agent_sandbox_bluepri.Base.Lists.{All}
use ai_agent_sandbox_bluepri.Base.Text.{is_whitespace, ascii_lower, trim_start, trim}

abbrev pub IsSpace : ℕ → Type 0
IsSpace c = is_whitespace c ≡ true

abbrev pub IsInk : ℕ → Type 0
IsInk c = is_whitespace c ≡ false

module _ (P : ℕ → Type 0) where
  All-append : (l m : List ℕ) → All P l → All P m → All P (l ++ m)
  All-append [] m h k = k
  All-append (c ∷ l) m h k = (h.0, All-append l m h.1 k)

  All-reverse : (l : List ℕ) → All P l → All P (reverse l)
  All-reverse [] h = tt
  All-reverse (c ∷ l) h =
      subst (λ m. All P m) (sym (reverse-append (c ∷ []) l))
        (All-append (reverse l) (c ∷ []) (All-reverse l h.1) (h.0, tt))

trim_start-spaces :
    (before l : List ℕ) → All IsSpace before → trim_start (before ++ l) ≡ trim_start l
unfolding trim_start
trim_start-spaces [] l h = refl
trim_start-spaces (c ∷ before) l h = ground (arith, h.0, trim_start-spaces before l h.1)

trim_start-ink : (c : ℕ) (l : List ℕ) → IsInk c → trim_start (c ∷ l) ≡ c ∷ l
unfolding trim_start
trim_start-ink c l h = ground (arith, h)

trim_start-eq_self : (l : List ℕ) → All IsInk l → trim_start l ≡ l
unfolding trim_start
trim_start-eq_self [] h = refl
trim_start-eq_self (c ∷ l) h = ground (arith, h.0)

pub trim-padded :
    (before after : List ℕ) (c : ℕ) (l : List ℕ)
    → All IsSpace before
    → All IsSpace after
    → All IsInk (c ∷ l)
    → trim (before ++ ((c ∷ l) ++ after)) ≡ c ∷ l
unfolding trim
trim-padded before after c l spaces more ink =
    rw
      (
        trim_start-spaces before ((c ∷ l) ++ after) spaces,
        trim_start-ink c (l ++ after) ink.0,
        reverse-append (c ∷ l) after,
        trim_start-spaces (reverse after) (reverse (c ∷ l)) (All-reverse IsSpace after more),
        trim_start-eq_self (reverse (c ∷ l)) (All-reverse IsInk (c ∷ l) ink),
        reverse-reverse (c ∷ l),
      )
      refl

-- A letter and its lower case are both no white space.
ascii_lower-IsInk : (c : ℕ) → IsInk (ascii_lower c) → IsInk c
ascii_lower-IsInk c h = ground (arith, h)

pub map_lower-IsInk : (l : List ℕ) → All IsInk (map ascii_lower l) → All IsInk l
map_lower-IsInk [] h = tt
map_lower-IsInk (c ∷ l) h = (ascii_lower-IsInk c h.0, map_lower-IsInk l h.1)

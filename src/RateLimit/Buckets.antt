-- ===== src/RateLimit/Buckets.antt =====
-- Times of requests: how many lie in a window, in what order they stand.
use ai_agent_sandbox_bluepri.Base.{
  ℕ, ◌+◌, ◌*◌, ◌≤◌, ◌≡◌, refl, Bool, none, some, List, [], ◌∷◌, ◌++◌, newer_than, nanos, retain,
  count, last, All, arith,
}

-- Each time is at most the later ones.
abbrev pub IsAscending : List ℕ → Type 0
IsAscending [] = Unit
IsAscending (t ∷ ts) = All (λ s. t ≤ s) ts × IsAscending ts

pub All-mono : (m n : ℕ) (ts : List ℕ) → m ≤ n → All (λ s. s ≤ m) ts → All (λ s. s ≤ n) ts
All-mono m n [] le h = tt
All-mono m n (t ∷ ts) le h = (omega arith, All-mono m n ts le h.1)

pub All-retain {ℓ} : (P : ℕ → Type ℓ) (p : ℕ → Bool) (ts : List ℕ) → All P ts → All P (retain p ts)
All-retain P p [] h = tt
All-retain P p (t ∷ ts) h = ground (arith, All-retain P p ts h.1)

pub All-snoc {ℓ} : (P : ℕ → Type ℓ) (ts : List ℕ) (n : ℕ) → All P ts → P n → All P (ts ++ n ∷ [])
All-snoc P [] n h p = (p, tt)
All-snoc P (t ∷ ts) n h p = (h.0, All-snoc P ts n h.1 p)

pub retain-IsAscending : (p : ℕ → Bool) (ts : List ℕ) → IsAscending ts → IsAscending (retain p ts)
retain-IsAscending p [] h = tt
retain-IsAscending p (t ∷ ts) h =
    ground (arith, retain-IsAscending p ts h.1, All-retain (λ (s : ℕ). t ≤ s) p ts h.0)

pub snoc-IsAscending :
    (ts : List ℕ) (n : ℕ) → All (λ s. s ≤ n) ts → IsAscending ts → IsAscending (ts ++ n ∷ [])
snoc-IsAscending [] n h a = (tt, tt)
snoc-IsAscending (t ∷ ts) n h a =
    (All-snoc (λ s. t ≤ s) ts n a.0 h.0, snoc-IsAscending ts n h.1 a.1)

-- In an ascending list the last time bounds all.
pub last-IsAscending :
    (ts : List ℕ) (n : ℕ) → IsAscending ts → last ts ≡ some n → All (λ s. s ≤ n) ts
last-IsAscending [] n a h = tt
last-IsAscending (t ∷ []) n a h = (ground arith, tt)
last-IsAscending (t ∷ (s ∷ ts)) n a h =
    let rest = last-IsAscending (s ∷ ts) n a.1 h in (omega (arith, rest.0, a.0.0), rest)

-- Pruning at an earlier reading changes no later count.
pub count-retain :
    (window now later : ℕ) (ts : List ℕ)
    → now ≤ later
    → count (newer_than window later) (retain (newer_than window now) ts)
      ≡ count (newer_than window later) ts
count-retain window now later [] le = refl
count-retain window now later (t ∷ ts) le = ground (arith, count-retain window now later ts le)

-- Nothing is in a window that begins after every time.
pub count-stale :
    (window n later : ℕ) (ts : List ℕ)
    → All (λ s. s ≤ n) ts
    → n + window * nanos ≤ later
    → count (newer_than window later) ts ≡ 0
count-stale window n later [] h le = refl
count-stale window n later (t ∷ ts) h le = ground (arith, count-stale window n later ts h.1 le)

pub count-last-none : (p : ℕ → Bool) (ts : List ℕ) → last ts ≡ none → count p ts ≡ 0
count-last-none p [] h = refl
count-last-none p (t ∷ []) h = cc
count-last-none p (t ∷ (s ∷ ts)) h =
    let rest : count p (s ∷ ts) ≡ 0 = count-last-none p (s ∷ ts) h in absurd (last-ne-none t ts s h)
  where
    last-ne-none : (t : ℕ) (ts : List ℕ) (s : ℕ) → last (s ∷ ts) ≡ none → ⊥
    last-ne-none t [] s h = cc
    last-ne-none t (u ∷ ts) s h = last-ne-none s ts u h

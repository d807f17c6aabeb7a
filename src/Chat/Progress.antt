-- ===== src/Chat/Progress.antt =====
-- The progress log of a session: the last entries of a log that grows.
use ai_agent_sandbox_bluepri.Base.{
  ℕ, zero, suc, ◌+◌, ◌-◌, ◌≤◌, ◌<◌, ◌≡◌, refl, ◌∙◌, ap, List, [], ◌∷◌, ◌++◌, map, inl, inr,
  if◌then◌else◌, ltb, string_eq, length, length-append, arith, u64_modulus, Bool-cases,
}
use ai_agent_sandbox_bluepri.Chat.{ChatRunProgressRecord, ChatSessionRecord}
use ai_agent_sandbox_bluepri.Chat.Runs.{
  Report, drop, progress_entry, push_progress, chat_run_progress_limit,
}

-- The last `n` entries.
abbrev pub keep_last : {A : Type 0} → ℕ → List A → List A
keep_last n xs = drop (length xs - n) xs

-- The numbers from `n` on, `count` of them.
abbrev pub numbers : ℕ → ℕ → List ℕ
numbers n zero = []
numbers n (suc count) = n ∷ numbers (suc n) count

module _ {A : Type 0} where
  drop-append : (n : ℕ) (xs ys : List A) → n ≤ length xs → drop n (xs ++ ys) ≡ drop n xs ++ ys
  unfolding drop
  drop-append zero xs ys le = refl
  drop-append (suc n) [] ys le = absurd (omega (arith, le))
  drop-append (suc n) (x ∷ xs) ys le = drop-append n xs ys (omega (arith, le))

  drop-suc : (n : ℕ) (xs : List A) → drop 1 (drop n xs) ≡ drop (suc n) xs
  unfolding drop
  drop-suc zero xs = refl
  drop-suc (suc n) [] = refl
  drop-suc (suc n) (x ∷ xs) = drop-suc n xs

  length-drop : (n : ℕ) (xs : List A) → length (drop n xs) ≡ length xs - n
  unfolding drop
  length-drop zero xs = omega arith
  length-drop (suc n) [] = omega arith
  length-drop (suc n) (x ∷ xs) = omega (arith, length-drop n xs)

  -- To drop the oldest entry of the kept ones is to keep the last of the whole log.
  keep_last-append :
      (n : ℕ) (xs : List A) (x : A)
      → 0 < n
      → keep_last n (keep_last n xs ++ (x ∷ [])) ≡ keep_last n (xs ++ (x ∷ []))
  unfolding drop
  keep_last-append n xs x pos = elim (Bool-cases (ltb n (length xs))) [
    | inr short ↦ let all : length xs - n ≡ 0 = ground (arith, short) in rw all refl
    | inl long ↦
        let a = length xs - n in
        let one : length (drop a xs ++ (x ∷ [])) - n ≡ 1 =
          ground (arith, long, length-append (drop a xs) (x ∷ []), length-drop a xs) in
        let more : length (xs ++ (x ∷ [])) - n ≡ suc a =
          ground (arith, long, length-append xs (x ∷ [])) in
        rw (one, more, ← drop-append a xs (x ∷ []) (omega arith)) (drop-suc a (xs ++ (x ∷ [])))
  ]

plus_zero : (n : ℕ) → n + 0 ≡ n
plus_zero n = omega arith

numbers-append : (n count : ℕ) → numbers n count ++ ((n + count) ∷ []) ≡ numbers n (suc count)
numbers-append n zero = rw (plus_zero n) refl
numbers-append n (suc count) =
    let next : n + suc count ≡ suc n + count = omega arith in
    rw next (ap (λ ns. n ∷ ns) (numbers-append (suc n) count))

numbered_next : (n : ℕ) → numbers 1 n ++ (suc n ∷ []) ≡ numbers 1 (n + 1)
numbered_next n =
    let (one, more) : (1 + n ≡ suc n) × (n + 1 ≡ suc n) = (omega arith, omega arith) in
    rw (more, ← one) (numbers-append 1 n)

-- The log of a session is the last 200 of all its entries, which are numbered from 1 on.
pub record IsLog {J : Type 0} (all : List ChatRunProgressRecord) (c : ChatSessionRecord J)
    : Type 0 where
  pub keeps : c.run_progress ≡ keep_last chat_run_progress_limit all
  pub numbered : map (λ e. e.seq) all ≡ numbers 1 (length all)
  pub next : c.next_progress_seq ≡ suc (length all)

map-append :
    (f : ChatRunProgressRecord → ℕ) (xs ys : List ChatRunProgressRecord)
    → map f (xs ++ ys) ≡ map f xs ++ map f ys
map-append f [] ys = refl
map-append f (x ∷ xs) ys = ap (λ l. f x ∷ l) (map-append f xs ys)

numbered-append :
    (all : List ChatRunProgressRecord) (entry : ChatRunProgressRecord)
    → map (λ e. e.seq) all ≡ numbers 1 (length all)
    → entry.seq ≡ suc (length all)
    → map (λ e. e.seq) (all ++ (entry ∷ [])) ≡ numbers 1 (length (all ++ (entry ∷ [])))
numbered-append all entry numbered next =
    rw (length-append all (entry ∷ []), map-append (λ r. r.seq) all (entry ∷ []), numbered, next)
      (numbered_next (length all))

drained :
    (log : List ChatRunProgressRecord)
    → (if ltb chat_run_progress_limit (length log)
        then drop (length log - chat_run_progress_limit) log
        else log)
      ≡ keep_last chat_run_progress_limit log
unfolding drop
drained log = elim (Bool-cases (ltb chat_run_progress_limit (length log))) [
  | inl long ↦ rw long refl
  | inr short ↦
      let all : length log - chat_run_progress_limit ≡ 0 = ground (arith, short) in
      rw (short, all) refl
]

-- The number of the next entry.
progress_entry-seq :
    {J : Type 0} (now : ℕ) (e : Report) (all : List ChatRunProgressRecord) (c : ChatSessionRecord J)
    → IsLog all c
    → (progress_entry now e c).seq ≡ suc (length all)
unfolding progress_entry
progress_entry-seq now e all c log = ground (arith, log.next)

pub push_progress-IsLog :
    {J : Type 0} (now : ℕ) (e : Report) (all : List ChatRunProgressRecord) (c : ChatSessionRecord J)
    → suc (suc (length all)) < u64_modulus
    → IsLog all c
    → IsLog (all ++ (progress_entry now e c ∷ [])) (push_progress now e c)
unfolding push_progress
push_progress-IsLog now e all c fits log = record {
  keeps =
      let entry = progress_entry now e c in
      drained (c.run_progress ++ (entry ∷ []))
      ∙ ap (λ l. keep_last chat_run_progress_limit (l ++ (entry ∷ []))) log.keeps
      ∙ keep_last-append chat_run_progress_limit all entry (omega arith);
  numbered =
      numbered-append all (progress_entry now e c) log.numbered
        (progress_entry-seq now e all c log);
  next =
      ground (
        arith,
        progress_entry-seq now e all c log,
        length-append all (progress_entry now e c ∷ []),
      );
}

-- ===== src/Chat/Title.antt =====
-- When the slice in `maybe_auto_title_session` of chat_state.rs panics, and what a panic under the
-- lock of `enqueue_chat_run` leaves.
use Prim.Native.Char.{code}
use Prim.Native.String.{◌++◌ as text_append}
use ai_agent_sandbox_bluepri.Base.{
  ℕ, ◌-◌, ◌≤◌, ◌<◌, ◌≡◌, refl, ap, String, Bool, true, false, Option, none, some, List, [], ◌∷◌,
  ◌++◌, ◌↔◌, inl, inr, if◌then◌else◌, ltb, ltb→lt, eqb, arith, is_some, Bool-cases, Option-cases,
}
use ai_agent_sandbox_bluepri.Base.Text.{
  codes, byte_len, utf8_len, slice_to, trim_text, is_empty_text,
}
use ai_agent_sandbox_bluepri.Chat.{ChatState, Surroundings}
use ai_agent_sandbox_bluepri.Chat.Enqueue.{auto_title, maybe_auto_title_session}

-- The first `n` bytes of the text are whole characters.
abbrev pub IsBoundary : ℕ → List ℕ → Type 0
IsBoundary n text = (p : List ℕ) × (q : List ℕ) × (text ≡ p ++ q) × (byte_len p ≡ n)

utf8_len_pos : (c : ℕ) → 0 < utf8_len c
utf8_len_pos c = ground arith

slice_to-IsBoundary : (n : ℕ) (s : String) → is_some (slice_to n s) ≡ true → IsBoundary n (codes s)
unfolding slice_to byte_len
slice_to-IsBoundary n String.[] h = ([], [], refl, ground (arith, h))
slice_to-IsBoundary n (String.◌∷◌ c s) h = elim (Bool-cases (eqb n 0)) [
  | inl at_start ↦ ([], codes (String.◌∷◌ c s), refl, ground (arith, at_start))
  | inr later ↦
      let fits : utf8_len (code c) ≤ n = ground (arith, h, later) in
      let (p, q, same, bytes) =
        slice_to-IsBoundary (n - utf8_len (code c)) s (ground (arith, h, later)) in
      (code c ∷ p, q, ap (λ cs. code c ∷ cs) same, omega (arith, bytes, fits))
]

IsBoundary-slice_to :
    (n : ℕ) (s : String) (p q : List ℕ)
    → codes s ≡ p ++ q
    → byte_len p ≡ n
    → is_some (slice_to n s) ≡ true
unfolding slice_to byte_len
IsBoundary-slice_to n String.[] [] q h e = ground (arith, e)
IsBoundary-slice_to n String.[] (d ∷ p) q h e = ground (arith, h)
IsBoundary-slice_to n (String.◌∷◌ c s) [] q h e = ground (arith, e)
IsBoundary-slice_to n (String.◌∷◌ c s) (d ∷ p) q h e =
    ground (arith, e, h, utf8_len_pos d, IsBoundary-slice_to (n - utf8_len (code c)) s p q)

is_empty_text-byte_len : (s : String) → is_empty_text s ≡ true → byte_len (codes s) ≡ 0
unfolding byte_len
is_empty_text-byte_len String.[] h = refl
is_empty_text-byte_len (String.◌∷◌ c s) h = ground (arith, h)

titled-none :
    {A : Type 0} (a : A) (f : String → A) (empty long : Bool) (cut : Option String) (whole : String)
    → ((if empty
          then some a
          else elim (if long
              then elim cut [ none ↦ none | some t ↦ some (text_append t "...") ]
              else some whole) [ none ↦ none | some title ↦ some (f title) ])
        ≡ none)
      ↔ ((empty ≡ false) × (long ≡ true) × (cut ≡ none))
titled-none a f empty long cut whole = ground arith

-- The slice is reached and panics.
title-none :
    {J : Type 0} (x : Surroundings) (id text : String) (s : ChatState J)
    → (maybe_auto_title_session x id text s ≡ none) ↔ (
        (is_empty_text (trim_text text) ≡ false)
        × (ltb 40 (byte_len (codes (trim_text text))) ≡ true)
        × (slice_to 40 (trim_text text) ≡ none))
unfolding maybe_auto_title_session auto_title
title-none x id text s =
    titled-none _ _ (is_empty_text (trim_text text)) (ltb 40 (byte_len (codes (trim_text text))))
      (slice_to 40 (trim_text text)) (trim_text text)

-- The automatic title panics, whatever the stores hold and whichever of its calls fail, exactly on a
-- request whose trimmed text has more than 40 bytes, of which the first 40 do not end with a whole
-- character.
pub maybe_auto_title_session-panics :
    {J : Type 0} (x : Surroundings) (id request_text : String) (s : ChatState J)
    → (maybe_auto_title_session x id request_text s ≡ none) ↔ (
        (40 < byte_len (codes (trim_text request_text)))
        × ¬ IsBoundary 40 (codes (trim_text request_text)))
maybe_auto_title_session-panics x id request_text s =
    let text = trim_text request_text in
    let forth : maybe_auto_title_session x id request_text s ≡ none
        → (40 < byte_len (codes text)) × ¬ IsBoundary 40 (codes text) =
      λ h.
        let (full, long, cut) = (title-none x id request_text s).0 h in
        (
          ltb→lt 40 (byte_len (codes text)) long,
          λ (p, q, same, bytes).
              let whole = IsBoundary-slice_to 40 text p q same bytes in ground (arith, cut, whole),
        ) in
    (
      forth,
      λ (long, inside). elim (Option-cases (slice_to 40 text)) [
        | inr (t, cut) ↦ absurd (inside (slice_to-IsBoundary 40 text (rw cut refl)))
        | inl cut ↦
            (title-none x id request_text s).1
              (ground (arith, is_empty_text-byte_len text, long), ground (arith, long), cut)
      ],
    )

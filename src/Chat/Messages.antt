-- ===== src/Chat/Messages.antt =====
-- The messages of a session in chat_state.rs. Of a JSON part the code reads whether it is an object
-- and the texts of its fields: `serde_json` is a parameter.
use ai_agent_sandbox_bluepri.Base.{
  ℕ, String, Bool, true, false, ◌&&◌, Option, none, some, List, [], ◌∷◌, if◌then◌else◌, ◌==◌,
  string_eq, is_some,
}
use ai_agent_sandbox_bluepri.Base.Text.{is_empty_text}
use ai_agent_sandbox_bluepri.Chat.{
  ChatMessageRecord, ChatSessionRecord, Surroundings, Step, ◌>>=◌, session_store, update_session,
}

-- `as_object().is_some()`, and `get(key).and_then(as_str)` on an object.
pub record Json (J : Type 0) : Type 0 where
  pub is_object : J → Bool
  pub text_at : String → J → Option String

module _ {J : Type 0} where
  -- The first message with the id is replaced; a new one comes last.
  unfoldable pub put_message :
      ChatMessageRecord J → List (ChatMessageRecord J) → List (ChatMessageRecord J)
  put_message m [] = m ∷ []
  put_message m (n ∷ ns) = let rest = put_message m ns in if n.id == m.id then m ∷ ns else n ∷ rest

  unfoldable pub with_message : ChatMessageRecord J → ChatSessionRecord J → ChatSessionRecord J
  unfolding put_message
  with_message m c = record c {
    messages = put_message m c.messages;
    updated_at = elim m.completed_at [ none ↦ m.created_at | some at ↦ at ];
  }

  unfoldable pub append_message : Surroundings → String → ChatMessageRecord J → Step J Bool
  unfolding session_store update_session with_message
  append_message x id m = session_store x >>= λ ready. update_session x id (with_message m)

abbrev same_text : Option String → Option String → Bool
same_text none none = true
same_text (some a) (some b) = a == b
same_text _ _ = false

module _ {J : Type 0} (json : Json J) where
  -- The type and the id of a part that is an object.
  unfoldable pub part_identity : J → Option (Option String × Option String)
  part_identity part =
      if json.is_object part then some (json.text_at "type" part, json.text_at "id" part) else none

  unfoldable pub matches_part : J → J → Bool
  unfolding part_identity
  matches_part existing incoming = elim (part_identity incoming) [
    | none ↦ false
    | some (incoming_type, incoming_id) ↦ elim (part_identity existing) [
      | none ↦ false
      | some (existing_type, existing_id) ↦
          if is_some incoming_id && is_some existing_id
          then same_text incoming_id existing_id
          else same_text incoming_type (some "text") && same_text existing_type incoming_type
    ]
  ]

  -- The first part that matches is replaced; a new one comes last.
  unfoldable pub put_part : J → List J → List J
  unfolding matches_part
  put_part part [] = part ∷ []
  put_part part (p ∷ ps) =
      let rest = put_part part ps in if matches_part p part then part ∷ ps else p ∷ rest

  -- The text of a text part.
  unfoldable pub text_of_part : J → Option String
  text_of_part part =
      if json.is_object part && same_text (json.text_at "type" part) (some "text")
      then json.text_at "text" part
      else none

  -- The text of the last text part, which the reversed search finds first.
  unfoldable pub visible_text_from_parts : List J → String
  unfolding text_of_part
  visible_text_from_parts parts = last_text parts ""
    where
      last_text : List J → String → String
      last_text [] found = found
      last_text (p ∷ ps) found = last_text ps (elim (text_of_part p) [ none ↦ found | some t ↦ t ])

  -- The part in the first message with the id, whose content is then its visible text.
  unfoldable pub put_part_in :
      String → J → List (ChatMessageRecord J) → Option (List (ChatMessageRecord J))
  unfolding put_part visible_text_from_parts
  put_part_in message part [] = none
  put_part_in message part (m ∷ ms) =
      let rest = put_part_in message part ms in
      let parts = put_part part m.parts in
      let text = visible_text_from_parts parts in
      if m.id == message
      then some (
          record m { parts = parts; content = if is_empty_text text then m.content else text } ∷ ms)
      else elim rest [ none ↦ none | some ns ↦ some (m ∷ ns) ]

  unfoldable pub with_part : ℕ → String → J → ChatSessionRecord J → ChatSessionRecord J
  unfolding put_part_in
  with_part now message part c = elim (put_part_in message part c.messages) [
    | none ↦ c
    | some ms ↦ record c { messages = ms; updated_at = now }
  ]

  unfoldable pub upsert_message_part : Surroundings → String → String → J → Step J Bool
  unfolding session_store update_session with_part
  upsert_message_part x id message part =
      session_store x >>= λ ready. update_session x id (with_part x.now message part)

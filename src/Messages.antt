-- ===== src/Messages.antt =====
-- The conversation with the provider: minicodex/agent/orchestration/message_protocol.py and
-- minicodex/agent/context/message_compaction.py.
pub mod Protocol
pub mod Payload
pub mod Compaction
use mini_codex.Common.{Text, List}

-- `other` is every role but the two that the protocol tells apart.
pub data Role : Type 0 where
  assistant tool other : Role

-- `arguments` is JSON text.
pub record ToolCall : Type 0 where
  pub id : Text
  pub name : Text
  pub arguments : Text

-- An entry that a message lacks is empty.
pub record Message : Type 0 where
  pub role : Role
  pub content : Text
  pub tool_calls : List ToolCall
  pub tool_call_id : Text

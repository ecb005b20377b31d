-- ===== src/Schemas.antt =====
-- brain-python/schemas.py: the request and response models. Validation of raw JSON is pydantic's.
use test_bot.Base.{ℕ, Bool, false, Option, none, List, [], ◌∷◌}
use test_bot.Text.{Text, codes}
use test_bot.Value.{Fields, end, Ident}

pub record BrainMessage : Type 0 where
  pub role : Text
  pub type : Text
  pub text : Text
  pub content : Text
  pub file : Text
  pub url : Text
  pub path : Text
  pub name : Text
  pub payload : Fields
  pub user_id : Option Ident
  pub group_id : Option Ident
  pub conversation_id : Option Text
  pub message_id : Option Ident
  pub message_type : Option Text
  pub metadata : Fields

pub record BrainJsonMessage : Type 0 where
  pub raw : Text
  pub parsed : Fields

pub record BrainSender : Type 0 where
  pub user_id : Option Ident
  pub nickname : Text
  pub card : Text
  pub role : Text

pub record BrainImage : Type 0 where
  pub url : Text
  pub file : Text
  pub summary : Text
  pub sub_type : Text
  pub file_size : Text

pub record BrainVideo : Type 0 where
  pub url : Text
  pub file : Text

pub record ToolDefinition : Type 0 where
  pub name : Text
  pub description : Text
  pub input_schema : Fields

pub record ToolResult : Type 0 where
  pub tool_name : Text
  pub ok : Bool
  pub payload : Fields
  pub error : Option Text

pub record ToolCall : Type 0 where
  pub id : Option Text
  pub name : Text
  pub arguments : Fields

pub record BrainResponse : Type 0 where
  pub handled : Bool
  pub should_reply : Bool
  pub messages : List BrainMessage
  pub reply : Text
  pub tool_calls : List ToolCall
  pub job_id : Option Text
  pub metadata : Option Fields

pub record ChatRequest : Type 0 where
  pub self_id : Option Ident
  pub post_type : Option Text
  pub sub_type : Option Text
  pub primary_type : Option Text
  pub text : Text
  pub content : Text
  pub message : Option BrainMessage
  pub messages : List BrainMessage
  pub text_segments : List Text
  pub json_messages : List BrainJsonMessage
  pub images : List BrainImage
  pub videos : List BrainVideo
  pub at_user_ids : List Ident
  pub at_all : Bool
  pub reply_to_message_id : Option Ident
  pub unknown_types : List Text
  pub segments : List Fields
  pub user_id : Option Ident
  pub group_id : Option Ident
  pub group_name : Text
  pub target_id : Option Ident
  pub sender : Option BrainSender
  pub conversation_id : Option Text
  pub message_id : Option Ident
  pub message_type : Option Text
  pub metadata : Fields

pub record ToolCallRequest : Type 0 where
  pub name : Text
  pub arguments : Fields
  pub message_type : Option Text
  pub group_id : Option Ident
  pub user_id : Option Ident

pub record OutboxEnqueueRequest : Type 0 where
  pub message_type : Text
  pub user_id : Option Ident
  pub group_id : Option Ident
  pub messages : List BrainMessage
  pub metadata : Fields
  pub max_attempts : ℕ

-- `BrainMessage(type="text", text=reply)`, the other fields by default.
abbrev pub text_message : Text → BrainMessage
text_message reply = record {
  role = codes "user";
  type = codes "text";
  text = reply;
  content = [];
  file = [];
  url = [];
  path = [];
  name = [];
  payload = end;
  user_id = none;
  group_id = none;
  conversation_id = none;
  message_id = none;
  message_type = none;
  metadata = end;
}

-- `[BrainMessage(type="text", text=reply)] if reply else []`
abbrev pub reply_messages : Text → List BrainMessage
reply_messages [] = []
reply_messages (c ∷ cs) = text_message (c ∷ cs) ∷ []

-- `ChatRequest()`
abbrev pub empty_request : ChatRequest
empty_request = record {
  self_id = none;
  post_type = none;
  sub_type = none;
  primary_type = none;
  text = [];
  content = [];
  message = none;
  messages = [];
  text_segments = [];
  json_messages = [];
  images = [];
  videos = [];
  at_user_ids = [];
  at_all = false;
  reply_to_message_id = none;
  unknown_types = [];
  segments = [];
  user_id = none;
  group_id = none;
  group_name = [];
  target_id = none;
  sender = none;
  conversation_id = none;
  message_id = none;
  message_type = none;
  metadata = end;
}

-- ===== src/Services/Memory/Errors.antt =====
-- The exceptions of brain-python/services/memory.py and memory_extractor.py: `MemoryError` and its
-- kinds, and `other` for an exception of the interpreter, with its class.
use test_bot.Base.{Bool, false, true}
use test_bot.Text.{Text, codes}

pub data MemoryError : Type 0 where
  memory_error : Text → MemoryError
  memory_configuration : Text → MemoryError
  extractor_configuration : Text → MemoryError
  extractor_no_messages : Text → MemoryError
  extractor_upstream : Text → MemoryError
  other : (class_name text : Text) → MemoryError

-- `str(exc)`
abbrev pub text_of : MemoryError → Text
text_of (memory_error text) = text
text_of (memory_configuration text) = text
text_of (extractor_configuration text) = text
text_of (extractor_no_messages text) = text
text_of (extractor_upstream text) = text
text_of (other class_name text) = text

-- `exc.__class__.__name__`
abbrev pub class_of : MemoryError → Text
class_of (memory_error text) = codes "MemoryError"
class_of (memory_configuration text) = codes "MemoryConfigurationError"
class_of (extractor_configuration text) = codes "MemoryExtractorConfigurationError"
class_of (extractor_no_messages text) = codes "MemoryExtractorNoMessagesError"
class_of (extractor_upstream text) = codes "MemoryExtractorUpstreamError"
class_of (other class_name text) = class_name

abbrev pub is_memory_error : MemoryError → Bool
is_memory_error (other class_name text) = false
is_memory_error e = true

abbrev pub is_extractor_error : MemoryError → Bool
is_extractor_error (extractor_configuration text) = true
is_extractor_error (extractor_no_messages text) = true
is_extractor_error (extractor_upstream text) = true
is_extractor_error e = false

-- ===== src/Services.antt =====
-- brain-python/services: tools, outbox, chat, memory.
pub mod Tools
pub mod Outbox
pub mod Chat
pub mod Ai
pub mod Embedding
pub mod Conversation
pub mod Memory
pub mod Extractor

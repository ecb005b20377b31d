-- ===== src/Tests.antt =====
-- Runs of the model on concrete data, and the theorems at concrete inputs.
mod Sample
mod Extractor
mod Numbers
mod Memory
mod Embedding
mod Conversation
mod Ai
mod Main
mod Chat
mod Modules
mod Outbox
mod Recall

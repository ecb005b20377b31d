-- ===== src/Services/Memory/Consistent.antt =====
-- brain-python/services/memory.py: the status of a memory and its life agree.
use test_bot.Base.{not, ◌≡◌}
use test_bot.Text.{Text}
use test_bot.Services.Memory.{MemoryRow, is_active, is_retired}

-- A memory is active exactly if its life is not over.
abbrev pub IsConsistent : MemoryRow → Type 0
IsConsistent r = is_active r.status ≡ not (is_retired r.lifecycle_status)

-- ===== src/Tests/Interleavings.antt =====
-- The theorems on interleaved calls after two of them.
use ant_cache.Cache
use ant_cache.Cache.{Cache}

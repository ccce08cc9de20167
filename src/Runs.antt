-- ===== src/Runs.antt =====
-- The methods of Cache as the goroutines of the program interleave them: the mutex makes each call
-- one step, in an order that is not known, each at a time that is not known. BatchExecute and
-- OptimizedSet, which nothing in the repository calls, are steps where no item of the pool is in use.
use ant_cache.Base.{ℕ, ◌≡◌, Bool, Option, some, List, All, ℤ, Text}
use ant_cache.Item.{Compression, Value}
use ant_cache.Persistence.{PersistenceManager}
use ant_cache.Cache
use ant_cache.Atd.{load_atd}
use ant_cache.Cache.{Cache, new}
use ant_cache.Log.Replay.{AclFile, load_acl}
use ant_cache.Cache.Batch
use ant_cache.Cache.Batch.{BatchOperation, BatchResult}
use ant_cache.Cache.Batch.Pooled.{IsPooled}
use ant_cache.Cache.Batch.Refinement.{IsTimelyOperation}
use ant_cache.Cache.Batch.Setting.{IsTimely}
use ant_cache.Start.{set_compression_config}

-- One call that returns, or a step of the persistence manager.
pub data Step {z : Compression} : Cache z → Cache z → Type 0 where
  set :
      (c : Cache z) (now : ℤ) (key : Text) (value : Value z.Packed) (ttl : ℤ)
      → Step c (Cache.set c now key value ttl)
  set_nx :
      (c : Cache z) (now : ℤ) (key : Text) (value : Value z.Packed) (ttl : ℤ)
      → Step c (Cache.set_nx c now key value ttl).1
  delete :
      (c c' : Cache z) (now : ℤ) (key : Text) (deleted : Bool)
      → Cache.delete c now key ≡ some (deleted, c')
      → Step c c'
  cleanup : (c c' : Cache z) (now : ℤ) → Cache.cleanup c now ≡ some c' → Step c c'
  flush_all : (c : Cache z) → Step c (Cache.flush_all c).1
  replay_log :
      (c c' : Cache z) (enabled read : Bool) (clock : ℕ → ℤ) (file : AclFile)
      → load_acl enabled clock c file ≡ some (read, c')
      → Step c c'
  load_snapshot :
      (c : Cache z) (pm : PersistenceManager z.Packed) (now : ℤ) (file : Option Text)
      → Step c (load_atd pm c now file).1
  set_config : (c : Cache z) (config : z.Config) → Step c (set_compression_config c config)
  batch_execute :
      (c c' : Cache z) (picks : ℕ → ℕ) (now : ℤ) (ops : List (BatchOperation z.Packed))
      (results : List (BatchResult z.Packed))
      → IsPooled c
      → All (IsTimelyOperation now) ops
      → Batch.batch_execute c picks now ops ≡ some (results, c')
      → Step c c'
  optimized_set :
      (c c' : Cache z) (pick : ℕ) (now : ℤ) (key : Text) (value : Value z.Packed) (ttl : ℤ)
      → IsPooled c
      → IsTimely now ttl
      → Batch.optimized_set c pick now key value ttl ≡ some c'
      → Step c c'
  -- What the goroutines of the persistence manager do to its channel and counters.
  persist :
      (c : Cache z) (pm : Option (PersistenceManager z.Packed))
      → Step c (record c { persistence = pm })

-- The states that calls reach from the empty cache.
pub data Reach {z : Compression} : Cache z → Type 0 where
  start : Reach new
  step : (c c' : Cache z) → Reach c → Step c c' → Reach c'

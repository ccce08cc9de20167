-- ===== src/Tests/Batches.antt =====
-- The theorem on batches at four operations that use an item of the pool again.
use ant_cache.Base.{List, [], ◌∷◌, pos, codes}
use ant_cache.Item.{str, nil}
use ant_cache.Cache.{Cache, new}
use ant_cache.Cache.Batch.{BatchOperation}
use ant_cache.Tests.{plain_compression}

abbrev empty : Cache plain_compression
empty = new

abbrev operations : List (BatchOperation (Unit {0}))
operations =
    record { type = codes "SET"; key = codes "a"; value = str (codes "1"); ttl = pos 5 }
    ∷ record { type = codes "SET"; key = codes "a"; value = str (codes "2"); ttl = pos 0 }
    ∷ record { type = codes "SET"; key = codes "b"; value = str (codes "3"); ttl = pos 7 }
    ∷ record { type = codes "GET"; key = codes "a"; value = nil; ttl = pos 0 }
    ∷ []

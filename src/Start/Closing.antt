-- ===== src/Start/Closing.antt =====
-- cache/cache.go: Close; cache/persistence.go: Stop and flushAcl.
use ant_cache.Base.{ℕ, Option, none, some, ℤ, if◌then◌else◌, Text}
use ant_cache.Item.{Compression}
use ant_cache.Persistence.{PersistenceManager}
use ant_cache.Cache.{Cache}
use ant_cache.Atd.{save_atd}
use ant_cache.Log.Files.{LogFiles, Disk, process_commands}
use ant_cache.Log.Compact.{CompactDisk, flush_acl}

-- The snapshot file and the files of the log.
pub record Files : Type 0 where
  pub snapshot : Option Text
  pub log : LogFiles

-- What Stop meets: `taken` commands are written before the goroutine of processCommands sees that the
-- manager has stopped; then the clock and the file system of SaveAtd and compactAclFiles.
pub record Ending : Type 0 where
  pub taken : ℕ
  pub disks : ℕ → Disk
  pub compact : CompactDisk
  pub now : ℤ
  pub timestamp : ℤ

abbrev pub replaced : Option Text → Option Text → Option Text
replaced old none = old
replaced old (some text) = some text

module _ {z : Compression} (show_atd show : z.Packed → Text) where
  -- The two channels are closed on the way.
  unfoldable pub stop : Ending → Cache z → PersistenceManager z.Packed → Files → Files
  unfolding flush_acl
  stop e c pm files =
      let (pm1, log1) = process_commands show e.disks e.taken pm files.log in
      let (pm2, log2) = flush_acl show e.compact pm1 log1 in
      if pm.enabled
      then record {
        snapshot = replaced files.snapshot (save_atd pm show_atd c e.now e.timestamp);
        log = log2;
      }
      else files

  abbrev pub stop_if : Ending → Cache z → Option (PersistenceManager z.Packed) → Files → Files
  stop_if e c none files = files
  stop_if e c (some pm) files = stop e c pm files

  unfoldable pub close : Ending → Cache z → Files → Files
  unfolding stop
  close e c files = stop_if e c c.persistence files

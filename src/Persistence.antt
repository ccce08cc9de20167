-- ===== src/Persistence.antt =====
-- cache/persistence.go: the commands of the command log and the channel that takes them.
use ant_cache.Base.{
  ℕ, ◌*◌, ℤ, Bool, true, List, [], ◌∷◌, ◌++◌, Text, length, ltb, if◌then◌else◌, Option, none, some,
}
use ant_cache.Item.{Value}

pub record Command (P : Type 0) : Type 0 where
  pub timestamp : ℤ
  pub type : Text
  pub key : Text
  pub value : Value P
  pub ttl : ℤ

-- `command_chan` holds the commands that have been sent and not yet written to the log file.
pub record PersistenceManager (P : Type 0) : Type 0 where
  pub enabled : Bool
  pub command_chan : List (Command P)
  pub acl_file_size : ℕ
  pub max_acl_file_size : ℕ
  pub atd_path : Text
  pub acl_path : Text
  pub atd_interval : ℤ
  pub acl_interval : ℤ

-- `make(chan Command, 50000)`
abbrev pub chan_capacity : ℕ
chan_capacity = 50000

-- 10 MB
abbrev pub default_max_acl_file_size : ℕ
default_max_acl_file_size = 10 * 1024 * 1024

module _ {P : Type 0} where
  unfoldable pub new_persistence_manager : Text → Text → ℤ → ℤ → PersistenceManager P
  new_persistence_manager atd_path acl_path atd_interval acl_interval = record {
    enabled = true;
    command_chan = [];
    acl_file_size = 0;
    max_acl_file_size = default_max_acl_file_size;
    atd_path = atd_path;
    acl_path = acl_path;
    atd_interval = atd_interval;
    acl_interval = acl_interval;
  }

  -- A full channel drops the command.
  unfoldable pub log_command :
      PersistenceManager P → ℤ → Text → Text → Value P → ℤ → PersistenceManager P
  log_command pm now type key value ttl =
      let command : Command P = record {
        timestamp = now;
        type = type;
        key = key;
        value = value;
        ttl = ttl;
      } in
      if pm.enabled
      then (if ltb (length pm.command_chan) chan_capacity
          then record pm { command_chan = pm.command_chan ++ command ∷ [] }
          else pm)
      else pm

  -- `if c.persistence != nil { c.persistence.LogCommand(...) }`
  unfoldable pub log_to :
      Option (PersistenceManager P) → ℤ → Text → Text → Value P → ℤ → Option (PersistenceManager P)
  log_to none now type key value ttl = none
  log_to (some pm) now type key value ttl = some (log_command pm now type key value ttl)

  unfoldable pub is_enabled : PersistenceManager P → Bool
  is_enabled pm = pm.enabled

  unfoldable pub set_enabled : PersistenceManager P → Bool → PersistenceManager P
  set_enabled pm enabled = record pm { enabled = enabled }

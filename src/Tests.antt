-- ===== src/Tests.antt =====
-- The data of the tests: a compression that leaves values as they are, and a cache with three keys.
mod Heaps
mod Caches
mod Lines
mod Sessions
mod Snapshots
mod Pools
mod Logs
mod Restarts
mod Accounts
mod Interleavings
mod Batches
mod Connections
mod Starts
use ant_cache.Base.{
  ℤ, pos, refl, Text, codes, List, [], ◌∷◌, none, some, Bool, true, false, text_eq, if◌then◌else◌,
}
use ant_cache.Item.{Compression, Restores, str, array, object}
use ant_cache.Cache
use ant_cache.Cache.{Cache}
use ant_cache.Cache.Valid.{IsValid, set-IsValid, new-IsValid}
use ant_cache.Persistence.{PersistenceManager}
use ant_cache.Auth.{AuthManager, Verdict, valid, invalid}
use ant_cache.Server.{Server}

abbrev pub plain_compression : Compression
plain_compression = record {
  Packed = Unit {0};
  Config = Unit {0};
  default_config = tt;
  compress = λ value type config. none;
  decompress = λ value. some value;
}

pub plain-Restores : Restores plain_compression
plain-Restores value config = refl

abbrev pub first : Cache plain_compression
first = Cache.set Cache.new (pos 10) (codes "name") (str (codes "ann")) (pos 90)

abbrev pub second : Cache plain_compression
second = Cache.set first (pos 11) (codes "list") (array (codes "x" ∷ codes "y" ∷ [])) (pos 50)

abbrev pub stocked : Cache plain_compression
stocked = Cache.set second (pos 12) (codes "tags") (object ((codes "k", codes "v") ∷ [])) (pos 0)

pub first-IsValid : IsValid first
first-IsValid = set-IsValid Cache.new _ _ _ _ new-IsValid

pub stocked-IsValid : IsValid stocked
stocked-IsValid =
    set-IsValid second _ _ _ _
      (set-IsValid first _ _ _ _ (set-IsValid Cache.new _ _ _ _ new-IsValid))

abbrev pub manager : PersistenceManager (Unit {0})
manager = record {
  enabled = true;
  command_chan = [];
  acl_file_size = 0;
  max_acl_file_size = 1000;
  atd_path = codes "cache.atd";
  acl_path = codes "cache.acl";
  atd_interval = pos 3600000000000;
  acl_interval = pos 1000000000;
}

-- A server whose password is "secret".
abbrev pub locked : Server plain_compression
locked = record {
  formats = record { marshal = λ m. codes "{}"; show = λ p. codes "()" };
  auth_manager = some (record { password_file = codes "auth.dat"; enabled = true });
  verify_password = λ m password. if text_eq password (codes "secret") then valid else invalid;
}

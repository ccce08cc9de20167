-- ===== src/Tests/Restarts.antt =====
-- The theorem on restarts at two calls.
use ant_cache.Base.{
  ℕ, ◌+◌, ◌≡◌, refl, inl, inr, true, none, List, [], ◌∷◌, arith, ℤ, pos, Text, codes, text_eq,
  lookup, insert, erase, length, All, drop, take,
}
use ant_cache.Persistence.{PersistenceManager, log_to, log_command, chan_capacity}
use ant_cache.Cache
use ant_cache.Cache.{
  Cache, new, get, put_item, add_item, alloc, logged, delete_found, unheap, expiration_of,
}
use ant_cache.Strings.{show_int, show_digits, has_prefix}
use ant_cache.Utils.Quotes.{after_prefix}
use ant_cache.Log.{show_value, show_command}
use ant_cache.Log.Files.{Disk, process_commands, write_all, write_command_to_acl, rotate_acl_file}
use ant_cache.Log.Writing.{IsSmoothRun}
use ant_cache.Log.Restart.{Call, set_string, delete_key, call, commands_of_call, logged_by}
use ant_cache.Log.Restored.{IsKept, cmds_of, files_after, no_files}
use ant_cache.Tests.{plain_compression, manager}

abbrev pub shows : Unit {0} → Text
shows p = codes "()"

abbrev pub ticks : ℕ → ℤ
ticks n = pos (100 + n)

abbrev pub calls : List Call
calls =
    set_string (pos 5) (codes "name") (codes "ann")
    ∷ delete_key (pos 6) (codes "name")
    ∷ set_string (pos 7) (codes "b") (codes "v")
    ∷ []

abbrev pub disks : ℕ → Disk
disks n = record {
  made = true;
  renamed = true;
  opened = true;
  written = none;
  stamp = codes "20260101_000000";
}

pub calls-IsKept : All (IsKept plain_compression shows ticks) calls
unfolding show_command show_value show_int show_digits has_prefix after_prefix
calls-IsKept = (
  (
    (
      record {
        timestamp = omega arith;
        ttl = omega arith;
        type = omega arith;
        key = omega arith;
        value = omega arith;
      },
      (refl, refl),
      (inl refl, refl, (codes "ann", refl)),
    ),
    (omega arith, omega arith),
  ),
  (
    (
      (
        record {
          timestamp = omega arith;
          ttl = omega arith;
          type = omega arith;
          key = omega arith;
          value = omega arith;
        },
        (refl, refl),
        (inr refl, refl, ([], refl)),
      ),
      (omega arith, omega arith),
    ),
    (
      (
        (
          record {
            timestamp = omega arith;
            ttl = omega arith;
            type = omega arith;
            key = omega arith;
            value = omega arith;
          },
          (refl, refl),
          (inl refl, refl, (codes "v", refl)),
        ),
        (omega arith, omega arith),
      ),
      tt,
    ),
  ),
)

abbrev pub logged_commands : List (ant_cache.Persistence.Command (Unit {0}))
logged_commands = cmds_of plain_compression shows ticks manager calls

pub smooth :
    IsSmoothRun shows disks 0
      (record manager { command_chan = drop (length logged_commands) logged_commands })
      no_files
      (take (length logged_commands) logged_commands)
unfolding logged_by call commands_of_call Cache.set put_item add_item alloc logged log_to
    log_command expiration_of Cache.delete delete_found unheap lookup insert erase text_eq new
    write_command_to_acl rotate_acl_file show_command show_value show_int show_digits
smooth = (
  (refl, refl, refl, refl, refl),
  ((refl, refl, refl, refl, refl), ((refl, refl, refl, refl, refl), tt)),
)

pub unrotated : (files_after plain_compression shows ticks manager disks calls).rotated ≡ []
unfolding logged_by call commands_of_call Cache.set put_item add_item alloc logged log_to
    log_command expiration_of Cache.delete delete_found unheap lookup insert erase text_eq new
    write_command_to_acl rotate_acl_file show_command show_value show_int show_digits
    process_commands write_all
unrotated = refl

-- ===== src/Tests/Logs.antt =====
-- The theorems on the command log at a log of three commands.
use ant_cache.Base.{
  ℕ, ◌+◌, ◌≡◌, refl, inl, inr, Bool, true, none, some, List, [], ◌∷◌, ◌++◌, arith, ℤ, pos, Text,
  codes, text_eq, lookup, All, join, drop, take,
}
use ant_cache.Item.{Value, str, array}
use ant_cache.Persistence.{Command, PersistenceManager}
use ant_cache.Cache.{Cache, new, get}
use ant_cache.Cache.Valid.{IsValid}
use ant_cache.Strings.{show_int, show_digits, has_prefix}
use ant_cache.Strings.Lines.{unlines}
use ant_cache.Utils.Quotes.{after_prefix}
use ant_cache.Log.{parse_line, show_value, show_command}
use ant_cache.Log.Lines.{IsLoggable}
use ant_cache.Log.Values.{parse_line-show_command}
use ant_cache.Log.Replay.{readable, load_acl}
use ant_cache.Log.Durability.{recall, IsStringLine, IsScanned, log_lines, load_acl-recall}
use ant_cache.Log.Files.{LogFiles, Disk, process_commands}
use ant_cache.Log.Writing.{whole, shown, IsSmoothRun, IsSmooth, process_commands-whole}
use ant_cache.Log.Merging.{IsMerged, commands_in, all_commands-chooses}
use ant_cache.Log.Compact.{all_commands, file_texts}
use ant_cache.Tests.{plain_compression}

abbrev Packed : Type 0
Packed = Unit {0}

abbrev shows : Packed → Text
shows p = codes "()"

abbrev command : ℤ → Text → Text → Value Packed → Command Packed
command time type key value = record {
  timestamp = time;
  type = type;
  key = key;
  value = value;
  ttl = pos 0;
}

abbrev set_name : Command Packed
set_name = command (pos 5) (codes "SET") (codes "name") (str (codes "ann"))

abbrev delete_name : Command Packed
delete_name = command (pos 6) (codes "DEL") (codes "name") (str [])

abbrev set_list : Command Packed
set_list = command (pos 7) (codes "SETS") (codes "list") (array (codes "x" ∷ codes "y" ∷ []))

set_list-IsLoggable : IsLoggable shows set_list
unfolding show_value join
set_list-IsLoggable = record {
  timestamp = omega arith;
  ttl = omega arith;
  type = omega arith;
  key = omega arith;
  value = omega arith;
}

parse_line-show_command_example : parse_line (show_command shows set_list) ≡ some set_list
unfolding join
parse_line-show_command_example =
    parse_line-show_command shows set_list set_list-IsLoggable
      ((omega arith, (omega arith, tt)), (refl, (refl, (refl, tt))))

abbrev commands : List (Command Packed)
commands = set_name ∷ delete_name ∷ []

strings_lines : All (IsStringLine shows) commands
unfolding show_value has_prefix after_prefix
strings_lines = (
  (
    record {
      timestamp = omega arith;
      ttl = omega arith;
      type = omega arith;
      key = omega arith;
      value = omega arith;
    },
    (refl, refl),
    (inl refl, refl, (codes "ann", refl)),
  ),
  (
    (
      record {
        timestamp = omega arith;
        ttl = omega arith;
        type = omega arith;
        key = omega arith;
        value = omega arith;
      },
      (refl, refl),
      (inr refl, refl, ([], refl)),
    ),
    tt,
  ),
)

strings-IsScanned : All (IsScanned shows) commands
unfolding show_command show_value show_int show_digits
strings-IsScanned = ((omega arith, omega arith), ((omega arith, omega arith), tt))

abbrev ticks : ℕ → ℤ
ticks n = pos (100 + n)

load_acl-recall_example :
    (c' : Cache plain_compression) × (load_acl true ticks new
        (readable (unlines (log_lines shows commands)))
      ≡ some (true, c'))
    × IsValid c'
    × ((t : ℤ) (k : Text) → get c' t k ≡ recall (λ k. none) commands k)
load_acl-recall_example =
    load_acl-recall shows ticks commands (λ s. refl) strings_lines strings-IsScanned

-- A file system on which nothing fails, and a manager with two commands in its channel whose file is
-- full.
abbrev disk : Disk
disk = record {
  made = true;
  renamed = true;
  opened = true;
  written = none;
  stamp = codes "20260101_000000";
}

abbrev busy : PersistenceManager Packed
busy = record {
  enabled = true;
  command_chan = commands;
  acl_file_size = 3;
  max_acl_file_size = 3;
  atd_path = codes "cache.atd";
  acl_path = codes "cache.acl";
  atd_interval = pos 3600000000000;
  acl_interval = pos 1000000000;
}

abbrev files : LogFiles
files = record { current = some (codes "x||"); rotated = (codes "20250101_000000", codes "y") ∷ [] }

disk-IsSmooth : IsSmooth disk busy files
unfolding lookup text_eq
disk-IsSmooth = (refl, refl, refl, refl, refl)

abbrev disks : ℕ → Disk
disks n = disk

one_taken :
    IsSmoothRun shows disks 0
      (record busy { command_chan = drop 1 busy.command_chan })
      files
      (take 1 busy.command_chan)
unfolding lookup text_eq
one_taken = ((refl, refl, refl, refl, refl), tt)

process_commands-whole_example :
    ((process_commands shows disks 1 busy files).0.command_chan ≡ drop 1 busy.command_chan)
    × (whole (process_commands shows disks 1 busy files).1
        ≡ whole files ++ shown shows (take 1 busy.command_chan))
process_commands-whole_example = process_commands-whole shows disks 1 busy files one_taken

-- The log of the two commands, and an older file with one more line.
abbrev two_files : LogFiles
two_files = record {
  current = some (codes "6|DEL|name||0");
  rotated = (codes "20250101_000000", codes "5|SET|name|ann|0") ∷ [];
}

abbrev always : ℕ → Bool
always n = true

all_commands-chooses_example :
    IsMerged
      (commands_in {P = Packed} always 0 (two_files.current ∷ file_texts two_files.rotated))
      (all_commands {P = Packed} always two_files)
all_commands-chooses_example = all_commands-chooses Packed always two_files

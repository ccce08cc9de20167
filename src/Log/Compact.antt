-- ===== src/Log/Compact.antt =====
-- cache/persistence.go: flushAcl and compactAclFiles, which merge the files of the log. The
-- order in which Go's map gives the merged commands is not specified; here it is the table's order.
use ant_cache.Base.{
  ◌≡◌, refl, take, ℕ, suc, Bool, ◌&&◌, ◌||◌, Option, none, some, List, [], ◌∷◌, ◌++◌, if◌then◌else◌,
  Text, codes, text_eq, Table, lookup, insert, erase, length, ltb_ℤ, is_some,
}
use ant_cache.Persistence.{Command, PersistenceManager}
use ant_cache.Strings.{scan_lines}
use ant_cache.Log.{parse_compact_line, show_command}
use ant_cache.Log.Files.{LogFiles, content}

-- What the file system answers: `opens` for the files by their place (the current file first), the
-- creation of the merged file, the bytes that are written to it before an error, `removes` for the
-- files by their names, the renaming of the merged file, and Stat.
pub record CompactDisk : Type 0 where
  pub opens : ℕ → Bool
  pub created : Bool
  pub write_error : Option ℕ
  pub removes : Text → Bool
  pub renamed : Bool
  pub stats : Bool

abbrev pub is_delete : Text → Bool
is_delete type =
    text_eq type (codes "DEL") || text_eq type (codes "DELS") || text_eq type (codes "DELX")

module _ {P : Type 0} where
  -- The merge strategy, for the command that the map has for the key.
  abbrev pub merge_found : Table (Command P) → Command P → Option (Command P) → Table (Command P)
  merge_found commands cmd none = insert cmd.key cmd commands
  merge_found commands cmd (some existing_cmd) =
      if is_delete cmd.type
      then insert cmd.key cmd commands
      else if is_delete existing_cmd.type
      then commands
      else if ltb_ℤ existing_cmd.timestamp cmd.timestamp
      then insert cmd.key cmd commands
      else commands

  unfoldable pub merge_command : Table (Command P) → Command P → Table (Command P)
  merge_command commands cmd = merge_found commands cmd (lookup cmd.key commands)

  abbrev pub merge_line : Table (Command P) → Option (Command P) → Table (Command P)
  merge_line commands none = commands
  merge_line commands (some cmd) = merge_command commands cmd

  unfoldable pub merge_lines : Table (Command P) → List Text → Table (Command P)
  merge_lines commands [] = commands
  merge_lines commands (line ∷ lines) =
      merge_lines (merge_line commands (parse_compact_line line)) lines

  -- A file that cannot be opened is passed over, and a scanner that stops leaves the rest of the file.
  unfoldable pub merge_files :
      (ℕ → Bool) → ℕ → Table (Command P) → List (Option Text) → Table (Command P)
  unfolding merge_lines
  merge_files opens n commands [] = commands
  merge_files opens n commands (file ∷ files) =
      merge_files opens (suc n)
        (if opens n && is_some file
          then merge_lines commands (scan_lines (content file)).0
          else commands)
        files

  abbrev pub merged_text : (P → Text) → Table (Command P) → Text
  merged_text show [] = []
  merged_text show ((key, cmd) ∷ commands) =
      (show_command show cmd ++ 10 ∷ []) ++ merged_text show commands

abbrev pub file_texts : Table Text → List (Option Text)
file_texts [] = []
file_texts ((name, text) ∷ files) = some text ∷ file_texts files

abbrev pub file_names : Table Text → List Text
file_names [] = []
file_names ((name, text) ∷ files) = name ∷ file_names files

-- The merged file has a name like those of the rotated files.
abbrev pub merged_name : Text
merged_name = codes "merged"

unfoldable pub remove_files : (Text → Bool) → List Text → Table Text → Table Text
remove_files removes [] files = files
remove_files removes (name ∷ names) files =
    remove_files removes names (if removes name then erase name files else files)

module _ {P : Type 0} where
  unfoldable pub all_commands : (ℕ → Bool) → LogFiles → Table (Command P)
  unfolding merge_files
  all_commands opens files = merge_files opens 0 [] (files.current ∷ file_texts files.rotated)

  -- Rename fails where the merged file is not there.
  abbrev pub rename_merged :
      CompactDisk → PersistenceManager P → LogFiles → Table Text → PersistenceManager P × LogFiles
  rename_merged disk pm files rotated = elim (lookup merged_name rotated) [
    | none ↦ (pm, record files { rotated = rotated })
    | some text ↦
        if disk.renamed
        then (
          record pm { acl_file_size = if disk.stats then length text else 0 },
          record { current = some text; rotated = erase merged_name rotated },
        )
        else (pm, record files { rotated = rotated })
  ]

  -- A merged file that an earlier run left is among the files that are removed.
  abbrev pub write_merged :
      CompactDisk → PersistenceManager P → LogFiles → Text → PersistenceManager P × LogFiles
  write_merged disk pm files merged = elim disk.write_error [
    | some n ↦ (pm, record files { rotated = insert merged_name (take n merged) files.rotated })
    | none ↦ rename_merged disk pm files (
        remove_files disk.removes (file_names files.rotated)
          (insert merged_name merged files.rotated))
  ]

  unfoldable pub compact_acl_files :
      (P → Text) → CompactDisk → PersistenceManager P → LogFiles → PersistenceManager P × LogFiles
  unfolding all_commands remove_files
  compact_acl_files show disk pm files =
      let done = write_merged disk pm files (merged_text show (all_commands disk.opens files)) in
      elim files.rotated [ [] ↦ (pm, files) | _ ∷ _ ↦ if disk.created then done else (pm, files) ]

  -- After its pause.
  unfoldable pub flush_acl :
      (P → Text) → CompactDisk → PersistenceManager P → LogFiles → PersistenceManager P × LogFiles
  flush_acl show disk pm files = compact_acl_files show disk pm files

  -- A log that was not rotated is left as it is.
  pub flush_acl-unrotated :
      (show : P → Text) (disk : CompactDisk) (pm : PersistenceManager P) (files : LogFiles)
      → files.rotated ≡ []
      → (flush_acl show disk pm files).1 ≡ files
  unfolding flush_acl compact_acl_files
  flush_acl-unrotated show disk pm files h = simp (flush_acl, compact_acl_files, h) refl

-- ===== src/Log/Files.antt =====
-- cache/persistence.go: the files of the command log, which processCommands writes and
-- rotateAclFile renames. What the file system answers is an argument.
use ant_cache.Base.{
  ℕ, suc, ◌+◌, Bool, Option, none, some, List, [], ◌∷◌, ◌++◌, if◌then◌else◌, Text, Table, insert,
  length, leb, drop, take,
}
use ant_cache.Persistence.{Command, PersistenceManager}
use ant_cache.Log.{show_command}

-- The file at the path of the log, and the files that carry a time behind that path.
pub record LogFiles : Type 0 where
  pub current : Option Text
  pub rotated : Table Text

-- What MkdirAll, Rename, OpenFile and WriteString answer during one write: `written` is the number of
-- bytes that are written before an error; `stamp` is the time as rotateAclFile formats it.
pub record Disk : Type 0 where
  pub made : Bool
  pub renamed : Bool
  pub opened : Bool
  pub written : Option ℕ
  pub stamp : Text

abbrev pub content : Option Text → Text
content none = []
content (some text) = text

module _ {P : Type 0} where
  -- A file that is not there is not renamed.
  unfoldable pub rotate_acl_file :
      Disk → PersistenceManager P → LogFiles → PersistenceManager P × LogFiles
  rotate_acl_file disk pm files = elim files.current [
    | none ↦ (pm, files)
    | some text ↦
        if disk.renamed
        then (
          record pm { acl_file_size = 0 },
          record { current = none; rotated = insert disk.stamp text files.rotated },
        )
        else (pm, files)
  ]

  abbrev pub append_line :
      Disk → Text → PersistenceManager P → LogFiles → PersistenceManager P × LogFiles
  append_line disk line pm files = elim disk.written [
    | none ↦ (
      record pm { acl_file_size = pm.acl_file_size + length line },
      record files { current = some (content files.current ++ line) },
    )
    | some n ↦ (pm, record files { current = some (content files.current ++ take n line) })
  ]

  unfoldable pub write_command_to_acl :
      (P → Text)
      → Disk
      → PersistenceManager P
      → LogFiles
      → Command P
      → PersistenceManager P × LogFiles
  unfolding rotate_acl_file
  write_command_to_acl show disk pm files cmd =
      let (pm1, files1) =
        if leb pm.max_acl_file_size pm.acl_file_size
        then rotate_acl_file disk pm files
        else (pm, files) in
      if disk.made
      then (if disk.opened
          then append_line disk (show_command show cmd ++ 10 ∷ []) pm1 files1
          else (pm1, files1))
      else (pm, files)

  unfoldable pub write_all :
      (P → Text)
      → (ℕ → Disk)
      → ℕ
      → PersistenceManager P
      → LogFiles
      → List (Command P)
      → PersistenceManager P × LogFiles
  unfolding write_command_to_acl
  write_all show disks n pm files [] = (pm, files)
  write_all show disks n pm files (cmd ∷ cmds) =
      let (pm1, files1) = write_command_to_acl show (disks n) pm files cmd in
      write_all show disks (suc n) pm1 files1 cmds

  -- The loop takes `taken` commands from the channel before it sees that the manager has stopped.
  unfoldable pub process_commands :
      (P → Text)
      → (ℕ → Disk)
      → ℕ
      → PersistenceManager P
      → LogFiles
      → PersistenceManager P × LogFiles
  unfolding write_all
  process_commands show disks taken pm files =
      let rest = drop taken pm.command_chan in
      write_all show disks 0 (record pm { command_chan = rest }) files (take taken pm.command_chan)

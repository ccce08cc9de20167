-- ===== src/Log/Writing.antt =====
-- cache/persistence.go: what processCommands leaves in the files of the log.
use ant_cache.Base.{
  take, drop, length-append, ℕ, suc, ◌+◌, ◌<◌, ◌≡◌, refl, sym, ap, ◌∙◌, inl, inr, true, none, List,
  [], ◌∷◌, ◌++◌, arith, Text, text_eq, Table, lookup, insert, length, Bool-cases, Option-cases, leb,
}
use mathlib.Core.List.{append_assoc, append-nil}
use ant_cache.Persistence.{Command, PersistenceManager}
use ant_cache.Log.{show_command}
use ant_cache.Log.Files.{
  LogFiles, Disk, content, rotate_acl_file, append_line, write_command_to_acl, write_all,
  process_commands,
}

abbrev pub texts : Table Text → Text
texts [] = []
texts ((name, text) ∷ files) = text ++ texts files

-- The text of all files, the oldest first.
abbrev pub whole : LogFiles → Text
whole files = texts files.rotated ++ content files.current

insert-texts :
    (name text : Text) (m : Table Text)
    → lookup name m ≡ none
    → texts (insert name text m) ≡ texts m ++ text
unfolding lookup insert
insert-texts name text [] h = append-nil text
insert-texts name text ((k, v) ∷ m) h = elim (Bool-cases (text_eq k name)) [
  | inl same ↦ absurd (ground arith)
  | inr other ↦ rw other (
      ap (λ x. v ++ x) (insert-texts name text m (ground arith))
      ∙ sym (append_assoc v (texts m) text))
]

-- A write that meets no error, with a new name for the file if that is full.
abbrev pub IsSmooth : {P : Type 0} → Disk → PersistenceManager P → LogFiles → Type 0
IsSmooth disk pm files =
    (disk.made ≡ true)
    × (disk.renamed ≡ true)
    × (disk.opened ≡ true)
    × (disk.written ≡ none)
    × (lookup disk.stamp files.rotated ≡ none)

module _ {P : Type 0} (show : P → Text) where
  rotate-whole :
      (disk : Disk) (pm : PersistenceManager P) (files : LogFiles)
      → IsSmooth disk pm files
      → whole (rotate_acl_file disk pm files).1 ≡ whole files
  unfolding rotate_acl_file
  rotate-whole disk pm files (_, renamed, _, _, fresh) = elim (Option-cases files.current) [
    | inl missing ↦ rw missing refl
    | inr (text, there) ↦
        rw (there, renamed)
          (append-nil (texts (insert disk.stamp text files.rotated))
            ∙ insert-texts disk.stamp text files.rotated fresh)
  ]

  append-whole :
      (disk : Disk) (line : Text) (pm : PersistenceManager P) (files : LogFiles)
      → disk.written ≡ none
      → whole (append_line disk line pm files).1 ≡ whole files ++ line
  append-whole disk line pm files h =
      rw h (sym (append_assoc (texts files.rotated) (content files.current) line))

  write-whole :
      (disk : Disk) (pm : PersistenceManager P) (files : LogFiles) (cmd : Command P)
      → IsSmooth disk pm files
      → whole (write_command_to_acl show disk pm files cmd).1
        ≡ whole files ++ (show_command show cmd ++ 10 ∷ [])
  unfolding write_command_to_acl
  write-whole disk pm files cmd (made, renamed, opened, written, fresh) =
      let line = show_command show cmd ++ 10 ∷ [] in
      let (pm1, files1) = rotate_acl_file disk pm files in
      elim (Bool-cases (leb pm.max_acl_file_size pm.acl_file_size)) [
        | inl full ↦
            rw (full, made, opened)
              (append-whole disk line pm1 files1 written
                ∙ ap (λ x. x ++ line)
                    (rotate-whole disk pm files (made, renamed, opened, written, fresh)))
        | inr room ↦ rw (room, made, opened) (append-whole disk line pm files written)
      ]

  -- Each write of the run is smooth.
  abbrev pub IsSmoothRun :
      (ℕ → Disk) → ℕ → PersistenceManager P → LogFiles → List (Command P) → Type 0
  IsSmoothRun disks n pm files [] = Unit {0}
  IsSmoothRun disks n pm files (cmd ∷ cmds) =
      let (pm1, files1) = write_command_to_acl show (disks n) pm files cmd in
      IsSmooth (disks n) pm files × IsSmoothRun disks (suc n) pm1 files1 cmds

  -- The lines of the commands, each with a newline behind it.
  abbrev pub shown : List (Command P) → Text
  shown [] = []
  shown (cmd ∷ cmds) = (show_command show cmd ++ 10 ∷ []) ++ shown cmds

  write-chan :
      (disk : Disk) (pm : PersistenceManager P) (files : LogFiles) (cmd : Command P)
      → (write_command_to_acl show disk pm files cmd).0.command_chan ≡ pm.command_chan
  unfolding write_command_to_acl rotate_acl_file
  write-chan disk pm files cmd = ground arith

  write_all-chan :
      (disks : ℕ → Disk) (n : ℕ) (pm : PersistenceManager P) (files : LogFiles)
      (cmds : List (Command P))
      → (write_all show disks n pm files cmds).0.command_chan ≡ pm.command_chan
  unfolding write_all
  write_all-chan disks n pm files [] = refl
  write_all-chan disks n pm files (cmd ∷ cmds) =
      let (pm1, files1) = write_command_to_acl show (disks n) pm files cmd in
      write_all-chan disks (suc n) pm1 files1 cmds ∙ write-chan (disks n) pm files cmd

  write_all-whole :
      (disks : ℕ → Disk) (n : ℕ) (pm : PersistenceManager P) (files : LogFiles)
      (cmds : List (Command P))
      → IsSmoothRun disks n pm files cmds
      → whole (write_all show disks n pm files cmds).1 ≡ whole files ++ shown cmds
  unfolding write_all
  write_all-whole disks n pm files [] h = sym (append-nil (whole files))
  write_all-whole disks n pm files (cmd ∷ cmds) (h, hs) =
      let (pm1, files1) = write_command_to_acl show (disks n) pm files cmd in
      write_all-whole disks (suc n) pm1 files1 cmds hs
      ∙ ap (λ x. x ++ shown cmds) (write-whole (disks n) pm files cmd h)
      ∙ append_assoc (whole files) (show_command show cmd ++ 10 ∷ []) (shown cmds)

  -- If no write meets an error and no rotation gives the name of a rotated file that is there, as a
  -- second rotation in the same second does, then the files of the log, the
  -- oldest first, hold what they held before and behind it the lines of the commands that were
  -- taken from the channel, in the order of the channel: rotation loses nothing.
  pub process_commands-whole :
      (disks : ℕ → Disk) (taken : ℕ) (pm : PersistenceManager P) (files : LogFiles)
      → IsSmoothRun disks 0
          (record pm { command_chan = drop taken pm.command_chan })
          files
          (take taken pm.command_chan)
      → ((process_commands show disks taken pm files).0.command_chan ≡ drop taken pm.command_chan)
        × (whole (process_commands show disks taken pm files).1
            ≡ whole files ++ shown (take taken pm.command_chan))
  unfolding process_commands
  process_commands-whole disks taken pm files h =
      let rest = drop taken pm.command_chan in
      (
        write_all-chan disks 0 (record pm { command_chan = rest }) files
            (take taken pm.command_chan),
        write_all-whole disks 0 (record pm { command_chan = rest }) files
            (take taken pm.command_chan) h,
      )

  -- The manager counts the bytes of the current file.
  abbrev pub IsSized : PersistenceManager P → LogFiles → Type 0
  IsSized pm files = length (content files.current) ≡ pm.acl_file_size

  -- Where the size of the current file is counted and the limit is positive, a write without an error
  -- leaves the size counted, and leaves a file that passes the limit by less than the line.
  pub write_command_to_acl-bounded :
      (disk : Disk) (pm : PersistenceManager P) (files : LogFiles) (cmd : Command P)
      → IsSmooth disk pm files
      → 0 < pm.max_acl_file_size
      → IsSized pm files
      → let (pm1, files1) = write_command_to_acl show disk pm files cmd in
        IsSized pm1 files1
        × (length (content files1.current)
            < pm.max_acl_file_size + length (show_command show cmd ++ 10 ∷ []))
  unfolding write_command_to_acl rotate_acl_file
  write_command_to_acl-bounded disk pm files cmd (made, renamed, opened, written, fresh) limit
        sized =
      let line = show_command show cmd ++ 10 ∷ [] in
      elim (Bool-cases (leb pm.max_acl_file_size pm.acl_file_size)) [
        | inl full ↦ elim (Option-cases files.current) [
          | inl missing ↦ absurd (ground (arith, ap content missing))
          | inr (text, there) ↦
              rw (full, made, opened, there, renamed, written) (omega arith, omega arith)
        ]
        | inr room ↦
            let total = length-append (content files.current) line in
            rw (room, made, opened, written) (ground (arith, total), ground (arith, total))
      ]

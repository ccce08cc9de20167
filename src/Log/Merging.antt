-- ===== src/Log/Merging.antt =====
-- cache/persistence.go: which command compactAclFiles keeps for a key.
pub mod Winners
use ant_cache.Base.{
  ◌≤ℤ◌, ℕ, suc, ◌≡◌, refl, sym, ap, ◌∙◌, ◌⊎◌, inl, inr, Bool, true, false, ◌&&◌, Option, none, some,
  List, [], ◌∷◌, ◌++◌, arith, if◌then◌else◌, Text, text_eq, Table, lookup, ltb_ℤ, is_some,
  All-implies, if_true, if_false, Bool-cases, Option-cases, All, lookup-insert, text_eq_iff,
  text_eq_refl,
}
use ant_cache.Persistence.{Command}
use mathlib.Core.Path.{subst}
use mathlib.Core.Option.{some-injective}
use ant_cache.Strings.{scan_lines}
use ant_cache.Log.{parse_compact_line}
use ant_cache.Log.Files.{LogFiles, content}
use ant_cache.Log.Compact.{
  merge_lines, merge_files, all_commands, file_texts, is_delete, merge_found, merge_command,
}
use ant_cache.Log.Merging.Winners.{
  merge_all, Wins, HasWinner, chosen, merge_command-lookup, merge_all-chooses,
}

module _ {P : Type 0} where
  -- The commands that the lines, and the files, hold.
  unfoldable pub commands_of : List Text → List (Command P)
  commands_of [] = []
  commands_of (line ∷ lines) =
      let rest = commands_of lines in
      elim (parse_compact_line line) [ some cmd ↦ cmd ∷ rest | none ↦ rest ]

  unfoldable pub commands_in : (ℕ → Bool) → ℕ → List (Option Text) → List (Command P)
  commands_in opens n [] = []
  commands_in opens n (file ∷ files) =
      (if opens n && is_some file then commands_of (scan_lines (content file)).0 else [])
      ++ commands_in opens (suc n) files

  merge_all-append :
      (commands : Table (Command P)) (xs ys : List (Command P))
      → merge_all commands (xs ++ ys) ≡ merge_all (merge_all commands xs) ys
  unfolding merge_all
  merge_all-append commands [] ys = refl
  merge_all-append commands (x ∷ xs) ys = merge_all-append (merge_command commands x) xs ys

  merge_lines-merge_all :
      (commands : Table (Command P)) (lines : List Text)
      → merge_lines commands lines ≡ merge_all commands (commands_of lines)
  unfolding merge_lines merge_all commands_of
  merge_lines-merge_all commands [] = refl
  merge_lines-merge_all commands (line ∷ lines) =
      elim (Option-cases (parse_compact_line {P = P} line)) [
        | inl bad ↦ rw (merge_lines, commands_of, bad) (merge_lines-merge_all commands lines)
        | inr (cmd, good) ↦
            rw (merge_lines, commands_of, good)
              (merge_lines-merge_all (merge_command commands cmd) lines)
      ]

  merge_files-merge_all :
      (opens : ℕ → Bool) (n : ℕ) (commands : Table (Command P)) (files : List (Option Text))
      → merge_files opens n commands files ≡ merge_all commands (commands_in opens n files)
  unfolding merge_files commands_in merge_all
  merge_files-merge_all opens n commands [] = refl
  merge_files-merge_all opens n commands (file ∷ files) =
      elim (Bool-cases (opens n && is_some file)) [
        | inl opened ↦
            let lines = (scan_lines (content file)).0 in
            rw (merge_files, commands_in, opened)
              (ap (λ m. merge_files opens (suc n) m files) (merge_lines-merge_all commands lines)
                ∙ merge_files-merge_all opens (suc n) (merge_all commands (commands_of lines)) files
                ∙ sym (
                    merge_all-append commands (commands_of lines)
                      (commands_in opens (suc n) files)))
        | inr closed ↦
            rw (merge_files, commands_in, closed)
              (merge_files-merge_all opens (suc n) commands files)
      ]

  -- The command is one of the list.
  abbrev pub IsOf : List (Command P) → Command P → Type 0
  IsOf [] w = ⊥
  IsOf (x ∷ xs) w = (w ≡ x) ⊎ IsOf xs w

  All-IsOf : (cmds : List (Command P)) → All (IsOf cmds) cmds
  All-IsOf [] = tt
  All-IsOf (x ∷ xs) = (inl refl, All-implies (IsOf xs) (IsOf (x ∷ xs)) xs (λ w. inr) (All-IsOf xs))

  module _ (S : Command P → Type 0) where
    -- Each entry of the map is a command of its key that `S` speaks of.
    abbrev Holds : Table (Command P) → Type 0
    Holds commands = (k : Text) (w : Command P) → lookup k commands ≡ some w → (w.key ≡ k) × S w

    chosen-from :
        (cmd w : Command P) (o : Option (Command P))
        → ((v : Command P) → o ≡ some v → (v.key ≡ cmd.key) × S v)
        → S cmd
        → chosen cmd o ≡ w
        → (w.key ≡ cmd.key) × S w
    chosen-from cmd w none found given e = subst (λ v. (v.key ≡ cmd.key) × S v) e (refl, given)
    chosen-from cmd w (some old) found given e =
        subst (λ v. (v.key ≡ cmd.key) × S v) e
          (elim (Bool-cases (is_delete cmd.type)) [
            | inl del ↦ rw del (refl, given)
            | inr put ↦ elim (Bool-cases (is_delete old.type)) [
              | inl gone ↦ rw (put, gone) (found old refl)
              | inr kept ↦ elim (Bool-cases (ltb_ℤ old.timestamp cmd.timestamp)) [
                | inl newer ↦ rw (put, kept, newer) (refl, given)
                | inr older ↦ rw (put, kept, older) (found old refl)
              ]
            ]
          ])

    merge_command-Holds :
        (commands : Table (Command P)) (cmd : Command P)
        → Holds commands
        → S cmd
        → Holds (merge_command commands cmd)
    merge_command-Holds commands cmd h given k w e = elim (Bool-cases (text_eq cmd.key k)) [
      | inl same ↦
          let at_k = (text_eq_iff cmd.key k).0 same in
          let o = lookup cmd.key commands in
          let met : some (chosen cmd o) ≡ some w =
            sym (if_true (text_eq cmd.key k) (some (chosen cmd o)) (lookup k commands) same)
            ∙ sym (merge_command-lookup commands cmd k)
            ∙ e in
          let (keyed, stands) =
            chosen-from cmd w o (h cmd.key) given (some-injective (chosen cmd o) w met) in
          (keyed ∙ at_k, stands)
      | inr other ↦ h k w (
          sym (
            if_false (text_eq cmd.key k) (some (chosen cmd (lookup cmd.key commands)))
              (lookup k commands) other)
          ∙ sym (merge_command-lookup commands cmd k)
          ∙ e)
    ]

    merge_all-Holds :
        (commands : Table (Command P)) (cmds : List (Command P))
        → Holds commands
        → All S cmds
        → Holds (merge_all commands cmds)
    unfolding merge_all
    merge_all-Holds commands [] h given = h
    merge_all-Holds commands (cmd ∷ cmds) h (first, given) =
        merge_all-Holds (merge_command commands cmd) cmds (merge_command-Holds commands cmd h first)
          given

  -- Of the commands `cmds` the map holds one of the same key that wins.
  abbrev pub HasChosen : List (Command P) → Table (Command P) → Command P → Type 0
  HasChosen cmds commands cmd =
      (w : Command P) × (lookup cmd.key commands ≡ some w)
      × (w.key ≡ cmd.key)
      × IsOf cmds w
      × Wins w cmd

  -- Each key and each command of the map that is merged comes from the commands.
  abbrev pub IsMerged : List (Command P) → Table (Command P) → Type 0
  IsMerged cmds commands =
      All (HasChosen cmds commands) cmds
      × ((k : Text) (w : Command P) → lookup k commands ≡ some w → (w.key ≡ k) × IsOf cmds w)

  merge_all-IsMerged : (cmds : List (Command P)) → IsMerged cmds (merge_all [] cmds)
  unfolding lookup
  merge_all-IsMerged cmds =
      let h = merge_all-Holds (IsOf cmds) [] cmds (λ k w e. absurd (cc e)) (All-IsOf cmds) in
      (
        All-implies (HasWinner (merge_all [] cmds)) (HasChosen cmds (merge_all [] cmds)) cmds
            (λ cmd (w, found, wins).
              let (keyed, stands) = h cmd.key w found in (w, found, keyed, stands, wins))
            (merge_all-chooses [] cmds),
        h,
      )

-- For each command that the log files hold, compactAclFiles keeps under its key one of these commands,
-- of the same key, and that one is a deletion, or the given command is no deletion and is not younger.
-- So a key with a deletion in the log keeps a deletion, whatever is set after it. And whatever is kept
-- under a key is a command of that key that the files hold.
pub all_commands-chooses :
    (P : Type 0) (opens : ℕ → Bool) (files : LogFiles)
    → IsMerged
        (commands_in {P = P} opens 0 (files.current ∷ file_texts files.rotated))
        (all_commands {P = P} opens files)
unfolding all_commands
all_commands-chooses P opens files =
    let texts = files.current ∷ file_texts files.rotated in
    subst (IsMerged (commands_in {P = P} opens 0 texts))
      (sym (merge_files-merge_all opens 0 [] texts))
      (merge_all-IsMerged (commands_in {P = P} opens 0 texts))

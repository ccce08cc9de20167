-- ===== src/Log/Restored.antt =====
-- cache/cache.go and cache/persistence.go together: what a new cache has after a restart.
use ant_cache.Base.{
  All-append, take, drop, length-append, ℕ, ◌+◌, ◌≤◌, ◌<◌, ◌≡◌, refl, sym, ap, ◌∙◌, inl, inr, true,
  none, some, List, [], ◌∷◌, ◌++◌, arith, ℤ, Text, lookup, length, is_some, Bool-cases,
  Option-cases, All,
}
use ant_cache.Persistence.{PersistenceManager, Command, chan_capacity}
use mathlib.Core.Path.{subst}
use mathlib.Core.List.{append_assoc, append-nil}
use ant_cache.Item.{Compression, Restores}
use ant_cache.Cache.{Cache, new, get}
use ant_cache.Cache.Valid.{new-IsValid}
use ant_cache.Log.{show_command}
use ant_cache.Log.Files.{LogFiles, Disk, content, process_commands}
use ant_cache.Log.Writing.{texts, shown, IsSmoothRun, process_commands-whole}
use ant_cache.Log.Replay.{load_acl, readable}
use ant_cache.Log.Durability.{recall, Passes, IsStringLine, IsScanned, log_lines, load_acl-recall}
use ant_cache.Log.Restart.{
  Call, set_string, delete_key, call, commands_of_call, call_command, run_calls, logged_by, started,
  file_of, Logs, set-Logs, delete-Logs,
}
use ant_cache.Strings.Lines.{unlines}

module _ {z : Compression} (pm : PersistenceManager z.Packed) where
  call-Logs :
      (c : Cache z) (cmds : List (Command z.Packed)) (x : Call)
      → Restores z
      → pm.enabled ≡ true
      → length cmds < chan_capacity
      → Logs pm c cmds
      → (c' : Cache z) × (call c x ≡ some c') × Logs pm c' (cmds ++ commands_of_call c x)
  unfolding call commands_of_call
  call-Logs c cmds (set_string now key s) restores on room h =
      (_, refl, set-Logs pm c cmds now key s restores on room h)
  call-Logs c cmds (delete_key now key) restores on room h =
      unfold call in unfold commands_of_call in delete-Logs pm c cmds now key on room h

  length-commands_of_call : (c : Cache z) (x : Call) → length (commands_of_call c x) ≤ 1
  unfolding commands_of_call
  length-commands_of_call c (set_string now key s) = omega arith
  length-commands_of_call c (delete_key now key) = ground arith

  pub run_calls-Logs :
      (c : Cache z) (cmds : List (Command z.Packed)) (xs : List Call)
      → Restores z
      → pm.enabled ≡ true
      → length cmds + length xs ≤ chan_capacity
      → Logs pm c cmds
      → (c' : Cache z) × (run_calls c xs ≡ some c') × Logs pm c' (cmds ++ logged_by c xs)
  unfolding run_calls logged_by
  run_calls-Logs c cmds [] restores on room h =
      (c, refl, subst (Logs pm c) (sym (append-nil cmds)) h)
  run_calls-Logs c cmds (x ∷ xs) restores on room h =
      let (c1, e, h1) = call-Logs c cmds x restores on (omega arith) h in
      let more = commands_of_call c x in
      let (c2, e2, h2) =
        run_calls-Logs c1 (cmds ++ more) xs restores on
          (omega (arith, length-append cmds more, length-commands_of_call c x)) h1 in
      rw (run_calls, logged_by, e)
        (c2, e2, subst (Logs pm c2) (append_assoc cmds more (logged_by c1 xs)) h2)

  pub started-Logs : Logs {z = z} pm (started z pm) []
  unfolding recall new get lookup
  started-Logs =
      let v = new-IsValid {z = z} in
      record {
        valid = record {
          heap = v.heap;
          tracked = v.tracked;
          keyed = v.keyed;
          mapped_used = v.mapped_used;
          heaped_used = v.heaped_used;
        };
        reads = λ t k. refl;
        channel = refl;
      }

module _ {z : Compression} (Q : Command z.Packed → Type 0) where
  commands_of_call-All :
      (c : Cache z) (x : Call) → Q (call_command x) → All Q (commands_of_call c x)
  unfolding commands_of_call
  commands_of_call-All c (set_string now key s) q = (q, tt)
  commands_of_call-All c (delete_key now key) q = elim (Bool-cases (is_some (lookup key c.items))) [
    | inl there ↦ rw there (q, tt)
    | inr absent ↦ rw absent tt
  ]

  pub logged_by-All :
      (c : Cache z) (xs : List Call) → All (λ x. Q (call_command x)) xs → All Q (logged_by c xs)
  unfolding logged_by
  logged_by-All c [] h = tt
  logged_by-All c (x ∷ xs) (q, h) = elim (Option-cases (call c x)) [
    | inl panic ↦
        rw (logged_by, panic)
          (All-append Q (commands_of_call c x) [] (commands_of_call-All c x q) tt)
    | inr (c', e) ↦
        rw (logged_by, e)
          (All-append Q (commands_of_call c x) (logged_by c' xs) (commands_of_call-All c x q)
            (logged_by-All c' xs h))
  ]

pub shown-unlines :
    {P : Type 0}
    → (show : P → Text) (cmds : List (Command P)) → shown show cmds ≡ unlines (log_lines show cmds)
shown-unlines show [] = refl
shown-unlines show (cmd ∷ cmds) =
    append_assoc (show_command show cmd) (10 ∷ []) (shown show cmds)
    ∙ ap (λ x. show_command show cmd ++ 10 ∷ x) (shown-unlines show cmds)

pub shown-nil :
    {P : Type 0} → (show : P → Text) (cmds : List (Command P)) → shown show cmds ≡ [] → cmds ≡ []
shown-nil show [] e = refl
shown-nil show (cmd ∷ cmds) e = absurd (
    omega (
      arith,
      ap length e,
      length-append (show_command show cmd ++ 10 ∷ []) (shown show cmds),
      length-append (show_command show cmd) (10 ∷ []),
    ))

take_all : {A : Type 0} → (xs : List A) → take (length xs) xs ≡ xs
take_all [] = refl
take_all (x ∷ xs) = ap (λ ys. x ∷ ys) (take_all xs)

-- No file has been written.
abbrev pub no_files : LogFiles
no_files = record { current = none; rotated = [] }

module _ (z : Compression) (show : z.Packed → Text) (clock : ℕ → ℤ) where
  new_reads : (t : ℤ) (k : Text) → get (new {z = z}) t k ≡ recall {P = z.Packed} (λ k. none) [] k
  unfolding get new lookup recall
  new_reads t k = refl

  -- Loading a file that holds the lines of the commands, or no file for none.
  load_acl-shown :
      (files : LogFiles) (cmds : List (Command z.Packed))
      → Passes z
      → All (IsStringLine show) cmds
      → All (IsScanned show) cmds
      → content files.current ≡ shown show cmds
      → (c' : Cache z) × (load_acl true clock new (file_of files.current) ≡ some (true, c'))
        × ((t : ℤ) (k : Text) → get c' t k ≡ recall (λ k. none) cmds k)
  unfolding load_acl
  load_acl-shown files cmds passes lines scanned e = elim (Option-cases files.current) [
    | inl absent ↦
        let empty : cmds ≡ [] = shown-nil show cmds (sym e ∙ ap content absent) in
        (
          new,
          ap (λ o. load_acl true clock new (file_of o)) absent,
          λ t k. new_reads t k ∙ ap (λ cs. recall (λ k. none) cs k) (sym empty),
        )
    | inr (text, there) ↦
        let (c', r, _, reads) = load_acl-recall show clock cmds passes lines scanned in
        let held : text ≡ unlines (log_lines show cmds) =
          sym (ap content there) ∙ e ∙ shown-unlines show cmds in
        (
          c',
          ap (λ o. load_acl true clock new (file_of o)) there
              ∙ ap (λ x. load_acl true clock new (readable x)) held
              ∙ unfold load_acl in r,
          reads,
        )
  ]

  -- The command of a call, on a line that is scanned and read back.
  abbrev pub IsKept : Call → Type 0
  IsKept x = IsStringLine show (call_command x) × IsScanned show (call_command x)

  abbrev pub cmds_of : PersistenceManager z.Packed → List Call → List (Command z.Packed)
  cmds_of pm xs = logged_by (started z pm) xs

  abbrev pub files_after : PersistenceManager z.Packed → (ℕ → Disk) → List Call → LogFiles
  files_after pm disks xs =
      let cmds = cmds_of pm xs in
      (process_commands show disks (length cmds) (record pm { command_chan = cmds }) no_files).1

  pub written :
      (pm : PersistenceManager z.Packed) (disks : ℕ → Disk) (cmds : List (Command z.Packed))
      → IsSmoothRun show disks 0
          (record pm { command_chan = drop (length cmds) cmds })
          no_files
          (take (length cmds) cmds)
      → (process_commands show disks
          (length cmds)
          (record pm { command_chan = cmds })
          no_files).1.rotated
        ≡ []
      → content
          (process_commands show disks
            (length cmds)
            (record pm { command_chan = cmds })
            no_files).1.current
        ≡ shown show cmds
  written pm disks cmds smooth unrotated =
      let n = length cmds in
      let files = (process_commands show disks n (record pm { command_chan = cmds }) no_files).1 in
      ap (λ r. texts r ++ content files.current) (sym unrotated)
      ∙ (process_commands-whole show disks n (record pm { command_chan = cmds }) no_files smooth).1
      ∙ ap (shown show) (take_all cmds)

  -- A restart keeps what was set. Strings are set without expiration and deleted on an empty cache;
  -- then the commands that this logged, 50000 at most, are written to a new file and LoadAcl fills an
  -- empty cache from it: Get finds in that cache under each key, at every time, what it finds in the
  -- first one. Compression restores values and lets strings pass, the manager is enabled, the calls'
  -- lines are scanned and read back, no write meets an error and the file is not rotated.
  pub restart_keeps :
      (pm : PersistenceManager z.Packed) (disks : ℕ → Disk) (xs : List Call)
      → Restores z
      → Passes z
      → pm.enabled ≡ true
      → length xs ≤ chan_capacity
      → All IsKept xs
      → IsSmoothRun show disks 0
          (record pm { command_chan = drop (length (cmds_of pm xs)) (cmds_of pm xs) })
          no_files
          (take (length (cmds_of pm xs)) (cmds_of pm xs))
      → (files_after pm disks xs).rotated ≡ []
      → (c : Cache z) × (c' : Cache z) × (run_calls (started z pm) xs ≡ some c)
        × (c.persistence ≡ some (record pm { command_chan = cmds_of pm xs }))
        × (load_acl true clock new (file_of (files_after pm disks xs).current) ≡ some (true, c'))
        × ((t : ℤ) (k : Text) → get c' t k ≡ get c t k)
  restart_keeps pm disks xs restores passes on room kept smooth unrotated =
      let cmds = cmds_of pm xs in
      let (c, e, h) =
        run_calls-Logs pm (started z pm) [] xs restores on (omega (arith, room))
          (started-Logs pm) in
      let (c', e', reads) =
        load_acl-shown (files_after pm disks xs) cmds passes
          (logged_by-All (IsStringLine show) (started z pm) xs (lines xs kept))
          (logged_by-All (IsScanned show) (started z pm) xs (scans xs kept))
          (written pm disks cmds smooth unrotated) in
      (c, c', e, h.channel, e', λ t k. reads t k ∙ sym (h.reads t k))
    where
      lines : (xs : List Call) → All IsKept xs → All (λ x. IsStringLine show (call_command x)) xs
      lines [] h = tt
      lines (x ∷ xs) (k, h) = (k.0, lines xs h)

      scans : (xs : List Call) → All IsKept xs → All (λ x. IsScanned show (call_command x)) xs
      scans [] h = tt
      scans (x ∷ xs) (k, h) = (k.1, scans xs h)

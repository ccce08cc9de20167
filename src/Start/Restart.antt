-- ===== src/Start/Restart.antt =====
-- cache/cache.go and cache/persistence.go: a cache that is closed, and the one that the next start opens
-- on its files.
use ant_cache.Base.{
  take, drop, All-implies, ◌≤ℤ◌, IsInt64, if_true, ℕ, ◌≤◌, ◌≡◌, refl, sym, ap, ◌∙◌, inl, inr, Bool,
  true, not, ◌&&◌, Option, none, some, List, [], arith, ℤ, Text, text_eq, length, is_some,
  Option-cases, All,
}
use mathlib.Core.Option.{some-injective}
use ant_cache.Item.{Compression, Restores}
use ant_cache.Persistence.{PersistenceManager, Command, chan_capacity, new_persistence_manager}
use ant_cache.Cache.{Cache, new, get}
use ant_cache.Cache.Valid.{IsValid}
use ant_cache.Atd.{save_atd, load_atd, load_file}
use ant_cache.Atd.Values.RoundTrip.{IsMap}
use ant_cache.Atd.Snapshot.{FitRecords, load_atd-save_atd}
use ant_cache.Atd.Loaded.{load_atd-IsValid}
use ant_cache.Log.Compact.{flush_acl-unrotated}
use ant_cache.Log.Durability.{recall, Passes, IsStringLine, IsScanned, log_lines, log_lines-IsLine}
use ant_cache.Log.Files.{content, process_commands}
use ant_cache.Log.Overlay.{Settled, recall_at, recall_some, replay-recall}
use ant_cache.Log.Recovery.{load_acl_total, load_acl-scanned}
use ant_cache.Log.Replay.{load_acl, readable}
use ant_cache.Log.Restart.{Call, call_command, run_calls, started, file_of}
use ant_cache.Log.Restored.{
  run_calls-Logs, started-Logs, logged_by-All, shown-unlines, shown-nil, written, no_files, IsKept,
  cmds_of, files_after,
}
use ant_cache.Log.Writing.{shown, IsSmoothRun}
use ant_cache.Strings.Lines.{unlines, scan_lines-unlines}
use ant_cache.Start.{ticks, start_manager, Opened, Stored, opened, load_files, new_with_persistence}
use ant_cache.Start.Loading.{persistent-IsValid}
use ant_cache.Start.Closing.{Files, Ending, replaced, stop, stop_if, close}

module _ (z : Compression) (show : z.Packed → Text) (clock : ℕ → ℤ) where
  -- One key, where the file holds the lines of the commands, or is not there for none.
  loaded_over_at :
      (current : Option Text) (cmds : List (Command z.Packed)) (c : Cache z) (t : ℤ) (k : Text)
      → Passes z
      → All (IsStringLine show) cmds
      → All (IsScanned show) cmds
      → content current ≡ shown show cmds
      → IsValid c
      → Settled t k c cmds
      → (c' : Cache z) × (load_acl true clock c (file_of current) ≡ some (true, c'))
        × (get c' t k ≡ recall (λ j. get c t j) cmds k)
  unfolding load_acl recall
  loaded_over_at none cmds c t k passes lines scanned e v settled =
      let empty : cmds ≡ [] = shown-nil show cmds (sym e) in
      (c, refl, ap (λ cs. recall (λ j. get c t j) cs k) (sym empty))
  loaded_over_at (some text) cmds c t k passes lines scanned e v settled =
      let (c', r, reads) = replay-recall t k show clock 1 c cmds passes lines v settled in
      let held : text ≡ unlines (log_lines show cmds) = e ∙ shown-unlines show cmds in
      (
        c',
        ap (λ x. load_acl true clock c (readable x)) held
            ∙ load_acl-scanned clock c c' (unlines (log_lines show cmds)) (log_lines show cmds)
                (scan_lines-unlines (log_lines show cmds) (log_lines-IsLine show cmds scanned)) r,
        reads,
      )

  loaded_over :
      (current : Option Text) (cmds : List (Command z.Packed)) (c : Cache z) (now : ℤ)
      → Passes z
      → All (IsStringLine show) cmds
      → All (IsScanned show) cmds
      → content current ≡ shown show cmds
      → IsValid c
      → ((t : ℤ) (k : Text) → now ≤ℤ t → Settled t k c cmds)
      → (ok : Bool) × (c' : Cache z) × (load_acl true clock c (file_of current) ≡ some (ok, c'))
        × ((t : ℤ) (k : Text) → now ≤ℤ t → get c' t k ≡ recall (λ j. get c t j) cmds k)
  loaded_over current cmds c now passes lines scanned e v settled =
      let (ok, c', r, v') = load_acl_total true clock c (file_of current) v in
      (
        ok,
        c',
        r,
        λ t k later.
            let (c2, r2, reads) =
              loaded_over_at current cmds c t k passes lines scanned e v (settled t k later) in
            let same : c2 ≡ c' =
              ap (λ (x : Bool × Cache z). x.1) (some-injective (true, c2) (ok, c') (sym r2 ∙ r)) in
            ap (λ (x : Cache z). get x t k) (sym same) ∙ reads,
      )

  -- The last commands of the keys, over a cache that has what they leave.
  Settled-by :
      (cmds : List (Command z.Packed)) (c : Cache z) (t : ℤ) (k : Text)
      → get c t k ≡ recall {P = z.Packed} (λ j. none) cmds k
      → Settled t k c cmds × (recall (λ j. get c t j) cmds k ≡ get c t k)
  Settled-by cmds c t k e = elim (Option-cases (recall {P = z.Packed} (λ j. none) cmds k)) [
    | inl gone ↦
        let empty : get c t k ≡ none = e ∙ gone in
        (inr (inl empty), recall_at cmds (λ j. get c t j) (λ j. none) k empty ∙ sym e)
    | inr (value, set) ↦
        let last = ap is_some set in
        (inr (inr last), recall_some cmds (λ j. get c t j) k last ∙ sym e)
  ]

  -- Stop takes the snapshot of the cache, and leaves a log that was not rotated as it was written.
  closed_files :
      (show_atd : z.Packed → Text) (e : Ending) (c : Cache z) (pm : PersistenceManager z.Packed)
      → pm.enabled ≡ true
      → c.persistence ≡ some pm
      → (process_commands show e.disks e.taken pm no_files).1.rotated ≡ []
      → close show_atd show e c (record { snapshot = none; log = no_files }) ≡ record {
        snapshot = replaced none (save_atd pm show_atd c e.now e.timestamp);
        log = (process_commands show e.disks e.taken pm no_files).1;
      }
  unfolding close stop
  closed_files show_atd e c pm on there whole =
      ap (λ o. stop_if show_atd show e c o (record { snapshot = none; log = no_files })) there
      ∙ if_true pm.enabled _ _ on
      ∙ ap
          (λ log. record {
            snapshot = replaced none (save_atd pm show_atd c e.now e.timestamp);
            log = log;
          })
          (flush_acl-unrotated show e.compact (process_commands show e.disks e.taken pm no_files).0
            (process_commands show e.disks e.taken pm no_files).1 whole)

  -- LoadAtd asks of the manager only whether it is enabled.
  alike :
      (pm pm' : PersistenceManager z.Packed) (d : Cache z) (now : ℤ) (file : Option Text)
      → pm.enabled ≡ true
      → pm'.enabled ≡ true
      → load_atd pm d now file ≡ load_atd pm' d now file
  unfolding load_atd
  alike pm pm' d now file on on' =
      if_true pm.enabled (load_file d now file) _ on
      ∙ sym (if_true pm'.enabled (load_file d now file) _ on')

  -- A snapshot, and a log of the calls: what they are loaded into has what the cache had.
  reopened :
      (pm : PersistenceManager z.Packed) (show_atd : z.Packed → Text)
      (cmds : List (Command z.Packed)) (current : Option Text) (c : Cache z)
      (saved timestamp now : ℤ) (atd_path acl_path : Text) (atd_interval acl_interval : ℤ)
      → Passes z
      → pm.enabled ≡ true
      → All (IsStringLine show) cmds
      → All (IsScanned show) cmds
      → content current ≡ shown show cmds
      → ((t : ℤ) (k : Text) → get c t k ≡ recall {P = z.Packed} (λ j. none) cmds k)
      → IsMap c.items
      → FitRecords c.mem c.items
      → IsInt64 timestamp
      → saved ≤ℤ now
      → not (text_eq atd_path []) && not (text_eq acl_path []) ≡ true
      → ticks atd_interval acl_interval ≡ true
      → (o : Opened z) × (new_with_persistence atd_path acl_path atd_interval acl_interval (record {
        snapshot = save_atd pm show_atd c saved timestamp;
        log = file_of current;
        now = now;
        clock = clock;
      })
          ≡ some o)
        × ((t : ℤ) (k : Text) → now ≤ℤ t → get o.cache t k ≡ get c t k)
  unfolding new_with_persistence load_files new_persistence_manager start_manager
  reopened pm show_atd cmds current c saved timestamp now atd_path acl_path atd_interval
        acl_interval passes on lines scanned e reads distinct fit fits aged named timed =
      let pm' : PersistenceManager z.Packed =
        new_persistence_manager atd_path acl_path atd_interval acl_interval in
      let d : Cache z = record new { persistence = some pm' } in
      let file = save_atd pm show_atd c saved timestamp in
      let loaded : Cache z = (load_atd pm' d now file).1 in
      let same : load_atd pm d now file ≡ load_atd pm' d now file =
        alike pm pm' d now file on refl in
      let kept : (t : ℤ) (k : Text) → now ≤ℤ t → get loaded t k ≡ get c t k = λ t k later.
        ap (λ (x : Bool × Cache z). get x.1 t k) (sym same)
        ∙ (load_atd-save_atd pm show_atd c d saved timestamp now t k on distinct fit fits aged
            later).1 in
      let settled : (t : ℤ) (k : Text)
          → now ≤ℤ t
          → Settled t k loaded cmds × (recall (λ j. get loaded t j) cmds k ≡ get loaded t k) =
        λ t k later. Settled-by cmds loaded t k (kept t k later ∙ reads t k) in
      let (ok, c', r, after) =
        loaded_over current cmds loaded now passes lines scanned e
          (load_atd-IsValid pm' d now file (persistent-IsValid (some pm')))
          (λ t k later. (settled t k later).0) in
      let stored : Stored = record {
        snapshot = file;
        log = file_of current;
        now = now;
        clock = clock;
      } in
      (
        record { cache = c'; atd_ok = (load_atd pm' d now file).0; acl_ok = ok },
        rw (new_with_persistence, named, ap (opened (load_atd pm' d now file).0) r, timed) refl,
        λ t k later. after t k later ∙ (settled t k later).1 ∙ kept t k later,
      )

  replaced-none : (o : Option Text) → replaced none o ≡ o
  replaced-none none = refl
  replaced-none (some text) = refl

  abbrev pub nothing : Files
  nothing = record { snapshot = none; log = no_files }

  -- What the next start finds of the files.
  abbrev pub found : Files → ℤ → Stored
  found fs now = record {
    snapshot = fs.snapshot;
    log = file_of fs.log.current;
    now = now;
    clock = clock;
  }

  -- A cache that is closed is opened again with what it had. Strings are set without expiration and
  -- deleted on an empty cache, 50000 calls at most; Close writes the commands, takes the snapshot and
  -- merges the log; NewWithPersistence on these files then loads the snapshot and runs the log over
  -- it, and Get finds in its cache what it finds in the closed one, at all times from its start on. The
  -- conditions: compression gives strings back as they are and leaves them uncompressed in the log; no
  -- text holds a separator or a newline, no string begins like an array or a map, and no line is longer
  -- than the scanner takes; no key stands twice in the map, the keys and the strings fit the length
  -- fields of the snapshot, and its time is an int64; the manager is enabled; no write
  -- fails, processCommands has written all commands when it stops, and the log was not rotated; both
  -- paths are given, both intervals are positive, and the clock does not go back.
  pub closed_reopens :
      (pm : PersistenceManager z.Packed) (show_atd : z.Packed → Text) (e : Ending) (xs : List Call)
      (c : Cache z) (now : ℤ) (atd_path acl_path : Text) (atd_interval acl_interval : ℤ)
      → Restores z
      → Passes z
      → pm.enabled ≡ true
      → length xs ≤ chan_capacity
      → All (IsKept z show clock) xs
      → e.taken ≡ length (cmds_of z show clock pm xs)
      → IsSmoothRun show e.disks 0
          (record pm {
            command_chan = drop (length (cmds_of z show clock pm xs)) (cmds_of z show clock pm xs);
          })
          no_files
          (take (length (cmds_of z show clock pm xs)) (cmds_of z show clock pm xs))
      → (files_after z show clock pm e.disks xs).rotated ≡ []
      → run_calls (started z pm) xs ≡ some c
      → IsMap c.items
      → FitRecords c.mem c.items
      → IsInt64 e.timestamp
      → e.now ≤ℤ now
      → not (text_eq atd_path []) && not (text_eq acl_path []) ≡ true
      → ticks atd_interval acl_interval ≡ true
      → (o : Opened z) × (new_with_persistence atd_path acl_path atd_interval acl_interval
            (found (close show_atd show e c nothing) now)
          ≡ some o)
        × ((t : ℤ) (k : Text) → now ≤ℤ t → get o.cache t k ≡ get c t k)
  closed_reopens pm show_atd e xs c now atd_path acl_path atd_interval acl_interval restores passes
        on room kept all smooth unrotated run distinct fit fits aged named timed =
      let cmds = cmds_of z show clock pm xs in
      let (c0, ran, h) =
        run_calls-Logs pm (started z pm) [] xs restores on (omega (arith, room))
          (started-Logs pm) in
      let same : c0 ≡ c = some-injective c0 c (sym ran ∙ run) in
      let pm1 : PersistenceManager z.Packed = record pm { command_chan = cmds } in
      let files = files_after z show clock pm e.disks xs in
      let taken : (process_commands show e.disks e.taken pm1 no_files).1 ≡ files =
        ap (λ n. (process_commands show e.disks n pm1 no_files).1) all in
      let closed : close show_atd show e c nothing
          ≡ record { snapshot = save_atd pm1 show_atd c e.now e.timestamp; log = files } =
        closed_files show_atd e c pm1 on
          (sym (ap (λ (x : Cache z). x.persistence) same) ∙ h.channel)
          (ap (λ log. log.rotated) taken ∙ unrotated)
        ∙ (λ i. record {
          snapshot = replaced-none (save_atd pm1 show_atd c e.now e.timestamp) i;
          log = taken i;
        }) in
      let (o, opened_one, reads) =
        reopened pm1 show_atd cmds files.current c e.now e.timestamp now atd_path acl_path
          atd_interval acl_interval passes on
          (logged_by-All (IsStringLine show) (started z pm) xs (
            All-implies (IsKept z show clock) (λ x. IsStringLine show (call_command x)) xs
              (λ x k. k.0) kept))
          (logged_by-All (IsScanned show) (started z pm) xs (
            All-implies (IsKept z show clock) (λ x. IsScanned show (call_command x)) xs (λ x k. k.1)
              kept))
          (written z show clock pm e.disks cmds smooth unrotated)
          (λ t k. ap (λ (x : Cache z). get x t k) (sym same) ∙ h.reads t k) distinct fit fits aged
          named timed in
      (
        o,
        ap (λ fs. new_with_persistence atd_path acl_path atd_interval acl_interval (found fs now))
              closed
            ∙ opened_one,
        reads,
      )

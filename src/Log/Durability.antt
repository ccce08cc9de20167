-- ===== src/Log/Durability.antt =====
-- cache/persistence.go: what LoadAcl makes of a log of strings that were set and deleted.
use ant_cache.Strings.Lines.{IsLine, unlines, scan_lines-unlines}
use ant_cache.Strings.Split.{Without}
use ant_cache.Base.{
  ℕ, suc, ◌≤◌, ◌≡◌, refl, sym, ap, ◌∙◌, ◌⊎◌, inl, inr, true, false, Option, none, some, List, [],
  ◌∷◌, arith, ℤ, pos, if◌then◌else◌, Text, codes, text_eq, lookup, erase, length, ltb_ℤ, Bool-cases,
  Option-cases, All, lookup-erase, text_eq_iff,
}
use ant_cache.Item.{Value, str, Compression, loaded, data_type}
use ant_cache.Persistence.{Command}
use ant_cache.Cache.{Cache, get, read, expiration_of, reading, new}
use ant_cache.Cache.Valid.{IsValid, add_item-entry, new-IsValid}
use ant_cache.Cache.Deletion.{unheap_total}
use ant_cache.Cache.Items.{get-add_item, add_item-new}
use ant_cache.Cache.Reads.{read_same}
use ant_cache.Log.{parse_line, show_command}
use ant_cache.Log.Lines.{show_command-EndsNumeral, IsLoggable, show_command-EndsNumeral}
use ant_cache.Log.Values.{IsPlain, parse_line-show_command}
use ant_cache.Log.Replay.{
  readable, load_acl, action_of, logged_item, enter, remove_found, perform, apply_line, replay,
  load_acl, readable,
}
use ant_cache.Strings.Lines.{unlines, IsLine, scan_lines-unlines}
use ant_cache.Log.Recovery.{load_acl-scanned, enter-IsValid}

-- The value that the last command of the key leaves, and what was there before where there is none.
unfoldable pub recall :
    {P : Type 0} → (Text → Option (Value P)) → List (Command P) → Text → Option (Value P)
recall m [] = m
recall m (cmd ∷ cmds) =
    recall
      (λ k.
        if text_eq cmd.key k
        then (if text_eq cmd.type (codes "DEL") then none else some cmd.value)
        else m k)
      cmds

-- A string that is set without an expiration, or the deletion of a key.
abbrev pub IsStringCommand : {P : Type 0} → Command P → Type 0
IsStringCommand cmd =
    ((cmd.type ≡ codes "SET") ⊎ (cmd.type ≡ codes "DEL"))
    × (ltb_ℤ (pos 0) cmd.ttl ≡ false)
    × ((s : Text) × (cmd.value ≡ str s))

-- DecompressValue gives a string back as it is.
abbrev pub Passes : Compression → Type 0
Passes z = (s : Text) → loaded z (str s) ≡ str s

pub reading-logged :
    (z : Compression) (now : ℤ) (cmd : Command z.Packed) (s : Text) (t : ℤ)
    → Passes z
    → ltb_ℤ (pos 0) cmd.ttl ≡ false
    → cmd.value ≡ str s
    → reading z t (logged_item now cmd) ≡ some cmd.value
unfolding expiration_of
reading-logged z now cmd s t passes lasting text = rw (lasting, text) (ap some (passes s))

-- The commands of a log, one on each line.
abbrev pub log_lines : {P : Type 0} → (P → Text) → List (Command P) → List Text
log_lines show [] = []
log_lines show (cmd ∷ cmds) = show_command show cmd ∷ log_lines show cmds

-- A command that the log carries and that sets or deletes a string.
abbrev pub IsStringLine : {P : Type 0} → (P → Text) → Command P → Type 0
IsStringLine show cmd = IsLoggable show cmd × IsPlain cmd.value × IsStringCommand cmd

-- A line of the log that the scanner reads whole.
abbrev pub IsScanned : {P : Type 0} → (P → Text) → Command P → Type 0
IsScanned show cmd = Without 10 (show_command show cmd) × (length (show_command show cmd) ≤ 65535)

pub log_lines-IsLine :
    {P : Type 0}
    → (show : P → Text) (cmds : List (Command P)) → All (IsScanned show) cmds
    → All IsLine (log_lines show cmds)
log_lines-IsLine show [] h = tt
log_lines-IsLine show (cmd ∷ cmds) ((without, short), hs) =
    let (t, b, e, numeral) = show_command-EndsNumeral show cmd in
    ((without, short, (t, b, e, omega arith)), log_lines-IsLine show cmds hs)

module _ {z : Compression} where
  -- The cache is well formed, holds strings only, and reads as the function says at all times.
  pub record Agrees (c : Cache z) (m : Text → Option (Value z.Packed)) : Type 0 where
    pub valid : IsValid c
    pub reads : (t : ℤ) (k : Text) → get c t k ≡ m k
    pub strings : (k : Text) (p : ℕ) → lookup k c.items ≡ some p → (c.mem p).type ≡ codes "string"

  enter-Agrees :
      (c : Cache z) (now : ℤ) (cmd : Command z.Packed) (s : Text)
      (m : Text → Option (Value z.Packed))
      → Passes z
      → ltb_ℤ (pos 0) cmd.ttl ≡ false
      → cmd.value ≡ str s
      → Agrees c m
      → Agrees (enter c now cmd) (λ k. if text_eq cmd.key k then some cmd.value else m k)
  unfolding enter
  enter-Agrees c now cmd s m passes lasting text a = record {
    valid = unfold enter in enter-IsValid c now cmd a.valid;
    reads = λ t k.
        get-add_item c cmd.key (logged_item now cmd) (ltb_ℤ (pos 0) cmd.ttl) t k a.valid.mapped_used
        ∙ elim (Bool-cases (text_eq cmd.key k)) [
          | inl same ↦ rw same (reading-logged z now cmd s t passes lasting text)
          | inr other ↦ rw other (a.reads t k)
        ];
    strings = λ k p e.
        elim (add_item-entry c cmd.key (logged_item now cmd) (ltb_ℤ (pos 0) cmd.ttl) a.valid k p
          e) [
            | inl (_, q) ↦ rw q (
                ap (λ i. i.type)
                  (add_item-new c cmd.key (logged_item now cmd) (ltb_ℤ (pos 0) cmd.ttl))
                ∙ ap data_type text)
            | inr (old, same) ↦ ap (λ i. i.type) same ∙ a.strings k p old
          ];
  }

  remove_found-Agrees :
      (c : Cache z) (key : Text) (m : Text → Option (Value z.Packed))
      → Agrees c m
      → (c' : Cache z) × (remove_found c (codes "string") key (lookup key c.items) ≡ some c')
        × Agrees c' (λ k. if text_eq key k then none else m k)
  unfolding remove_found get
  remove_found-Agrees c key m a = elim (Option-cases (lookup key c.items)) [
    | inl absent ↦ rw absent (
      c,
      refl,
      record {
        valid = a.valid;
        reads = λ t k. elim (Bool-cases (text_eq key k)) [
          | inl same ↦ rw same (
              ap (read c t)
                (ap (λ j. lookup j c.items) (sym ((text_eq_iff key k).0 same)) ∙ absent))
          | inr other ↦ rw other (a.reads t k)
        ];
        strings = a.strings;
      },
    )
    | inr (p, found) ↦
        let (h, e, valid, same) = unheap_total c key p a.valid found in
        let typed = (text_eq_iff (c.mem p).type (codes "string")).1 (a.strings key p found) in
        let c' = record c { heap = h; items = erase key c.items } in
        rw (found, typed, e)
          (
            c',
            refl,
            record {
              valid = valid;
              reads = λ t k.
                  ap (read c' t) (lookup-erase key k c.items) ∙ elim (Bool-cases (text_eq key k)) [
                    | inl gone ↦ rw gone refl
                    | inr other ↦ rw other (read_same c c' t (lookup k c.items) same ∙ a.reads t k)
                  ];
              strings = λ k q old.
                  ap (λ i. i.type) (same q)
                  ∙ a.strings k q (ground (arith, lookup-erase key k c.items));
            },
          )
  ]

  perform-Agrees :
      (c : Cache z) (now : ℤ) (cmd : Command z.Packed) (m : Text → Option (Value z.Packed))
      → Passes z
      → IsStringCommand cmd
      → Agrees c m
      → (c' : Cache z) × (perform c now cmd (action_of cmd.type) ≡ some c')
        × Agrees c' (λ k.
          if text_eq cmd.key k
          then (if text_eq cmd.type (codes "DEL") then none else some cmd.value)
          else m k)
  unfolding perform text_eq
  perform-Agrees c now cmd m passes (inl set, lasting, (s, text)) a =
      rw (perform, set) (enter c now cmd, refl, enter-Agrees c now cmd s m passes lasting text a)
  perform-Agrees c now cmd m passes (inr del, lasting, _) a =
      rw (perform, del) (remove_found-Agrees c cmd.key m a)

  pub apply_line-parsed :
      (c : Cache z) (now : ℤ) (cmd : Command z.Packed) (line : Text)
      → parse_line line ≡ some cmd
      → apply_line c now line ≡ perform c now cmd (action_of cmd.type)
  unfolding apply_line
  apply_line-parsed c now cmd line e = rw (apply_line, e) refl

  pub replay-Agrees :
      (show : z.Packed → Text) (clock : ℕ → ℤ) (n : ℕ) (c : Cache z)
      (cmds : List (Command z.Packed)) (m : Text → Option (Value z.Packed))
      → Passes z
      → All (IsStringLine show) cmds
      → Agrees c m
      → (c' : Cache z) × (replay clock n c (log_lines show cmds) ≡ some c')
        × Agrees c' (recall m cmds)
  unfolding replay recall
  replay-Agrees show clock n c [] m passes h a = (c, refl, a)
  replay-Agrees show clock n c (cmd ∷ cmds) m passes ((loggable, plain, of_string), hs) a =
      let (c1, e, a1) = perform-Agrees c (clock n) cmd m passes of_string a in
      rw
        (
          replay,
          apply_line-parsed c (clock n) cmd (show_command show cmd)
                (parse_line-show_command show cmd loggable plain)
              ∙ e,
        )
        (replay-Agrees show clock (suc n) c1 cmds _ passes hs a1)

  new-Agrees : Agrees new (λ k. none)
  unfolding new get lookup
  new-Agrees = record { valid = new-IsValid; reads = λ t k. refl; strings = λ k p e. cc }

  -- After a restart on a log of strings that were set without an expiration and of deletions, Get
  -- finds under each key, at every time, the value that the last command of the key left, and nothing
  -- under the other keys. The numbers are int64, no text holds the separator or a newline, no value
  -- begins like an array or a map, no line is longer than 65535 bytes, and DecompressValue gives
  -- strings back as they are.
  pub load_acl-recall :
      (show : z.Packed → Text) (clock : ℕ → ℤ) (cmds : List (Command z.Packed))
      → Passes z
      → All (IsStringLine show) cmds
      → All (IsScanned show) cmds
      → (c' : Cache z) × (load_acl true clock new (readable (unlines (log_lines show cmds)))
          ≡ some (true, c'))
        × IsValid c'
        × ((t : ℤ) (k : Text) → get c' t k ≡ recall (λ k. none) cmds k)
  load_acl-recall show clock cmds passes h scanned =
      let (c', e, a) = replay-Agrees show clock 1 new cmds (λ k. none) passes h new-Agrees in
      (
        c',
        load_acl-scanned clock new c' _ _
            (scan_lines-unlines (log_lines show cmds) (log_lines-IsLine show cmds scanned)) e,
        a.valid,
        a.reads,
      )

-- ===== src/Log/Merging/Winners.antt =====
-- cache/persistence.go: which of two commands of a key compactAclFiles keeps.
use ant_cache.Base.{
  ◌≤ℤ◌, ◌≡◌, refl, ap, ◌∙◌, ◌⊎◌, inl, inr, true, false, Option, none, some, List, [], ◌∷◌, arith,
  if◌then◌else◌, Text, text_eq, Table, lookup, ltb_ℤ, Bool-cases, All, lookup-insert, text_eq_iff,
  text_eq_refl,
}
use ant_cache.Persistence.{Command}
use ant_cache.Log.Compact.{is_delete, merge_found, merge_command}

module _ {P : Type 0} where
  unfoldable pub merge_all : Table (Command P) → List (Command P) → Table (Command P)
  merge_all commands [] = commands
  merge_all commands (cmd ∷ cmds) = merge_all (merge_command commands cmd) cmds

  -- The command `w` is a deletion, or `cmd` is none and is not younger.
  abbrev pub Wins : Command P → Command P → Type 0
  Wins w cmd =
      (is_delete w.type ≡ true) ⊎ ((is_delete cmd.type ≡ false) × (cmd.timestamp ≤ℤ w.timestamp))

  -- The map has a command of the key that wins.
  abbrev pub HasWinner : Table (Command P) → Command P → Type 0
  HasWinner commands cmd = (w : Command P) × (lookup cmd.key commands ≡ some w) × Wins w cmd

  -- The command that the key has after one more command.
  abbrev pub chosen : Command P → Option (Command P) → Command P
  chosen cmd none = cmd
  chosen cmd (some old) =
      if is_delete cmd.type
      then cmd
      else if is_delete old.type
      then old
      else if ltb_ℤ old.timestamp cmd.timestamp
      then cmd
      else old

  merge_found-lookup :
      (commands : Table (Command P)) (cmd : Command P) (k : Text) (o : Option (Command P))
      → lookup cmd.key commands ≡ o
      → lookup k (merge_found commands cmd o)
        ≡ (if text_eq cmd.key k then some (chosen cmd o) else lookup k commands)
  merge_found-lookup commands cmd k none e = lookup-insert cmd.key k cmd commands
  merge_found-lookup commands cmd k (some old) e = ground (
    arith,
    e,
    lookup-insert cmd.key k cmd commands,
    text_eq_iff cmd.key k,
    ap (λ j. lookup j commands),
  )

  pub merge_command-lookup :
      (commands : Table (Command P)) (cmd : Command P) (k : Text)
      → lookup k (merge_command commands cmd) ≡ (
          if text_eq cmd.key k
          then some (chosen cmd (lookup cmd.key commands))
          else lookup k commands)
  unfolding merge_command
  merge_command-lookup commands cmd k =
      merge_found-lookup commands cmd k (lookup cmd.key commands) refl

  Wins-self : (cmd : Command P) → Wins cmd cmd
  Wins-self cmd = elim (Bool-cases (is_delete cmd.type)) [
    | inl del ↦ inl del
    | inr put ↦ inr (put, omega arith)
  ]

  chosen-Wins : (cmd : Command P) (o : Option (Command P)) → Wins (chosen cmd o) cmd
  chosen-Wins cmd none = Wins-self cmd
  chosen-Wins cmd (some old) = elim (Bool-cases (is_delete cmd.type)) [
    | inl del ↦ rw del (inl del)
    | inr put ↦ elim (Bool-cases (is_delete old.type)) [
      | inl gone ↦ rw (put, gone) (inl gone)
      | inr kept ↦ elim (Bool-cases (ltb_ℤ old.timestamp cmd.timestamp)) [
        | inl newer ↦ rw (put, kept, newer) (inr (refl, omega arith))
        | inr older ↦ rw (put, kept, older) (inr (refl, ground arith))
      ]
    ]
  ]

  chosen-keeps : (cmd x w : Command P) → Wins w cmd → Wins (chosen x (some w)) cmd
  chosen-keeps cmd x w wins = elim (Bool-cases (is_delete x.type)) [
    | inl del ↦ rw del (inl del)
    | inr put ↦ elim (Bool-cases (is_delete w.type)) [
      | inl gone ↦ rw (put, gone) (inl gone)
      | inr kept ↦ elim (Bool-cases (ltb_ℤ w.timestamp x.timestamp)) [
        | inl newer ↦
            rw (put, kept, newer)
              (elim wins [
                | inl del ↦ absurd (ground arith)
                | inr (set, before) ↦ inr (set, ground arith)
              ])
        | inr older ↦ rw (put, kept, older) wins
      ]
    ]
  ]

  merge_command-HasWinner :
      (commands : Table (Command P)) (cmd : Command P) → HasWinner (merge_command commands cmd) cmd
  merge_command-HasWinner commands cmd = (
    chosen cmd (lookup cmd.key commands),
    merge_command-lookup commands cmd cmd.key ∙ rw (text_eq_refl cmd.key) refl,
    chosen-Wins cmd (lookup cmd.key commands),
  )

  merge_command-keeps :
      (commands : Table (Command P)) (cmd x : Command P)
      → HasWinner commands cmd
      → HasWinner (merge_command commands x) cmd
  merge_command-keeps commands cmd x (w, found, wins) = elim (Bool-cases (text_eq x.key cmd.key)) [
    | inl same ↦
        let there : lookup x.key commands ≡ some w =
          ap (λ j. lookup j commands) ((text_eq_iff x.key cmd.key).0 same) ∙ found in
        (
          chosen x (some w),
          merge_command-lookup commands x cmd.key ∙ rw (same, there) refl,
          chosen-keeps cmd x w wins,
        )
    | inr other ↦ (w, merge_command-lookup commands x cmd.key ∙ rw other found, wins)
  ]

  merge_all-keeps :
      (commands : Table (Command P)) (cmd : Command P) (cmds : List (Command P))
      → HasWinner commands cmd
      → HasWinner (merge_all commands cmds) cmd
  unfolding merge_all
  merge_all-keeps commands cmd [] h = h
  merge_all-keeps commands cmd (x ∷ cmds) h =
      merge_all-keeps (merge_command commands x) cmd cmds (merge_command-keeps commands cmd x h)

  pub merge_all-chooses :
      (commands : Table (Command P)) (cmds : List (Command P))
      → All (HasWinner (merge_all commands cmds)) cmds
  unfolding merge_all
  merge_all-chooses commands [] = tt
  merge_all-chooses commands (cmd ∷ cmds) =
      let m = merge_command commands cmd in
      (merge_all-keeps m cmd cmds (merge_command-HasWinner commands cmd), merge_all-chooses m cmds)

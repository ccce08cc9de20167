-- ===== src/Log/Replay.antt =====
-- cache/persistence.go: LoadAcl, which runs the commands of the log on the cache. `clock` gives the
-- time at each line, by its number; `none` stands for the run-time panic of container/heap.
use ant_cache.Base.{
  ℕ, suc, Bool, true, not, ◌||◌, Option, none, some, List, [], ◌∷◌, ℤ, pos, if◌then◌else◌, Text,
  codes, text_eq, lookup, erase, ltb_ℤ, is_some,
}
use ant_cache.Item.{CacheItem, Compression, data_type}
use ant_cache.Persistence.{Command}
use ant_cache.Strings.{scan_lines}
use ant_cache.Cache.{Cache, add_item, expiration_of, unheap}
use ant_cache.Log.{parse_line}

-- What LoadAcl finds at its path.
pub data AclFile : Type 0 where
  missing : AclFile
  unreadable : AclFile
  readable : Text → AclFile

-- The cases of `switch cmdType`.
pub data Action : Type 0 where
  put : Action
  put_absent : Action
  remove : Text → Action
  ignore : Action

abbrev pub one_of : Text → Text → Text → Text → Bool
one_of type a b c = text_eq type a || text_eq type b || text_eq type c

abbrev pub action_of : Text → Action
action_of type =
    if one_of type (codes "SET") (codes "SETS") (codes "SETX")
    then put
    else if one_of type (codes "SETNX") (codes "SETSNX") (codes "SETXNX")
    then put_absent
    else if text_eq type (codes "DEL")
    then remove (codes "string")
    else if text_eq type (codes "DELS")
    then remove (codes "array")
    else if text_eq type (codes "DELX")
    then remove (codes "object")
    else ignore

abbrev pub logged_item : {P : Type 0} → ℤ → Command P → CacheItem P
logged_item now cmd = record {
  value = cmd.value;
  expiration = expiration_of now cmd.ttl;
  index = pos 0;
  key = cmd.key;
  type = data_type cmd.value;
}

module _ {z : Compression} where
  -- `pm.cache.items[key] = item`, with the push of an item that expires.
  unfoldable pub enter : Cache z → ℤ → Command z.Packed → Cache z
  enter c now cmd = add_item c cmd.key (logged_item now cmd) (ltb_ℤ (pos 0) cmd.ttl)

  -- The item goes if it has the type.
  unfoldable pub remove_found : Cache z → Text → Text → Option ℕ → Option (Cache z)
  remove_found c type key none = some c
  remove_found c type key (some p) =
      if text_eq (c.mem p).type type
      then (elim (unheap c p) [
        | some c1 ↦ some (record c1 { items = erase key c1.items })
        | none ↦ none
      ])
      else some c

  unfoldable pub perform : Cache z → ℤ → Command z.Packed → Action → Option (Cache z)
  unfolding enter remove_found
  perform c now cmd put = some (enter c now cmd)
  perform c now cmd put_absent =
      if is_some (lookup cmd.key c.items) then some c else some (enter c now cmd)
  perform c now cmd (remove type) = remove_found c type cmd.key (lookup cmd.key c.items)
  perform c now cmd ignore = some c

  unfoldable pub apply_line : Cache z → ℤ → Text → Option (Cache z)
  unfolding perform
  apply_line c now line = elim (parse_line line) [
    | some cmd ↦ perform c now cmd (action_of cmd.type)
    | none ↦ some c
  ]

  unfoldable pub replay : (ℕ → ℤ) → ℕ → Cache z → List Text → Option (Cache z)
  unfolding apply_line
  replay clock n c [] = some c
  replay clock n c (line ∷ lines) = elim (apply_line c (clock n) line) [
    | some c1 ↦ replay clock (suc n) c1 lines
    | none ↦ none
  ]

  abbrev pub with_outcome : Bool → Option (Cache z) → Option (Bool × Cache z)
  with_outcome ok none = none
  with_outcome ok (some c) = some (ok, c)

  -- `false` stands for a returned error: the file cannot be opened, or the scanner stops.
  unfoldable pub load_acl : Bool → (ℕ → ℤ) → Cache z → AclFile → Option (Bool × Cache z)
  unfolding replay scan_lines
  load_acl enabled clock c missing = some (true, c)
  load_acl enabled clock c unreadable = some (not enabled, c)
  load_acl enabled clock c (readable file) =
      let (lines, ok) = scan_lines file in
      let loaded = with_outcome ok (replay clock 1 c lines) in
      if enabled then loaded else some (true, c)

-- ===== src/Log/Recovery.antt =====
-- cache/persistence.go: a cache that LoadAcl fills.
use ant_cache.Base.{
  ℕ, suc, ◌≡◌, refl, ap, inl, inr, Bool, true, false, not, Option, some, List, [], ◌∷◌, ℤ, pos,
  Text, text_eq, lookup, erase, ltb_ℤ, is_some, Bool-cases, Option-cases,
}
use ant_cache.Item.{Compression}
use ant_cache.Persistence.{Command}
use ant_cache.Strings.{scan_lines}
use ant_cache.Cache.{Cache}
use ant_cache.Cache.Valid.{IsValid, add_item-IsValid, expiring_ttl}
use ant_cache.Cache.Deletion.{unheap_total}
use ant_cache.Log.{parse_line}
use ant_cache.Log.Replay.{
  AclFile, missing, unreadable, readable, Action, put, put_absent, remove, ignore, action_of,
  logged_item, enter, remove_found, perform, apply_line, replay, load_acl, with_outcome,
}

module _ {z : Compression} where
  pub enter-IsValid :
      (c : Cache z) (now : ℤ) (cmd : Command z.Packed) → IsValid c → IsValid (enter c now cmd)
  unfolding enter
  enter-IsValid c now cmd v =
      add_item-IsValid c cmd.key (logged_item now cmd) (ltb_ℤ (pos 0) cmd.ttl) v refl
        (expiring_ttl now cmd.ttl)

  -- A result that is there and well formed.
  abbrev Yields : Option (Cache z) → Type 0
  Yields r = (c : Cache z) × (r ≡ some c) × IsValid c

  remove_found-Yields :
      (c : Cache z) (type key : Text)
      → IsValid c
      → Yields (remove_found c type key (lookup key c.items))
  unfolding remove_found
  remove_found-Yields c type key v = elim (Option-cases (lookup key c.items)) [
    | inl absent ↦ rw absent (c, refl, v)
    | inr (p, found) ↦ elim (Bool-cases (text_eq (c.mem p).type type)) [
      | inl typed ↦
          let (h, e, valid, _) = unheap_total c key p v found in
          rw (found, typed, e) (record c { heap = h; items = erase key c.items }, refl, valid)
      | inr other ↦ rw (found, other) (c, refl, v)
    ]
  ]

  perform-Yields :
      (c : Cache z) (now : ℤ) (cmd : Command z.Packed) (a : Action)
      → IsValid c
      → Yields (perform c now cmd a)
  unfolding perform
  perform-Yields c now cmd put v = (enter c now cmd, refl, enter-IsValid c now cmd v)
  perform-Yields c now cmd put_absent v = elim (Bool-cases (is_some (lookup cmd.key c.items))) [
    | inl taken ↦ rw taken (c, refl, v)
    | inr free ↦ rw free (enter c now cmd, refl, enter-IsValid c now cmd v)
  ]
  perform-Yields c now cmd (remove type) v = remove_found-Yields c type cmd.key v
  perform-Yields c now cmd ignore v = (c, refl, v)

  apply_line-Yields :
      (c : Cache z) (now : ℤ) (line : Text) → IsValid c → Yields (apply_line c now line)
  unfolding apply_line
  apply_line-Yields c now line v = elim (Option-cases (parse_line {P = z.Packed} line)) [
    | inl bad ↦ rw (apply_line, bad) (c, refl, v)
    | inr (cmd, good) ↦ rw (apply_line, good) (perform-Yields c now cmd (action_of cmd.type) v)
  ]

  replay-Yields :
      (clock : ℕ → ℤ) (n : ℕ) (c : Cache z) (lines : List Text)
      → IsValid c
      → Yields (replay clock n c lines)
  unfolding replay
  replay-Yields clock n c [] v = (c, refl, v)
  replay-Yields clock n c (line ∷ lines) v =
      let (c1, e, v1) = apply_line-Yields c (clock n) line v in
      rw (replay, e) (replay-Yields clock (suc n) c1 lines v1)

  pub load_acl-scanned :
      (clock : ℕ → ℤ) (c c' : Cache z) (file : Text) (lines : List Text)
      → scan_lines file ≡ (lines, true)
      → replay clock 1 c lines ≡ some c'
      → load_acl true clock c (readable file) ≡ some (true, c')
  unfolding load_acl
  load_acl-scanned clock c c' file lines scan run = rw (scan, run) refl

  -- Whatever the log file holds, LoadAcl on a well-formed cache returns and never panics, and it
  -- leaves the cache well formed.
  pub load_acl_total :
      (enabled : Bool) (clock : ℕ → ℤ) (c : Cache z) (file : AclFile)
      → IsValid c
      → (ok : Bool) × (c' : Cache z) × (load_acl enabled clock c file ≡ some (ok, c')) × IsValid c'
  unfolding load_acl
  load_acl_total enabled clock c missing v = (true, c, refl, v)
  load_acl_total enabled clock c unreadable v = (not enabled, c, refl, v)
  load_acl_total true clock c (readable file) v =
      let (lines, ok) = scan_lines file in
      let (c', e, v') = replay-Yields clock 1 c lines v in (ok, c', ap (with_outcome ok) e, v')
  load_acl_total false clock c (readable file) v = (true, c, refl, v)

-- ===== src/Log/Restart.antt =====
-- cache/cache.go and cache/persistence.go together: strings are set and deleted, the commands go
-- through the channel to the file, and LoadAcl fills a new cache from the file.
use ant_cache.Base.{
  if_true, ℕ, ◌<◌, ◌≡◌, refl, sym, ap, ◌∙◌, inl, inr, Bool, true, false, Option, none, some, List,
  [], ◌∷◌, ◌++◌, arith, ℤ, pos, if◌then◌else◌, Text, codes, text_eq, lookup, erase, length, is_some,
  Option-cases, ltb,
}
use mathlib.Core.Path.{subst}
use mathlib.Core.Option.{some-injective}
use mathlib.Core.List.{append-nil}
use ant_cache.Item.{Value, str, Compression, Restores}
use ant_cache.Persistence.{Command, PersistenceManager, log_to, log_command, chan_capacity}
use ant_cache.Cache
use ant_cache.Cache.{
  expiration_of, Cache, new, get, put_item, add_item, alloc, logged, delete_found, unheap,
}
use ant_cache.Cache.Valid.{IsValid, set-IsValid}
use ant_cache.Cache.Reads.{get-set, get-delete}
use ant_cache.Cache.Deletion.{unheap_total}
use ant_cache.Log.Replay.{AclFile, missing, readable}
use ant_cache.Log.Durability.{recall}

-- A call of Set with a string that does not expire, or of Delete, at a time.
pub data Call : Type 0 where
  set_string : ℤ → Text → Text → Call
  delete_key : ℤ → Text → Call

abbrev pub command : {P : Type 0} → ℤ → Text → Text → Value P → Command P
command now type key value = record {
  timestamp = now;
  type = type;
  key = key;
  value = value;
  ttl = pos 0;
}

module _ {z : Compression} where
  unfoldable pub call : Cache z → Call → Option (Cache z)
  call c (set_string now key s) = some (Cache.set c now key (str s) (pos 0))
  call c (delete_key now key) = elim (Cache.delete c now key) [
    | some (_, c') ↦ some c'
    | none ↦ none
  ]

  -- What a call logs: Delete only where the map has the key.
  unfoldable pub commands_of_call : Cache z → Call → List (Command z.Packed)
  commands_of_call c (set_string now key s) = command now (codes "SET") key (str s) ∷ []
  commands_of_call c (delete_key now key) =
      if is_some (lookup key c.items) then command now (codes "DEL") key (str []) ∷ [] else []

module _ {z : Compression} where
  unfoldable pub run_calls : Cache z → List Call → Option (Cache z)
  unfolding call
  run_calls c [] = some c
  run_calls c (x ∷ xs) = elim (call c x) [ some c' ↦ run_calls c' xs | none ↦ none ]

  -- What the calls log, one after the other.
  unfoldable pub logged_by : Cache z → List Call → List (Command z.Packed)
  unfolding call commands_of_call
  logged_by c [] = []
  logged_by c (x ∷ xs) =
      commands_of_call c x ++ elim (call c x) [ some c' ↦ logged_by c' xs | none ↦ [] ]

-- An empty cache with a manager whose channel is empty.
abbrev pub started : (z : Compression) → PersistenceManager z.Packed → Cache z
started z pm = record new { persistence = some (record pm { command_chan = [] }) }

-- The command of a call.
abbrev pub call_command : {P : Type 0} → Call → Command P
call_command (set_string now key s) = command now (codes "SET") key (str s)
call_command (delete_key now key) = command now (codes "DEL") key (str [])

-- What a restart finds where a file was or was not written.
abbrev pub file_of : Option Text → AclFile
file_of none = missing
file_of (some text) = readable text

recall-append :
    {P : Type 0}
    → (xs ys : List (Command P)) (m : Text → Option (Value P))
    → recall m (xs ++ ys) ≡ recall (recall m xs) ys
unfolding recall
recall-append [] ys m = refl
recall-append (x ∷ xs) ys m = recall-append xs ys _

recall_last :
    {P : Type 0}
    → (cmds : List (Command P)) (cmd : Command P) (k : Text)
    → recall (λ k. none) (cmds ++ cmd ∷ []) k ≡ (
        if text_eq cmd.key k
        then (if text_eq cmd.type (codes "DEL") then none else some cmd.value)
        else recall (λ k. none) cmds k)
unfolding recall
recall_last cmds cmd k = ap (λ f. f k) (recall-append cmds (cmd ∷ []) (λ k. none))

log_to-channel :
    {P : Type 0}
    → (pm : PersistenceManager P) (o : Option (PersistenceManager P)) (now : ℤ) (type key : Text)
      (value : Value P) (cmds : List (Command P))
    → pm.enabled ≡ true
    → length cmds < chan_capacity
    → o ≡ some (record pm { command_chan = cmds })
    → log_to o now type key value (pos 0)
      ≡ some (record pm { command_chan = cmds ++ command now type key value ∷ [] })
unfolding log_to log_command
log_to-channel pm o now type key value cmds on room e =
    ap (λ o. log_to o now type key value (pos 0)) e
    ∙ ap some
        (if_true pm.enabled _ _ on ∙ if_true (ltb (length cmds) chan_capacity) _ _ (ground arith))

put_item-persistence :
    {z : Compression}
    → (c : Cache z) (now : ℤ) (key : Text) (value : Value z.Packed) (ttl : ℤ)
    → (put_item c now key value ttl).persistence ≡ c.persistence
unfolding put_item add_item alloc
put_item-persistence c now key value ttl = ground arith

module _ {z : Compression} (pm : PersistenceManager z.Packed) where
  -- The channel holds the commands, and Get gives what their last one left.
  pub record Logs (c : Cache z) (cmds : List (Command z.Packed)) : Type 0 where
    pub valid : IsValid c
    pub reads : (t : ℤ) (k : Text) → get c t k ≡ recall (λ k. none) cmds k
    pub channel : c.persistence ≡ some (record pm { command_chan = cmds })

  pub set-Logs :
      (c : Cache z) (cmds : List (Command z.Packed)) (now : ℤ) (key s : Text)
      → Restores z
      → pm.enabled ≡ true
      → length cmds < chan_capacity
      → Logs c cmds
      → Logs
          (Cache.set c now key (str s) (pos 0))
          (cmds ++ command now (codes "SET") key (str s) ∷ [])
  unfolding Cache.set logged expiration_of text_eq
  set-Logs c cmds now key s restores on room h = record {
    valid = set-IsValid c now key (str s) (pos 0) h.valid;
    reads = λ t k.
        get-set c now key (str s) (pos 0) t k restores h.valid
        ∙ rw (h.reads t k) refl
        ∙ sym (recall_last cmds (command now (codes "SET") key (str s)) k);
    channel =
        log_to-channel pm (put_item c now key (str s) (pos 0)).persistence now (codes "SET") key
          (str s) cmds on room (put_item-persistence c now key (str s) (pos 0) ∙ h.channel);
  }

  call-delete :
      (c c' : Cache z) (now : ℤ) (key : Text) (deleted : Bool)
      → Cache.delete c now key ≡ some (deleted, c')
      → call c (delete_key now key) ≡ some c'
  unfolding call
  call-delete c c' now key deleted e = rw (call, e) refl

  delete_absent :
      (c : Cache z) (now : ℤ) (key : Text)
      → lookup key c.items ≡ none
      → Cache.delete c now key ≡ some (false, c)
  unfolding Cache.delete
  delete_absent c now key absent = rw (Cache.delete, absent, delete_found) refl

  -- Delete of a key that is there logs the deletion.
  delete_logs :
      (c c' : Cache z) (now : ℤ) (key : Text) (p : ℕ) (deleted : Bool)
      → IsValid c
      → lookup key c.items ≡ some p
      → Cache.delete c now key ≡ some (deleted, c')
      → c'.persistence ≡ log_to c.persistence now (codes "DEL") key (str []) (pos 0)
  unfolding Cache.delete delete_found logged
  delete_logs c c' now key p deleted v found e =
      let (h, taken, _, _) = unheap_total c key p v found in
      let c1 =
        logged (record c { heap = h; items = erase key c.items }) now (codes "DEL") key (str [])
          (pos 0) in
      let done : Cache.delete c now key ≡ some (true, c1) =
        rw (Cache.delete, found, delete_found, taken) refl in
      ap (λ x. x.1.persistence) (some-injective (deleted, c') (true, c1) (sym e ∙ done))

  nothing_logged :
      (c : Cache z) (now : ℤ) (key : Text)
      → lookup key c.items ≡ none
      → commands_of_call c (delete_key now key) ≡ []
  unfolding commands_of_call
  nothing_logged c now key absent = rw (commands_of_call, absent) refl

  deletion_logged :
      (c : Cache z) (now : ℤ) (key : Text) (p : ℕ)
      → lookup key c.items ≡ some p
      → commands_of_call c (delete_key now key) ≡ command now (codes "DEL") key (str []) ∷ []
  unfolding commands_of_call
  deletion_logged c now key p found = rw (commands_of_call, found) refl

  pub delete-Logs :
      (c : Cache z) (cmds : List (Command z.Packed)) (now : ℤ) (key : Text)
      → pm.enabled ≡ true
      → length cmds < chan_capacity
      → Logs c cmds
      → (c' : Cache z) × (call c (delete_key now key) ≡ some c')
        × Logs c' (cmds ++ commands_of_call c (delete_key now key))
  unfolding text_eq
  delete-Logs c cmds now key on room h =
      let (d, e, v, reads) = get-delete c now key h.valid in
      elim (Option-cases (lookup key c.items)) [
        | inl absent ↦ (
          c,
          call-delete c c now key false (delete_absent c now key absent),
          subst (Logs c)
              (sym (ap (λ x. cmds ++ x) (nothing_logged c now key absent) ∙ append-nil cmds)) h,
        )
        | inr (p, found) ↦
            let cmd = command now (codes "DEL") key (str []) in
            (
              d,
              call-delete c d now key _ e,
              subst (Logs d) (sym (ap (λ x. cmds ++ x) (deletion_logged c now key p found)))
                  (record {
                    valid = v;
                    reads = λ t k. reads t k ∙ rw (h.reads t k) refl ∙ sym (recall_last cmds cmd k);
                    channel =
                        delete_logs c d now key p _ h.valid found e
                        ∙ log_to-channel pm c.persistence now (codes "DEL") key (str []) cmds on
                            room h.channel;
                  }),
            )
      ]

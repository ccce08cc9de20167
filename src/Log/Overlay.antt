-- ===== src/Log/Overlay.antt =====
-- cache/persistence.go: what LoadAcl does to one key of a cache that is not empty, such as LoadAtd
-- leaves. LoadAtd gives items no type, so that a deletion in the log passes over them.
use mathlib.Core.Path.{subst}
use mathlib.Core.Option.{some-injective}
use ant_cache.Base.{
  if_true, if_false, ℕ, suc, ◌≡◌, refl, sym, ap, ◌∙◌, ◌⊎◌, inl, inr, true, false, Option, none,
  some, List, [], ◌∷◌, ℤ, pos, if◌then◌else◌, Text, codes, text_eq, lookup, erase, ltb_ℤ, is_some,
  Bool-cases, Option-cases, All, lookup-insert, lookup-erase, text_eq_iff,
}
use ant_cache.Item.{Value, str, Compression, data_type}
use ant_cache.Persistence.{Command}
use ant_cache.Cache.{Cache, get, read}
use ant_cache.Cache.Valid.{IsValid, add_item-entry}
use ant_cache.Cache.Deletion.{unheap_total}
use ant_cache.Cache.Items.{get-add_item, add_item-new, add_item-items}
use ant_cache.Cache.Reads.{read_same}
use ant_cache.Log.{show_command}
use ant_cache.Log.Values.{parse_line-show_command}
use ant_cache.Log.Replay.{action_of, logged_item, enter, remove_found, perform, replay}
use ant_cache.Log.Recovery.{enter-IsValid}
use ant_cache.Log.Durability.{
  recall, IsStringCommand, Passes, IsStringLine, log_lines, reading-logged, apply_line-parsed,
}

module _ {P : Type 0} where
  -- What is under the key after a command.
  abbrev stepped : Command P → Text → Option (Value P) → Option (Value P)
  stepped cmd k before =
      if text_eq cmd.key k
      then (if text_eq cmd.type (codes "DEL") then none else some cmd.value)
      else before

  pub recall_at :
      (cmds : List (Command P)) (m m' : Text → Option (Value P)) (k : Text)
      → m k ≡ m' k
      → recall m cmds k ≡ recall m' cmds k
  unfolding recall
  recall_at [] m m' k e = e
  recall_at (cmd ∷ cmds) m m' k e =
      recall_at cmds (λ j. stepped cmd j (m j)) (λ j. stepped cmd j (m' j)) k (ap (stepped cmd k) e)

  -- Where the last command of the key sets it, what was there before does not matter.
  pub recall_some :
      (cmds : List (Command P)) (m : Text → Option (Value P)) (k : Text)
      → is_some (recall (λ k. none) cmds k) ≡ true
      → recall m cmds k ≡ recall (λ k. none) cmds k
  unfolding recall
  recall_some [] m k h = absurd (cc h)
  recall_some (cmd ∷ cmds) m k h = elim (Bool-cases (text_eq cmd.key k)) [
    | inl same ↦
        recall_at cmds (λ j. stepped cmd j (m j)) (λ j. stepped cmd j none) k (rw same refl)
    | inr other ↦
        let passed : (o : Option (Value P)) → stepped cmd k o ≡ o = λ o. rw other refl in
        let untouched = recall_at cmds (λ j. stepped cmd j none) (λ j. none) k (passed none) in
        recall_at cmds (λ j. stepped cmd j (m j)) m k (passed (m k))
        ∙ recall_some cmds m k (ap is_some (sym untouched) ∙ h)
        ∙ sym untouched
  ]

module _ {z : Compression} (t : ℤ) (k : Text) where
  -- What the key has was set by the log.
  abbrev pub Typed : Cache z → Type 0
  Typed c = (p : ℕ) → lookup k c.items ≡ some p → (c.mem p).type ≡ codes "string"

  -- What a command does at the key: a deletion is sure to work only on what the log has set.
  record Effect (c : Cache z) (cmd : Command z.Packed) (c' : Cache z) : Type 0 where
    pub valid : IsValid c'
    pub other : text_eq cmd.key k ≡ false → (get c' t k ≡ get c t k) × (Typed c → Typed c')
    pub sets :
        text_eq cmd.key k ≡ true
        → text_eq cmd.type (codes "DEL") ≡ false
        → (get c' t k ≡ some cmd.value) × Typed c'
    pub deletes :
        text_eq cmd.key k ≡ true
        → text_eq cmd.type (codes "DEL") ≡ true
        → (Typed c → (get c' t k ≡ none) × Typed c') × (get c t k ≡ none → get c' t k ≡ none)

  enter-Effect :
      (c : Cache z) (now : ℤ) (cmd : Command z.Packed) (s : Text)
      → Passes z
      → ltb_ℤ (pos 0) cmd.ttl ≡ false
      → cmd.value ≡ str s
      → text_eq cmd.type (codes "DEL") ≡ false
      → IsValid c
      → Effect c cmd (enter c now cmd)
  unfolding enter
  enter-Effect c now cmd s passes lasting text set v =
      let item = logged_item now cmd in
      let expiring = ltb_ℤ (pos 0) cmd.ttl in
      let reads = get-add_item c cmd.key item expiring t k v.mapped_used in
      let of_string : ((enter c now cmd).mem c.next).type ≡ codes "string" =
        ap (λ i. i.type) (add_item-new c cmd.key item expiring) ∙ ap data_type text in
      record {
        valid = unfold enter in enter-IsValid c now cmd v;
        other = λ off. (
          reads ∙ rw off refl,
          λ old p e. elim (add_item-entry c cmd.key item expiring v k p e) [
            | inl (_, q) ↦ rw q of_string
            | inr (was, same) ↦ ap (λ i. i.type) same ∙ old p was
          ],
        );
        sets = λ on _. (
          reads ∙ rw on (reading-logged z now cmd s t passes lasting text),
          λ p e.
              let there =
                ap (lookup k) (add_item-items c cmd.key item expiring)
                ∙ lookup-insert cmd.key k c.next c.items
                ∙ if_true (text_eq cmd.key k) _ _ on in
              subst (λ q. ((enter c now cmd).mem q).type ≡ codes "string")
                (some-injective c.next p (sym there ∙ e)) of_string,
        );
        deletes = λ on del. absurd (cc (set, del));
      }

  remove_found-Effect :
      (c : Cache z) (cmd : Command z.Packed)
      → text_eq cmd.type (codes "DEL") ≡ true
      → IsValid c
      → (c' : Cache z) × (remove_found c (codes "string") cmd.key (lookup cmd.key c.items)
          ≡ some c')
        × Effect c cmd c'
  unfolding remove_found get
  remove_found-Effect c cmd del v = elim (Option-cases (lookup cmd.key c.items)) [
    | inl absent ↦
        let missing : text_eq cmd.key k ≡ true → lookup k c.items ≡ none =
          λ on. subst (λ j. lookup j c.items ≡ none) ((text_eq_iff cmd.key k).0 on) absent in
        (
          c,
          rw absent refl,
          record {
            valid = v;
            other = λ off. (refl, λ old. old);
            sets = λ on set. absurd (cc (set, del));
            deletes = λ on _. (λ old. (ap (read c t) (missing on), old), λ e. e);
          },
        )
    | inr (p, found) ↦ elim (Bool-cases (text_eq (c.mem p).type (codes "string"))) [
      | inl typed ↦
          let (h, e, valid, same) = unheap_total c cmd.key p v found in
          let c' = record c { heap = h; items = erase cmd.key c.items } in
          let gone : text_eq cmd.key k ≡ true → lookup k c'.items ≡ none =
            λ on. lookup-erase cmd.key k c.items ∙ if_true (text_eq cmd.key k) _ _ on in
          let stays : text_eq cmd.key k ≡ false → lookup k c'.items ≡ lookup k c.items =
            λ off. lookup-erase cmd.key k c.items ∙ if_false (text_eq cmd.key k) _ _ off in
          let empty : text_eq cmd.key k ≡ true → Typed c' =
            λ on q there. absurd (cc (gone on, there)) in
          (
            c',
            rw (found, typed, e) refl,
            record {
              valid = valid;
              other = λ off. (
                ap (read c' t) (stays off) ∙ read_same c c' t (lookup k c.items) same,
                λ old q there. ap (λ i. i.type) (same q) ∙ old q (sym (stays off) ∙ there),
              );
              sets = λ on set. absurd (cc (set, del));
              deletes = λ on _.
                  (λ old. (ap (read c' t) (gone on), empty on), λ e. ap (read c' t) (gone on));
            },
          )
      | inr untyped ↦
          let no_type : text_eq cmd.key k ≡ true → ¬ Typed c = λ on old.
            let at_k =
              subst (λ j. lookup j c.items ≡ some p) ((text_eq_iff cmd.key k).0 on) found in
            cc (untyped, (text_eq_iff (c.mem p).type (codes "string")).1 (old p at_k)) in
          (
            c,
            rw (found, untyped) refl,
            record {
              valid = v;
              other = λ off. (refl, λ old. old);
              sets = λ on set. absurd (cc (set, del));
              deletes = λ on _. (λ old. absurd (no_type on old), λ e. e);
            },
          )
    ]
  ]

  perform-Effect :
      (c : Cache z) (now : ℤ) (cmd : Command z.Packed)
      → Passes z
      → IsStringCommand cmd
      → IsValid c
      → (c' : Cache z) × (perform c now cmd (action_of cmd.type) ≡ some c') × Effect c cmd c'
  unfolding perform text_eq
  perform-Effect c now cmd passes (inl set, lasting, (s, text)) v =
      let other : text_eq cmd.type (codes "DEL") ≡ false =
        ap (λ type. text_eq type (codes "DEL")) set in
      (
        enter c now cmd,
        ap (λ type. perform c now cmd (action_of type)) set,
        enter-Effect c now cmd s passes lasting text other v,
      )
  perform-Effect c now cmd passes (inr del, lasting, _) v =
      let (c', e, f) = remove_found-Effect c cmd ((text_eq_iff cmd.type (codes "DEL")).1 del) v in
      (c', ap (λ type. perform c now cmd (action_of type)) del ∙ e, f)

  -- The log decides what the key has: the log has set what it has, it has nothing, or the last of the
  -- commands sets it.
  abbrev pub Settled : Cache z → List (Command z.Packed) → Type 0
  Settled c cmds =
      Typed c ⊎ ((get c t k ≡ none) ⊎ (is_some (recall {P = z.Packed} (λ j. none) cmds k) ≡ true))

  -- What a command leaves is settled too, and the rest of the commands makes of it what all make of
  -- what was there.
  abbrev Advanced : Cache z → Command z.Packed → List (Command z.Packed) → Cache z → Type 0
  Advanced c cmd cmds c1 =
      Settled c1 cmds × (recall (λ j. get c1 t j) cmds k ≡ recall (λ j. get c t j) (cmd ∷ cmds) k)

  module _ (c c1 : Cache z) (cmd : Command z.Packed) (cmds : List (Command z.Packed))
      (f : Effect c cmd c1) where
    as_stepped :
        get c1 t k ≡ stepped cmd k (get c t k)
        → recall (λ j. get c1 t j) cmds k ≡ recall (λ j. get c t j) (cmd ∷ cmds) k
    unfolding recall
    as_stepped e = recall_at cmds (λ j. get c1 t j) (λ j. stepped cmd j (get c t j)) k e

    later_some :
        stepped cmd k none ≡ none
        → is_some (recall {P = z.Packed} (λ j. none) (cmd ∷ cmds) k) ≡ true
        → is_some (recall {P = z.Packed} (λ j. none) cmds k) ≡ true
    unfolding recall
    later_some e h = ap is_some (sym (recall_at cmds (λ j. stepped cmd j none) (λ j. none) k e)) ∙ h

    advance_other : text_eq cmd.key k ≡ false → Settled c (cmd ∷ cmds) → Advanced c cmd cmds c1
    advance_other off settled =
        let (same, typed) = f.other off in
        (
          elim settled [
            | inl old ↦ inl (typed old)
            | inr (inl empty) ↦ inr (inl (same ∙ empty))
            | inr (inr set) ↦ inr (inr (later_some (if_false (text_eq cmd.key k) _ _ off) set))
          ],
          as_stepped (same ∙ sym (if_false (text_eq cmd.key k) _ _ off)),
        )

    advance_set :
        text_eq cmd.key k ≡ true → text_eq cmd.type (codes "DEL") ≡ false → Advanced c cmd cmds c1
    advance_set on set =
        let (value, typed) = f.sets on set in (inl typed, as_stepped (value ∙ rw (on, set) refl))

    advance_delete :
        text_eq cmd.key k ≡ true
        → text_eq cmd.type (codes "DEL") ≡ true
        → Settled c (cmd ∷ cmds)
        → Advanced c cmd cmds c1
    unfolding recall
    advance_delete on del settled =
        let empties : (o : Option (Value z.Packed)) → stepped cmd k o ≡ none =
          λ o. rw (on, del) refl in
        elim settled [
          | inl old ↦
              let (gone, typed) = (f.deletes on del).0 old in
              (inl typed, as_stepped (gone ∙ sym (empties (get c t k))))
          | inr (inl empty) ↦
              let gone = (f.deletes on del).1 empty in
              (inr (inl gone), as_stepped (gone ∙ sym (empties (get c t k))))
          | inr (inr set) ↦
              let later = later_some (empties none) set in
              (
                inr (inr later),
                recall_some cmds (λ j. get c1 t j) k later
                    ∙ sym (
                        recall_at cmds (λ j. stepped cmd j (get c t j)) (λ j. none) k
                          (empties (get c t k))),
              )
        ]

    advance : Settled c (cmd ∷ cmds) → Advanced c cmd cmds c1
    advance settled = elim (Bool-cases (text_eq cmd.key k)) [
      | inr off ↦ advance_other off settled
      | inl on ↦ elim (Bool-cases (text_eq cmd.type (codes "DEL"))) [
        | inl del ↦ advance_delete on del settled
        | inr set ↦ advance_set on set
      ]
    ]

  -- A log of strings that were set without expiration and deleted, replayed on a well-formed cache
  -- where the log decides what the key has, leaves under the key what its commands say.
  pub replay-recall :
      (show : z.Packed → Text) (clock : ℕ → ℤ) (n : ℕ) (c : Cache z)
      (cmds : List (Command z.Packed))
      → Passes z
      → All (IsStringLine show) cmds
      → IsValid c
      → Settled c cmds
      → (c' : Cache z) × (replay clock n c (log_lines show cmds) ≡ some c')
        × (get c' t k ≡ recall (λ j. get c t j) cmds k)
  unfolding replay recall
  replay-recall show clock n c [] passes h v settled = (c, refl, refl)
  replay-recall show clock n c (cmd ∷ cmds) passes ((loggable, plain, of_string), hs) v settled =
      let (c1, e, f) = perform-Effect c (clock n) cmd passes of_string v in
      let (settled1, same) = advance c c1 cmd cmds f settled in
      let (c', r, reads) = replay-recall show clock (suc n) c1 cmds passes hs f.valid settled1 in
      let line =
        apply_line-parsed c (clock n) cmd (show_command show cmd)
          (parse_line-show_command show cmd loggable plain) in
      (c', rw (replay, line ∙ e) r, reads ∙ (unfold recall in same))

-- ===== src/Start/Loading.antt =====
-- cache/cache.go and main.go: the cache that is loaded from the files, and the mode that the flags ask for.
use ant_cache.Base.{
  ◌≡◌, ◌≢◌, text_eq_iff, refl, sym, ap, ◌∙◌, ◌⊎◌, inl, inr, true, false, not, ◌&&◌, Option, none,
  some, [], ℤ, Text, codes, text_eq, if◌then◌else◌, Bool-cases,
}
use ant_cache.Item.{Compression}
use ant_cache.Persistence.{PersistenceManager, new_persistence_manager}
use ant_cache.Cache.{Cache, new}
use ant_cache.Cache.Valid.{IsValid, new-IsValid}
use ant_cache.Atd.{load_atd}
use ant_cache.Atd.Loaded.{load_atd-IsValid}
use ant_cache.Log.Recovery.{load_acl_total}
use ant_cache.Start.{
  Opened, Stored, Mode, client, single, pooled, mode_of, ticks, start_manager, opened, load_files,
  new_with_persistence, Flags, atd_path_of, acl_path_of,
}

-- The paths of main are never empty.
path_or :
    (default path : Text)
    → text_eq default [] ≡ false
    → not (text_eq (if text_eq path [] then default else path) []) ≡ true
path_or default path full = elim (Bool-cases (text_eq path [])) [
  | inl empty ↦ rw (empty, full) refl
  | inr some_path ↦ rw (some_path, some_path) refl
]

pub named_paths :
    (f : Flags) → not (text_eq (atd_path_of f) []) && not (text_eq (acl_path_of f) []) ≡ true
unfolding text_eq
named_paths f =
    rw (path_or (codes "cache.atd") f.atd_file refl, path_or (codes "cache.acl") f.acl_file refl)
      refl

-- The client or the server that the flags ask for.
abbrev pub IsAsked : Flags → Mode → Type 0
IsAsked f client = f.cli_mode ≡ true
IsAsked f single = (f.cli_mode ≡ false) × (f.server_type ≡ codes "single-goroutine")
IsAsked f (pooled workers) =
    (f.cli_mode ≡ false) × (f.server_type ≡ codes "pooled-goroutine") × (workers ≡ f.max_workers)

abbrev pub IsUnknown : Flags → Type 0
IsUnknown f =
    (f.cli_mode ≡ false)
    × (f.server_type ≢ codes "single-goroutine")
    × (f.server_type ≢ codes "pooled-goroutine")

differs : (s t : Text) → text_eq s t ≡ false → s ≢ t
differs s t other same = cc (sym other ∙ (text_eq_iff s t).1 same)

pub mode_of-IsAsked :
    (f : Flags)
    → ((mode : Mode) × (mode_of f ≡ some mode) × IsAsked f mode)
      ⊎ ((mode_of f ≡ none) × IsUnknown f)
mode_of-IsAsked f =
    let one_type = codes "single-goroutine" in
    let pool_type = codes "pooled-goroutine" in
    elim (Bool-cases f.cli_mode) [
      | inl on ↦ inl (client, rw on refl, on)
      | inr off ↦ elim (Bool-cases (text_eq f.server_type one_type)) [
        | inl one ↦
            inl (single, rw (off, one) refl, (off, (text_eq_iff f.server_type one_type).0 one))
        | inr more ↦ elim (Bool-cases (text_eq f.server_type pool_type)) [
          | inl pool ↦ inl (
            pooled f.max_workers,
            rw (off, more, pool) refl,
            (off, (text_eq_iff f.server_type pool_type).0 pool, refl),
          )
          | inr unknown ↦ inr (
            rw (off, more, unknown) refl,
            (off, differs f.server_type one_type more, differs f.server_type pool_type unknown),
          )
        ]
      ]
    ]

module _ {z : Compression} where
  load_files-IsValid :
      (c : Cache z) (pm : PersistenceManager z.Packed) (stored : Stored)
      → IsValid c
      → (o : Opened z) × (load_files c pm stored ≡ some o) × IsValid o.cache
  unfolding load_files
  load_files-IsValid c pm stored v =
      let (atd_ok, c1) = load_atd pm c stored.now stored.snapshot in
      let (ok, c2, e, v2) =
        load_acl_total pm.enabled stored.clock c1 stored.log
          (load_atd-IsValid pm c stored.now stored.snapshot v) in
      (record { cache = c2; atd_ok = atd_ok; acl_ok = ok }, ap (opened atd_ok) e, v2)

  pub persistent-IsValid :
      (pm : Option (PersistenceManager z.Packed))
      → IsValid (record (new {z = z}) { persistence = pm })
  persistent-IsValid pm =
      let v = new-IsValid {z = z} in
      record {
        heap = v.heap;
        tracked = v.tracked;
        keyed = v.keyed;
        mapped_used = v.mapped_used;
        heaped_used = v.heaped_used;
      }

  -- NewWithPersistence with intervals that are positive returns a well-formed cache, and never panics,
  -- whatever the snapshot file and the log hold: also where they are damaged, cut short, unreadable or
  -- not there.
  pub new_with_persistence-IsValid :
      (atd_path acl_path : Text) (atd_interval acl_interval : ℤ) (stored : Stored)
      → ticks atd_interval acl_interval ≡ true
      → (o : Opened z) × (new_with_persistence atd_path acl_path atd_interval acl_interval stored
          ≡ some o)
        × IsValid o.cache
  unfolding new_with_persistence start_manager new_persistence_manager
  new_with_persistence-IsValid atd_path acl_path atd_interval acl_interval stored timed =
      let pm : PersistenceManager z.Packed =
        new_persistence_manager atd_path acl_path atd_interval acl_interval in
      let (o, e, v) =
        load_files-IsValid (record new { persistence = some pm }) pm stored
          (persistent-IsValid (some pm)) in
      elim (Bool-cases (not (text_eq atd_path []) && not (text_eq acl_path []))) [
        | inl named ↦ (o, rw (new_with_persistence, named, e, timed) refl, v)
        | inr unnamed ↦ (
          record { cache = new; atd_ok = true; acl_ok = true },
          rw (new_with_persistence, unnamed) refl,
          new-IsValid,
        )
      ]

  -- With both paths and an interval that is not positive it panics.
  pub untimed :
      (atd_path acl_path : Text) (atd_interval acl_interval : ℤ) (stored : Stored)
      → not (text_eq atd_path []) && not (text_eq acl_path []) ≡ true
      → ticks atd_interval acl_interval ≡ false
      → new_with_persistence {z = z} atd_path acl_path atd_interval acl_interval stored ≡ none
  unfolding new_with_persistence start_manager new_persistence_manager
  untimed atd_path acl_path atd_interval acl_interval stored named off =
      let pm : PersistenceManager z.Packed =
        new_persistence_manager atd_path acl_path atd_interval acl_interval in
      let (o, e, v) =
        load_files-IsValid (record new { persistence = some pm }) pm stored
          (persistent-IsValid (some pm)) in
      rw (new_with_persistence, named, e, off) refl

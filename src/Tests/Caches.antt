-- ===== src/Tests/Caches.antt =====
-- The theorems on the methods of Cache at the sample cache.
use ant_cache.Base.{
  ℤ, pos, ◌≡◌, ◌<ℤ◌, wrap64, ◌+ℤ◌, refl, arith, Text, codes, none, some, not, is_some, lookup,
  insert, text_eq, if◌then◌else◌,
}
use ant_cache.Item.{str}
use ant_cache.Heap.{
  push, append_item, cut_item, up, up_loop, down, down_loop, len, swap, less, pop, popped,
}
use ant_cache.Persistence.{log_to}
use ant_cache.Cache.{
  Cache, set, set_nx, get, delete, cleanup, cleanup_loop, expiration_of, put_item, alloc, logged,
  new,
}
use ant_cache.Cache.Valid.{IsValid}
use ant_cache.Cache.Reads.{fresh, get-set, get-set_nx, get-delete, cleanup_complete}
use ant_cache.Cache.Cleaning.{Cleaned, cleanup_total}
use ant_cache.Cache.Stale.{overwritten_lost}
use ant_cache.Tests.{
  plain_compression, plain-Restores, first, first-IsValid, stocked, stocked-IsValid,
}

get-set_example :
    get (set stocked (pos 20) (codes "name") (str (codes "bob")) (pos 5)) (pos 24) (codes "name")
    ≡ (if text_eq (codes "name") (codes "name")
        then fresh (pos 24) (pos 20) (pos 5) (str (codes "bob"))
        else get stocked (pos 24) (codes "name"))
get-set_example =
    get-set stocked (pos 20) (codes "name") (str (codes "bob")) (pos 5) (pos 24) (codes "name")
      plain-Restores stocked-IsValid

get-set_nx_example :
    ((set_nx stocked (pos 101) (codes "name") (str (codes "bob")) (pos 5)).0
      ≡ not (is_some (get stocked (pos 101) (codes "name"))))
    × (get
          (set_nx stocked (pos 101) (codes "name") (str (codes "bob")) (pos 5)).1
          (pos 102)
          (codes "name")
        ≡ (if is_some (get stocked (pos 101) (codes "name"))
            then get stocked (pos 102) (codes "name")
            else if text_eq (codes "name") (codes "name")
            then fresh (pos 102) (pos 101) (pos 5) (str (codes "bob"))
            else get stocked (pos 102) (codes "name")))
get-set_nx_example =
    get-set_nx stocked (pos 101) (codes "name") (str (codes "bob")) (pos 5) (pos 102) (codes "name")
      plain-Restores stocked-IsValid

get-delete_example :
    (c' : Cache plain_compression) × (delete stocked (pos 20) (codes "list")
      ≡ some (is_some (lookup (codes "list") stocked.items), c'))
    × IsValid c'
    × ((t : ℤ) (k : Text)
        → get c' t k ≡ (if text_eq (codes "list") k then none else get stocked t k))
get-delete_example = get-delete stocked (pos 20) (codes "list") stocked-IsValid

cleanup_total_example :
    (c' : Cache plain_compression) × (cleanup stocked (pos 70) ≡ some c')
    × Cleaned stocked (pos 70) c'
cleanup_total_example = cleanup_total stocked (pos 70) stocked-IsValid

overwritten_lost_example :
    ((t : ℤ)
      → get
          (set
            (set stocked (pos 20) (codes "a") (str (codes "v")) (pos 9))
            (pos 21)
            (codes "a")
            (str (codes "w"))
            (pos 0))
          t
          (codes "a")
        ≡ some (str (codes "w")))
    × ((c' : Cache plain_compression) × (cleanup
            (set
              (set stocked (pos 20) (codes "a") (str (codes "v")) (pos 9))
              (pos 21)
              (codes "a")
              (str (codes "w"))
              (pos 0))
            (pos 40)
          ≡ some c')
        × ((t : ℤ) → get c' t (codes "a") ≡ none))
unfolding expiration_of wrap64 ◌+ℤ◌
overwritten_lost_example =
    overwritten_lost stocked (pos 20) (codes "a") (str (codes "v")) (str (codes "w")) (pos 9)
      (pos 21) (pos 40) plain-Restores stocked-IsValid (omega arith) (ground arith)

-- At 20 nothing of the first cache is due.
first_kept : cleanup first (pos 20) ≡ some first
unfolding cleanup cleanup_loop pop popped down down_loop cut_item set put_item alloc logged
    expiration_of push append_item up up_loop len lookup insert log_to text_eq new wrap64 ◌+ℤ◌ swap
    less
first_kept = refl

first_name : (lookup (codes "name") first.items ≡ some 0) × (pos 0 <ℤ (first.mem 0).expiration)
unfolding set put_item alloc logged expiration_of push append_item up up_loop len lookup insert
    log_to text_eq new wrap64 ◌+ℤ◌ swap less
first_name = (refl, omega arith)

cleanup_complete_example : pos 20 <ℤ (first.mem 0).expiration
cleanup_complete_example =
    cleanup_complete first first (pos 20) (codes "name") 0 first-IsValid first_kept first_name.0
      first_name.1

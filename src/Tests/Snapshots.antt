-- ===== src/Tests/Snapshots.antt =====
-- The theorems on the snapshot file at the sample cache.
use ant_cache.Base.{
  ◌∷◌, [], pos, ◌≡◌, refl, arith, true, codes, lookup, insert, text_eq, wrap64, ◌+ℤ◌,
}
use ant_cache.Item.{Value, object}
use ant_cache.Heap.{push, append_item, up, up_loop, len, swap, less}
use ant_cache.Persistence.{log_to}
use ant_cache.Cache.{set, get, put_item, alloc, logged, new, expiration_of}
use ant_cache.Atd.{load_atd, save_atd}
use ant_cache.Atd.Bytes.RoundTrip.{Reads}
use ant_cache.Atd.Values.{write_atd_value, read_atd_value}
use ant_cache.Atd.Values.RoundTrip.{IsMap, IsWritable, read_atd_value-Reads}
use ant_cache.Atd.Snapshot.{FitRecords, load_atd-save_atd}
use ant_cache.Tests.{stocked, first, manager}

abbrev tags : Value (Unit {0})
tags = object ((codes "k", codes "v") ∷ (codes "m", []) ∷ [])

tags-IsWritable : IsWritable tags
unfolding lookup text_eq
tags-IsWritable = (
  omega arith,
  (((omega arith, omega arith), ((omega arith, omega arith), tt)), (refl, (refl, tt))),
)

read_atd_value-Reads_example :
    Reads (read_atd_value {P = Unit {0}}) (write_atd_value (λ p. []) tags) tags
read_atd_value-Reads_example = read_atd_value-Reads (λ p. []) tags tags-IsWritable

stocked-IsMap : IsMap stocked.items
unfolding set put_item alloc logged expiration_of push append_item up up_loop len lookup insert
    log_to text_eq new wrap64 ◌+ℤ◌ swap less
stocked-IsMap = (refl, (refl, (refl, tt)))

stocked-FitRecords : FitRecords stocked.mem stocked.items
unfolding set put_item alloc logged expiration_of push append_item up up_loop len lookup insert
    log_to text_eq new wrap64 ◌+ℤ◌ swap less
stocked-FitRecords = (
  (omega arith, (omega arith, (omega arith, omega arith))),
  (
    (omega arith, ((omega arith, (omega arith, (omega arith, tt))), (omega arith, omega arith))),
    (
      (
        omega arith,
        ((omega arith, (((omega arith, omega arith), tt), (refl, tt))), (omega arith, omega arith)),
      ),
      tt,
    ),
  ),
)

load_atd-save_atd_example :
    ((load_atd manager first (pos 30) (save_atd manager (λ p. []) stocked (pos 20) (pos 0))).0
      ≡ true)
    × (get
          (load_atd manager first (pos 30) (save_atd manager (λ p. []) stocked (pos 20) (pos 0))).1
          (pos 40)
          (codes "tags")
        ≡ get stocked (pos 40) (codes "tags"))
load_atd-save_atd_example =
    load_atd-save_atd manager (λ p. []) stocked first (pos 20) (pos 0) (pos 30) (pos 40)
      (codes "tags") refl stocked-IsMap stocked-FitRecords (ground arith) (omega arith)
      (omega arith)

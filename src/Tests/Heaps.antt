-- ===== src/Tests/Heaps.antt =====
-- The theorems on the expiration heap at the heap of the sample cache.
use ant_cache.Base.{◌≡◌, refl, arith, length, wrap64, ◌+ℤ◌}
use ant_cache.Heap.{Heap, at, push, append_item, up, up_loop, len, swap, less, popped, removed}
use ant_cache.Heap.Rearrange.{Holds}
use ant_cache.Heap.Valid.{IsHeap}
use ant_cache.Heap.Insertion.{With, push-With}
use ant_cache.Heap.Removal.{Without, removed-Without, popped-Without}
use ant_cache.Persistence.{log_to}
use ant_cache.Cache.{set, put_item, alloc, logged, new, expiration_of}
use ant_cache.Tests.{stocked, stocked-IsValid}

abbrev sample : Heap (Unit {0})
sample = stocked.heap

sample-IsHeap : IsHeap sample
sample-IsHeap = stocked-IsValid.heap

two_items : length sample.slice ≡ 2
unfolding set put_item alloc logged expiration_of push append_item up up_loop len log_to new wrap64
    ◌+ℤ◌ swap less
two_items = refl

removed-Without_example :
    ((removed sample 1).0 ≡ at sample 1) × Without sample (at sample 1) (removed sample 1).1
removed-Without_example = removed-Without sample 1 sample-IsHeap (omega (arith, two_items))

popped-Without_example :
    ((popped sample).0 ≡ at sample 0) × Without sample (at sample 0) (popped sample).1
popped-Without_example = popped-Without sample sample-IsHeap (omega (arith, two_items))

used : stocked.next ≡ 3
unfolding set put_item alloc logged expiration_of push append_item up up_loop len log_to new wrap64
    ◌+ℤ◌ swap less
used = refl

seven_absent : ¬ Holds sample 7
seven_absent x = absurd (omega (arith, used, stocked-IsValid.heaped_used 7 x))

push-With_example : With sample 7 (push sample 7)
push-With_example = push-With sample 7 sample-IsHeap seven_absent

-- ===== src/Tests/Bloom.antt =====
-- The theorems of the Bloom filters with a small hash.
use leopard.Prelude.{ℕ, ◌+◌, ◌*◌, ◌≡◌, true, false, some, [], ◌∷◌, replicate, length, All, arith}
use leopard.Bloom.{BloomFilter, RatelessBf, contains, insert_each, new, extend_times, contained}
use leopard.Bloom.Laws.{insert_each_lem}
use leopard.Bloom.Rateless.{extend_times_lem}

abbrev mix : ℕ → ℕ → ℕ
mix seed value = 31 * value + 7 * seed

abbrev filter : BloomFilter
filter = record { base = replicate 11 false; seeds = (3, 5); hashes = 3 }

insert_each_lem_example :
    All (λ v. contains mix v (insert_each mix (4 ∷ 9 ∷ []) filter) ≡ true) (4 ∷ 9 ∷ [])
    × ((u : ℕ)
        → contains mix u filter ≡ true
        → contains mix u (insert_each mix (4 ∷ 9 ∷ []) filter) ≡ true)
insert_each_lem_example = insert_each_lem mix (4 ∷ 9 ∷ []) filter (omega arith)

extend_times_lem_example :
    (r : RatelessBf ℕ) × (extend_times mix 3 (new mix (4 ∷ 9 ∷ []) 0) ≡ some r)
    × (length r.bloom_filters ≡ 3)
    × All (λ v. contained mix v r ≡ true) (4 ∷ 9 ∷ [])
extend_times_lem_example = extend_times_lem mix 3 (4 ∷ 9 ∷ []) 0

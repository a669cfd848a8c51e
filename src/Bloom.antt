-- ===== src/Bloom.antt =====
-- reconciliation/src/algorithms/rbf/bloom.rs and rateless_bloom.rs: Bloom filters with double
-- hashing, and the rateless filter that adds one at a time. `hash seed value` stands for
-- `hash_with_seed`, which runs the standard library's `DefaultHasher` and yields a `u64`. A `u64` sum
-- or product wraps. Every filter has at least one bit, so an index below is never out of range.
-- Times are left out, and so is the constructor that sizes a filter by a floating-point rate.
pub mod Laws
pub mod Rateless
use mathlib.Core.Option
use leopard.Prelude.{
  ℕ, zero, suc, ◌+◌, ◌-◌, ◌*◌, ◌/◌, ◌%◌, ◌==◌, ◌^◌, max, Bool, true, false, ◌&&◌, List, [], ◌∷◌,
  ◌++◌, length, get_elem?, replicate, Option, none, some, ltb, if◌then◌else◌,
}

pub record BloomFilter : Type 0 where
  pub base : List Bool
  pub seeds : ℕ × ℕ
  pub hashes : ℕ

unfoldable pub from_raw_parts_with_seeds : ℕ → ℕ → ℕ × ℕ → Option BloomFilter
from_raw_parts_with_seeds m k seeds =
    if ltb 0 m && ltb 0 k
    then some (record { base = replicate (max m 1) false; seeds = seeds; hashes = k })
    else none

-- None is the failed assertion.
unfoldable pub from_raw_parts : ℕ → ℕ → Option BloomFilter
from_raw_parts m k =
    if ltb 0 m && ltb 0 k
    then some (record { base = replicate (max m 1) false; seeds = (0, 1); hashes = k })
    else none

-- The inner loop over the bits of a byte, where that many of the `m` bits are left to be set.
unfoldable pub read_byte : ℕ → ℕ → ℕ → List Bool
read_byte zero m byte = []
read_byte (suc n) zero byte = []
read_byte (suc n) (suc m) byte = (byte % 2 == 1) ∷ read_byte n m (byte / 2)

-- The loop over the bytes, which sets the bits in order; the bits that no byte holds stay 0.
unfoldable pub read_bits : ℕ → List ℕ → List Bool
read_bits m [] = replicate m false
read_bits m (byte ∷ bytes) = read_byte 8 m byte ++ read_bits (m - 8) bytes

unfoldable pub from_raw_bits : ℕ → ℕ → List ℕ → ℕ × ℕ → BloomFilter
from_raw_bits m k bits seeds = record { base = read_bits m bits; seeds = seeds; hashes = k }

unfoldable pub set : ℕ → Bool → List Bool → List Bool
set i v [] = []
set zero v (b ∷ bs) = v ∷ bs
set (suc i) v (b ∷ bs) = b ∷ set i v bs

abbrev pub bit_at : ℕ → List Bool → Bool
bit_at i bs = Option.get_or (get_elem? bs i) false

-- `h.0.wrapping_add(i.wrapping_mul(h.1)) % self.base.len()`
abbrev pub index_of : ℕ × ℕ → ℕ → ℕ → ℕ
index_of h i len = ((h.0 + (i * h.1) % 2 ^ 64) % 2 ^ 64) % len

-- `n` turns of a loop over `0..hashes`, from `i` on.
unfoldable pub set_loop : ℕ × ℕ → ℕ → ℕ → List Bool → List Bool
set_loop h zero i base = base
set_loop h (suc n) i base = set_loop h n (suc i) (set (index_of h i (length base)) true base)

unfoldable pub all_loop : ℕ × ℕ → ℕ → ℕ → List Bool → Bool
all_loop h zero i base = true
all_loop h (suc n) i base = bit_at (index_of h i (length base)) base && all_loop h n (suc i) base

module _ {ℓ} {T : Type ℓ} (hash : ℕ → T → ℕ) where
  abbrev pub hash_pair : BloomFilter → T → ℕ × ℕ
  hash_pair f value = (hash f.seeds.0 value, hash f.seeds.1 value)

  unfoldable pub contains : T → BloomFilter → Bool
  contains value f = all_loop (hash_pair f value) f.hashes 0 f.base

  unfoldable pub insert : T → BloomFilter → BloomFilter
  insert value f = record f { base = set_loop (hash_pair f value) f.hashes 0 f.base }

  unfoldable pub insert_each : List T → BloomFilter → BloomFilter
  insert_each [] f = f
  insert_each (d ∷ data') f = insert_each data' (insert d f)

pub record RatelessBf {ℓ} (T : Type ℓ) : Type ℓ where
  pub bloom_filters : List BloomFilter
  pub items : List T
  pub m : ℕ

module _ {ℓ} {T : Type ℓ} (hash : ℕ → T → ℕ) where
  unfoldable pub new : List T → ℕ → RatelessBf T
  new items m = record { bloom_filters = []; items = items; m = max m 1 }

  -- None is the failed assertion of `from_raw_parts`.
  unfoldable pub extend : RatelessBf T → Option (RatelessBf T)
  extend r = elim (from_raw_parts r.m 1) [
    | none ↦ none
    | some filter ↦
        some (record r { bloom_filters = r.bloom_filters ++ insert_each hash r.items filter ∷ [] })
  ]

  unfoldable pub all_contain : T → List BloomFilter → Bool
  all_contain value [] = true
  all_contain value (f ∷ fs) = contains hash value f && all_contain value fs

  unfoldable pub contained : T → RatelessBf T → Bool
  contained value r = all_contain value r.bloom_filters

  -- That many calls of `extend`, as `extend_until` makes them.
  unfoldable pub extend_times : ℕ → RatelessBf T → Option (RatelessBf T)
  extend_times zero r = some r
  extend_times (suc n) r = Option.bind (extend r) (extend_times n)

-- ===== src/Bloom/Rateless.antt =====
-- The rateless filter misses none of its items.
use mathlib.Core.Option
use leopard.Prelude.{
  ℕ, zero, suc, ◌<◌, max, ◌≡◌, refl, true, false, List, [], ◌∷◌, ◌++◌, length, replicate,
  length-replicate, length-append, ◌+◌, some, ltb, arith, All,
}
use leopard.Bloom.Laws.{both, insert_each_lem}
use leopard.Bloom.{
  BloomFilter, RatelessBf, from_raw_parts, contains, insert_each, new, extend, all_contain,
  contained, extend_times,
}

module _ {ℓ} {T : Type ℓ} (hash : ℕ → T → ℕ) where
  all_contain-append :
      (v : T) (fs : List BloomFilter) (f : BloomFilter)
      → all_contain hash v fs ≡ true
      → contains hash v f ≡ true
      → all_contain hash v (fs ++ f ∷ []) ≡ true
  unfolding all_contain
  all_contain-append v [] f h g = both _ _ g refl
  all_contain-append v (e ∷ fs) f h g =
      both _ _ (ground (arith, h)) (all_contain-append v fs f (ground (arith, h)) g)

  all_contain_each :
      (vs : List T) (fs : List BloomFilter) (f : BloomFilter)
      → All (λ v. all_contain hash v fs ≡ true) vs
      → All (λ v. contains hash v f ≡ true) vs
      → All (λ v. all_contain hash v (fs ++ f ∷ []) ≡ true) vs
  all_contain_each [] fs f h g = tt
  all_contain_each (v ∷ vs) fs f h g =
      (all_contain-append v fs f h.0 g.0, all_contain_each vs fs f h.1 g.1)

  -- A rateless filter that can be extended and contains its items.
  record IsReady (items : List T) (r : RatelessBf T) : Type ℓ where
    items_eq : r.items ≡ items
    positive : 0 < r.m
    holds : All (λ v. all_contain hash v r.bloom_filters ≡ true) items

  extend-IsReady :
      (items : List T) (r : RatelessBf T)
      → IsReady items r
      → (r' : RatelessBf T) × (extend hash r ≡ some r')
        × (length r'.bloom_filters ≡ suc (length r.bloom_filters))
        × IsReady items r'
  unfolding extend from_raw_parts
  extend-IsReady items r h =
      let raised : ltb 0 r.m ≡ true = ground (arith, h.positive) in
      let fresh : BloomFilter = record {
        base = replicate (max r.m 1) false;
        seeds = (0, 1);
        hashes = 1;
      } in
      let some_bits : 0 < length fresh.base = omega (arith, length-replicate (max r.m 1) false) in
      (
        record r { bloom_filters = r.bloom_filters ++ insert_each hash r.items fresh ∷ [] },
        rw (raised, extend, from_raw_parts) refl,
        omega (arith, length-append r.bloom_filters (insert_each hash r.items fresh ∷ [])),
        record {
          items_eq = h.items_eq;
          positive = h.positive;
          holds =
              all_contain_each items r.bloom_filters (insert_each hash r.items fresh) h.holds
                (rw h.items_eq ((insert_each_lem hash items fresh some_bits).0));
        },
      )

  extend_times-IsReady :
      (n : ℕ) (items : List T) (r : RatelessBf T)
      → IsReady items r
      → (r' : RatelessBf T) × (extend_times hash n r ≡ some r')
        × (length r'.bloom_filters ≡ n + length r.bloom_filters)
        × IsReady items r'
  unfolding extend_times Option.bind
  extend_times-IsReady zero items r h = (r, refl, omega arith, h)
  extend_times-IsReady (suc n) items r h =
      let one = extend-IsReady items r h in
      let rest = extend_times-IsReady n items one.0 one.3 in
      (rest.0, rw one.1 rest.1, omega (arith, one.2, rest.2), rest.3)

  start_holds :
      (items vs : List T) (m : ℕ)
      → All (λ v. all_contain hash v (new hash items m).bloom_filters ≡ true) vs
  unfolding new all_contain
  start_holds items [] m = tt
  start_holds items (v ∷ vs) m = (refl, start_holds items vs m)

  -- However often a new rateless filter is extended, each call adds a filter, and no item is
  -- missed, whatever the size asked for.
  pub extend_times_lem :
      (n : ℕ) (items : List T) (m : ℕ)
      → (r : RatelessBf T) × (extend_times hash n (new hash items m) ≡ some r)
        × (length r.bloom_filters ≡ n)
        × All (λ v. contained hash v r ≡ true) items
  unfolding new contained
  extend_times_lem n items m =
      let done =
        extend_times-IsReady n items (new hash items m)
          (record { items_eq = refl; positive = omega arith; holds = start_holds items items m }) in
      (done.0, done.1, omega (arith, done.2), done.3.holds)

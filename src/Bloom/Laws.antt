-- ===== src/Bloom/Laws.antt =====
-- No false negatives: what was inserted is contained, whatever else is inserted.
use leopard.Prelude.{
  ℕ, zero, suc, ◌<◌, ◌≡◌, refl, ap, ◌∙◌, Bool, true, ◌&&◌, List, [], ◌∷◌, length, arith, All,
}
use leopard.Bloom.{
  BloomFilter, set, bit_at, index_of, set_loop, all_loop, contains, insert, insert_each,
}

pub both : (a b : Bool) → a ≡ true → b ≡ true → (a && b) ≡ true
both a b h g = ground (arith, h, g)

length-set : (i : ℕ) (v : Bool) (bs : List Bool) → length (set i v bs) ≡ length bs
unfolding set
length-set i v [] = refl
length-set zero v (b ∷ bs) = refl
length-set (suc i) v (b ∷ bs) = ap suc (length-set i v bs)

bit_at-set_own : (i : ℕ) (bs : List Bool) → i < length bs → bit_at i (set i true bs) ≡ true
unfolding set
bit_at-set_own i [] h = absurd (omega arith)
bit_at-set_own zero (b ∷ bs) h = refl
bit_at-set_own (suc i) (b ∷ bs) h = bit_at-set_own i bs (omega arith)

bit_at-set_keep : (i j : ℕ) (bs : List Bool) → bit_at j bs ≡ true → bit_at j (set i true bs) ≡ true
unfolding set
bit_at-set_keep i j [] h = h
bit_at-set_keep zero zero (b ∷ bs) h = refl
bit_at-set_keep zero (suc j) (b ∷ bs) h = h
bit_at-set_keep (suc i) zero (b ∷ bs) h = h
bit_at-set_keep (suc i) (suc j) (b ∷ bs) h = bit_at-set_keep i j bs h

index_of_lt : (h : ℕ × ℕ) (i len : ℕ) → 0 < len → index_of h i len < len
index_of_lt h i len p = omega arith

module _ (h : ℕ × ℕ) where
  length-set_loop : (n i : ℕ) (bs : List Bool) → length (set_loop h n i bs) ≡ length bs
  unfolding set_loop
  length-set_loop zero i bs = refl
  length-set_loop (suc n) i bs =
      length-set_loop n (suc i) (set (index_of h i (length bs)) true bs)
      ∙ length-set (index_of h i (length bs)) true bs

  set_loop_keep :
      (n i j : ℕ) (bs : List Bool) → bit_at j bs ≡ true → bit_at j (set_loop h n i bs) ≡ true
  unfolding set_loop
  set_loop_keep zero i j bs e = e
  set_loop_keep (suc n) i j bs e =
      set_loop_keep n (suc i) j _ (bit_at-set_keep (index_of h i (length bs)) j bs e)

  all_loop-set_loop :
      (n i : ℕ) (bs : List Bool) → 0 < length bs → all_loop h n i (set_loop h n i bs) ≡ true
  unfolding all_loop set_loop
  all_loop-set_loop zero i bs p = refl
  all_loop-set_loop (suc n) i bs p =
      let x = index_of h i (length bs) in
      let cs = set x true bs in
      let size : length (set_loop h n (suc i) cs) ≡ length bs =
        length-set_loop n (suc i) cs ∙ length-set x true bs in
      let own =
        set_loop_keep n (suc i) x cs (bit_at-set_own x bs (index_of_lt h i (length bs) p)) in
      let rest = all_loop-set_loop n (suc i) cs (rw (length-set x true bs) p) in
      both _ _ (ap (λ l. bit_at (index_of h i l) (set_loop h n (suc i) cs)) size ∙ own) rest

-- A filter that has every bit of another of its length contains what that one contains.
all_loop_mono :
    (h : ℕ × ℕ) (n i : ℕ) (bs cs : List Bool)
    → length cs ≡ length bs
    → ((j : ℕ) → bit_at j bs ≡ true → bit_at j cs ≡ true)
    → all_loop h n i bs ≡ true
    → all_loop h n i cs ≡ true
unfolding all_loop
all_loop_mono h zero i bs cs e k g = refl
all_loop_mono h (suc n) i bs cs e k g =
    let x = index_of h i (length bs) in
    let own : bit_at x bs ≡ true = ground (arith, g) in
    let rest : all_loop h n (suc i) bs ≡ true = ground (arith, g) in
    both _ _ (ap (λ l. bit_at (index_of h i l) cs) e ∙ k x own)
      (all_loop_mono h n (suc i) bs cs e k rest)

module _ {ℓ} {T : Type ℓ} (hash : ℕ → T → ℕ) where
  -- Whether the second filter has the shape of the first and all its bits.
  record Extends (f g : BloomFilter) : Type 0 where
    seeds_eq : g.seeds ≡ f.seeds
    hashes_eq : g.hashes ≡ f.hashes
    length_eq : length g.base ≡ length f.base
    bits : (j : ℕ) → bit_at j f.base ≡ true → bit_at j g.base ≡ true

  contains-Extends :
      (v : T) (f g : BloomFilter)
      → Extends f g
      → contains hash v f ≡ true
      → contains hash v g ≡ true
  unfolding contains
  contains-Extends v f g x h =
      rw (x.seeds_eq, x.hashes_eq)
        (all_loop_mono (hash f.seeds.0 v, hash f.seeds.1 v) f.hashes 0 f.base g.base x.length_eq
          x.bits h)

  insert-Extends : (v : T) (f : BloomFilter) → Extends f (insert hash v f)
  unfolding insert
  insert-Extends v f = record {
    seeds_eq = refl;
    hashes_eq = refl;
    length_eq = length-set_loop (hash f.seeds.0 v, hash f.seeds.1 v) f.hashes 0 f.base;
    bits = λ j. set_loop_keep (hash f.seeds.0 v, hash f.seeds.1 v) f.hashes 0 j f.base;
  }

  contains-insert :
      (v : T) (f : BloomFilter) → 0 < length f.base → contains hash v (insert hash v f) ≡ true
  unfolding contains insert
  contains-insert v f p = all_loop-set_loop (hash f.seeds.0 v, hash f.seeds.1 v) f.hashes 0 f.base p

  insert_each-Extends : (vs : List T) (f : BloomFilter) → Extends f (insert_each hash vs f)
  unfolding insert_each
  insert_each-Extends [] f = record {
    seeds_eq = refl;
    hashes_eq = refl;
    length_eq = refl;
    bits = λ j h. h;
  }
  insert_each-Extends (v ∷ vs) f =
      let one = insert-Extends v f in
      let rest = insert_each-Extends vs (insert hash v f) in
      record {
        seeds_eq = rest.seeds_eq ∙ one.seeds_eq;
        hashes_eq = rest.hashes_eq ∙ one.hashes_eq;
        length_eq = rest.length_eq ∙ one.length_eq;
        bits = λ j h. rest.bits j (one.bits j h);
      }

  -- Insertion changes neither the number of bits nor that of hashes.
  pub insert_each_shape :
      (vs : List T) (f : BloomFilter)
      → (length (insert_each hash vs f).base ≡ length f.base)
        × ((insert_each hash vs f).hashes ≡ f.hashes)
  insert_each_shape vs f = let all = insert_each-Extends vs f in (all.length_eq, all.hashes_eq)

  -- A filter with a bit at least contains each value of a list that is inserted, and still each
  -- value that it contained before.
  pub insert_each_lem :
      (vs : List T) (f : BloomFilter)
      → 0 < length f.base
      → All (λ v. contains hash v (insert_each hash vs f) ≡ true) vs
        × ((u : T) → contains hash u f ≡ true → contains hash u (insert_each hash vs f) ≡ true)
  unfolding insert_each
  insert_each_lem vs f p =
      (each vs f p, λ u. contains-Extends u f (insert_each hash vs f) (insert_each-Extends vs f))
    where
      each :
          (vs : List T) (f : BloomFilter)
          → 0 < length f.base
          → All (λ v. contains hash v (insert_each hash vs f) ≡ true) vs
      each [] f p = tt
      each (v ∷ vs) f p =
          let one = insert-Extends v f in
          (
            contains-Extends v (insert hash v f) _ (insert_each-Extends vs (insert hash v f))
                (contains-insert v f p),
            each vs (insert hash v f) (rw one.length_eq p),
          )

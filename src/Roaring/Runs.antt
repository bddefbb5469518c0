-- ===== src/Roaring/Runs.antt =====
-- The values of a sparse set, key by key, into containers.
use arnm.Base.{
  ℕ, zero, suc, ◌+◌, ◌≤◌, ◌<◌, ◌≡◌, ◌≢◌, refl, ap, sym, ◌∙◌, List, [], ◌∷◌, ◌++◌, true, inl, inr,
  arith, map, length, take, ◌==◌, Bool-cases, ==_iff, append_assoc, append-nil, length-append,
  length-map,
}
use arnm.BucketVector.Walks.{take-all}
use arnm.Result.{is_success}
use arnm.Roaring.{Container, RoaringBitmap, empty_set, is_sparse, key_of, low_of, value_of}
use arnm.Roaring.Pool.{BlockPool, IsLending, Refuses}
use arnm.Roaring.Containers.{emit_array}
use arnm.Roaring.Adding.{run_of, emit_runs, values_to_containers, sparse_to_containers}
use arnm.Roaring.Ascending.{IsAscending, IsAscending-widen, IsAscending-le}
use arnm.Roaring.Keys.{keys_of}
use arnm.Roaring.Elements.{directory_values, elements, IsSparse, IsRoaring, Settles}
use arnm.Roaring.Converting.{IsBuilt, emit_array-Emitted}

-- The front of the values is the run of the key, and the rest has higher keys.
run_of-splits :
    (key low : ℕ) (vs : List ℕ)
    → key < 65536
    → low ≤ 65536
    → IsAscending (value_of key low) vs 4294967296
    → (vs ≡ map (value_of key) (run_of key vs).0 ++ (run_of key vs).1)
      × IsAscending low (run_of key vs).0 65536
      × IsAscending (value_of (suc key) 0) (run_of key vs).1 4294967296
unfolding run_of
run_of-splits key low [] small within up = (refl, within, omega arith)
run_of-splits key low (v ∷ vs) small within (at_least, up) = elim (Bool-cases (key_of v == key)) [
  | inl same ↦
      let end = IsAscending-le (suc v) vs 4294967296 up in
      let split : v ≡ value_of key (low_of v) =
        let equal : key_of v ≡ key = (==_iff _ _).0 same in omega arith in
      let next : suc v ≡ value_of key (suc (low_of v)) = omega arith in
      let (whole, front, back) =
        run_of-splits key (suc (low_of v)) vs small (omega arith) (rw next at up) in
      rw same (
        ap (λ x. x ∷ vs) split ∙ ap (λ xs. value_of key (low_of v) ∷ xs) whole,
        (omega arith, front),
        back,
      )
  | inr other ↦
      let end = IsAscending-le (suc v) vs 4294967296 up in
      let differ : key_of v ≢ key = ground arith in rw other (refl, within, (omega arith, up))
]

-- A value is in the run of its own key.
run_of-own :
    (v : ℕ) (vs : List ℕ)
    → run_of (key_of v) (v ∷ vs) ≡ (low_of v ∷ (run_of (key_of v) vs).0, (run_of (key_of v) vs).1)
unfolding run_of
run_of-own v vs = let own : (key_of v == key_of v) ≡ true = ground arith in rw own refl

pub no_values : directory_values empty_set.containers ≡ []
unfolding directory_values
no_values = refl

pub empty_keys : IsAscending 0 (keys_of empty_set.containers) 0
unfolding keys_of
empty_keys = omega arith

pub empty_values : IsAscending 0 (directory_values empty_set.containers) 0
unfolding directory_values
empty_values = omega arith

pub empty_set-IsBuilt : IsBuilt empty_set
unfolding keys_of directory_values
empty_set-IsBuilt = record {
  directory = record {
    numbered = refl;
    blockless = λ null. refl;
    sorted = omega arith;
    all = tt;
    least = λ there. absurd (ground arith);
    log2_small = omega arith;
    fits = omega arith;
  };
  counted = refl;
  ascending = omega arith;
  top = inl refl;
  bounded = omega arith;
}

-- Values need a container.
pub some_containers :
    (cs : List Container) (n : ℕ) → n ≡ length (directory_values cs) → 0 < n → 0 < length cs
unfolding directory_values
some_containers [] n counted some_there = omega arith
some_containers (c ∷ cs) n counted some_there = omega arith

module _ (P : BlockPool) (lending : IsLending P) where
  pub emit_runs-values :
      (rounds : ℕ) (s : RoaringBitmap) (key : ℕ) (vs : List ℕ) (p : P.State)
      → IsBuilt s
      → IsAscending 0 (keys_of s.containers) key
      → IsAscending 0 (directory_values s.containers) (value_of key 0)
      → IsAscending (value_of key 0) vs 4294967296
      → length vs ≤ rounds
      → s.cardinality + length vs ≤ 2048
      → Settles
          (emit_runs P rounds s vs p).result
          (IsBuilt (emit_runs P rounds s vs p).out
            × (directory_values (emit_runs P rounds s vs p).out.containers
                ≡ directory_values s.containers ++ vs))
          (Refuses P)
  unfolding emit_runs is_success
  emit_runs-values zero s key [] p built sorted below up enough room =
      inl (refl, (built, sym (append-nil (directory_values s.containers))))
  emit_runs-values (suc rounds) s key [] p built sorted below up enough room =
      inl (refl, (built, sym (append-nil (directory_values s.containers))))
  emit_runs-values zero s key (v ∷ vs) p built sorted below up enough room = absurd (omega arith)
  emit_runs-values (suc rounds) s key (v ∷ vs) p built sorted below (at_least, up) enough room =
      let end = IsAscending-le (suc v) vs 4294967296 up in
      let k = key_of v in
      let higher : key ≤ k = omega arith in
      let small : k < 65536 = omega arith in
      let split : v ≡ value_of k (low_of v) = omega arith in
      let next : suc v ≡ value_of k (suc (low_of v)) = omega arith in
      let (whole, front, back) =
        run_of-splits k (suc (low_of v)) vs small (omega arith) (rw next at up) in
      let lows = (run_of k vs).0 in
      let rest = (run_of k vs).1 in
      let sizes : length vs ≡ length lows + length rest =
        ap length whole
        ∙ length-append (map (value_of k) lows) rest
        ∙ ap (λ n. n + length rest) (length-map lows (value_of k)) in
      let r = emit_array P s k (low_of v ∷ lows) (length (low_of v ∷ lows)) p in
      let all_values : directory_values s.containers ++ v ∷ vs
          ≡ (directory_values s.containers ++ map (value_of k) (low_of v ∷ lows)) ++ rest =
        ap (λ xs. directory_values s.containers ++ xs)
          (ap (λ x. x ∷ vs) split ∙ ap (λ xs. value_of k (low_of v) ∷ xs) whole)
        ∙ sym (
            append_assoc (directory_values s.containers) (map (value_of k) (low_of v ∷ lows))
              rest) in
      rw (run_of-own v vs)
        (elim (emit_array-Emitted P lending s k (low_of v) lows p built
          (IsAscending-widen 0 (keys_of s.containers) key k sorted higher) small
          (IsAscending-widen 0 (directory_values s.containers) (value_of key 0) (value_of k 0) below
            (omega arith))
          (omega arith, front) (omega arith) (omega arith)) [
            | inr (refusal, kept) ↦ rw refusal (inr (refusal, kept.1))
            | inl (done, emitted) ↦
                let count : r.out.cardinality ≡ s.cardinality + suc (length lows) =
                  emitted.built.counted
                  ∙ ap length emitted.values
                  ∙ length-append (directory_values s.containers)
                      (map (value_of k) (low_of v ∷ lows))
                  ∙ ap (λ n. length (directory_values s.containers) + suc n)
                      (length-map lows (value_of k))
                  ∙ ap (λ n. n + suc (length lows)) (sym built.counted) in
                rw done
                  (elim (emit_runs-values rounds r.out (suc k) rest r.pool emitted.built
                    emitted.sorted emitted.below back (omega arith) (omega arith)) [
                      | inr failed ↦ inr failed
                      | inl (ended, (after, held)) ↦ inl (
                        ended,
                        (after, held ∙ ap (λ xs. xs ++ rest) emitted.values ∙ sym all_values),
                      )
                    ])
          ])

  -- The containers that a sparse set with values becomes.
  pub sparse_to_containers-values :
      (s : RoaringBitmap) (p : P.State)
      → IsRoaring s
      → IsSparse s
      → 0 < s.cardinality
      → Settles
          (sparse_to_containers P s p).result
          (IsBuilt (sparse_to_containers P s p).out
            × (0 < (sparse_to_containers P s p).out.count)
            × (directory_values (sparse_to_containers P s p).out.containers ≡ s.values))
          ((sparse_to_containers P s p).out ≡ s × Refuses P)
  unfolding sparse_to_containers values_to_containers elements
  sparse_to_containers-values s p valid sparse some_there =
      let yes_sparse : is_sparse s ≡ true = ground (arith, sparse.no_containers) in
      let ascends : IsAscending 0 s.values (suc s.maximum) =
        rw (yes_sparse, elements) at valid.ascending in
      let up = IsAscending-widen 0 s.values (suc s.maximum) 4294967296 ascends valid.bounded in
      let all : take s.cardinality s.values ≡ s.values =
        take-all s.cardinality s.values (omega (arith, sparse.counted)) in
      elim (emit_runs-values s.cardinality empty_set 0 (take s.cardinality s.values) p
        empty_set-IsBuilt empty_keys empty_values (rw all up)
        (rw all (omega (arith, sparse.counted)))
        (rw all (omega (arith, sparse.counted, sparse.limited)))) [
          | inr (refusal, why) ↦ rw refusal (inr (refusal, (refl, why)))
          | inl (done, (built, held)) ↦
              let built_set =
                (emit_runs P s.cardinality empty_set (take s.cardinality s.values) p).out in
              let same = held ∙ ap (λ vs. vs ++ take s.cardinality s.values) no_values ∙ all in
              rw done (
                inl (
                  done,
                  (
                    built,
                    omega (
                      arith,
                      some_there,
                      built.directory.numbered,
                      some_containers built_set.containers s.cardinality
                          (sparse.counted ∙ sym (ap length same)) some_there,
                    ),
                    same,
                  ),
                ))
        ]

-- ===== src/Roaring/Building.antt =====
-- A set built by adding an ascending list, value after value, and what it then contains.
use arnm.Base.{
  ℕ, suc, ◌+◌, ◌≤◌, ◌<◌, ◌≡◌, ◌⊎◌, refl, ap, sym, ◌∙◌, List, [], ◌∷◌, ◌++◌, true, false, inl, inr,
  arith, length, if◌then◌else◌, append_assoc, append-nil, length-append,
}
use arnm.Result.{Result, success, is_success}
use arnm.Roaring.{RoaringBitmap, empty_set}
use arnm.Roaring.Pool.{BlockPool, IsLending, Refuses}
use arnm.Roaring.Containers.{Outcome}
use arnm.Roaring.Adding.{add}
use arnm.Roaring.Reads.{contains}
use arnm.Roaring.Ascending.{IsAscending, IsAscending-le}
use arnm.Roaring.Elements.{elements, IsRoaring}
use arnm.Roaring.Appending.{add-Adds}
use arnm.Roaring.Contains.{is_in, contains-is_in}

pub empty_set-IsRoaring : IsRoaring empty_set
unfolding elements
empty_set-IsRoaring = record {
  counted = refl;
  ascending = omega arith;
  top = inl refl;
  bounded = omega arith;
  form = inl (record {
    no_containers = refl;
    no_entries = refl;
    counted = refl;
    limited = omega arith;
    blockless = λ null. refl;
    least = λ there. absurd (ground arith);
    log2_small = omega arith;
    fits = omega arith;
  });
}

ends_long : (zs : List ℕ) {x w : ℕ} (y : ℕ) → x ∷ [] ≡ w ∷ zs ++ y ∷ [] → ⊥
ends_long [] y same = ground arith
ends_long (z ∷ zs) y same = ground arith

-- Values that end with a number end with no other one.
ends_once : (xs ys : List ℕ) (x y : ℕ) → xs ++ x ∷ [] ≡ ys ++ y ∷ [] → x ≡ y
ends_once [] [] x y same = ground arith
ends_once [] (z ∷ zs) x y same = absurd (ends_long zs y same)
ends_once (z ∷ zs) [] x y same = absurd (ends_long zs x (sym same))
ends_once (z ∷ zs) (w ∷ ws) x y same = ends_once zs ws x y (ground arith)

module _ (P : BlockPool) where
  -- the adds of a list, up to the first one that fails
  unfoldable pub build : List ℕ → RoaringBitmap → P.State → Outcome RoaringBitmap P.State
  build [] s p = record { result = success; out = s; pool = p }
  build (v ∷ vs) s p =
      let r = add P s v p in
      let rest = build vs r.out r.pool in if is_success r.result then rest else r

-- How far the adds of a list came: to its end, or to a value that a refusal of the pool kept out.
abbrev pub Ends : BlockPool → Result → List ℕ → Type 0
Ends P r back =
    ((is_success r ≡ true) × (back ≡ [])) ⊎ ((is_success r ≡ false) × (0 < length back) × Refuses P)

module _ (P : BlockPool) (lending : IsLending P) where
  build-elements :
      (vs : List ℕ) (s : RoaringBitmap) (p : P.State) (lo : ℕ)
      → IsRoaring s
      → (s.cardinality ≡ 0) ⊎ (s.maximum < lo)
      → IsAscending lo vs 4294967296
      → s.cardinality + length vs ≤ 4294967295
      → let r = build P vs s p in
        (front : List ℕ) × (back : List ℕ) × (front ++ back ≡ vs)
        × (elements r.out ≡ elements s ++ front)
        × IsRoaring r.out
        × Ends P r.result back
  unfolding build is_success
  build-elements [] s p lo valid room up few =
      ([], [], refl, sym (append-nil (elements s)), valid, inl (refl, refl))
  build-elements (v ∷ vs) s p lo valid room (at_least, up) few =
      let end = IsAscending-le (suc v) vs 4294967296 up in
      let next : (s.cardinality ≡ 0) ⊎ (s.maximum < v) = elim room [
        | inl nothing ↦ inl nothing
        | inr below ↦ inr (omega arith)
      ] in
      elim (add-Adds P lending s v p valid (omega arith) (omega arith) next) [
        | inr (refusal, (after, kept, why)) ↦ rw refusal (
          [],
          v ∷ vs,
          refl,
          kept ∙ sym (append-nil (elements s)),
          after,
          inr (refusal, omega arith, why),
        )
        | inl (done, (after, grew)) ↦
            let r = add P s v p in
            let count : r.out.cardinality ≡ suc s.cardinality =
              after.counted
              ∙ ap length grew
              ∙ length-append (elements s) (v ∷ [])
              ∙ ap (λ n. n + 1) (sym valid.counted)
              ∙ omega arith in
            let maximum : r.out.maximum < suc v = elim after.top [
              | inl nothing ↦
                  absurd (let some_there = after.counted ∙ ap length nothing in omega arith)
              | inr (front, ends) ↦
                  let same = ends_once front (elements s) r.out.maximum v (sym ends ∙ grew) in
                  omega arith
            ] in
            let (front, back, split, held, valid', ended) =
              build-elements vs r.out r.pool (suc v) after (inr maximum) up (omega arith) in
            rw done (
              v ∷ front,
              back,
              ap (λ xs. v ∷ xs) split,
              held ∙ ap (λ xs. xs ++ front) grew ∙ append_assoc (elements s) (v ∷ []) front,
              valid',
              ended,
            )
      ]

  -- Adding an ascending list of fewer than 2 ^ 32 32 bit numbers to an empty set, up to the first add
  -- that fails, adds a front part of the list: all of it if every add succeeds, and less than that
  -- only if the pool has refused a request. The set is then well formed, holds that front part and
  -- nothing else, and arnm_roaring_contains answers true for its numbers and false for every other
  -- one. Of the pool it is assumed that a request that succeeds hands out a block.
  pub build-contains :
      (vs : List ℕ) (p : P.State) (value : ℕ)
      → IsAscending 0 vs 4294967296
      → length vs ≤ 4294967295
      → value < 4294967296
      → let r = build P vs empty_set p in
        (front : List ℕ) × (back : List ℕ) × (front ++ back ≡ vs)
        × IsRoaring r.out
        × (elements r.out ≡ front)
        × (contains r.out value ≡ is_in value front)
        × Ends P r.result back
  unfolding elements
  build-contains vs p value up few small =
      let (front, back, split, held, valid, ended) =
        build-elements vs empty_set p 0 empty_set-IsRoaring (inl refl) up (omega arith) in
      let out = (build P vs empty_set p).out in
      (
        front,
        back,
        split,
        valid,
        held,
        contains-is_in out value valid small ∙ ap (is_in value) held,
        ended,
      )

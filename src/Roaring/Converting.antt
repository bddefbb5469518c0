-- ===== src/Roaring/Converting.antt =====
-- A sparse set turns into containers that hold the same values, or it is as it was.
use arnm.Base.{
  ℕ, zero, suc, ◌+◌, ◌-◌, ◌*◌, ◌%◌, ◌^◌, ◌≤◌, ◌<◌, ◌≡◌, refl, ap, sym, ◌∙◌, List, [], ◌∷◌, ◌++◌,
  some, false, inl, inr, arith, map, length, take, get_elem?, get_or, ltb, ◌==◌, Bool-cases,
  ltb-cases, lt→ltb, append_assoc, length-append, length-map, last_split, map-snoc,
}
use native.Mathlib.Decide.{ℕ_discrete}
use native.Mathlib.Nat.{zero-add}
use arnm.BucketVector.Walks.{take-all}
use arnm.FixedRing.Window.{get_elem?-some}
use arnm.Result.{is_success}
use arnm.Roaring.{array, Container, RoaringBitmap, value_of, log2_from, log2_for_bytes}
use arnm.Roaring.Pool.{BlockPool, IsLending, Refuses}
use arnm.Roaring.Containers.{push_or_free, emit_array}
use arnm.Roaring.Ascending.{
  IsAscending, IsAscending-snoc, IsAscending-widen, IsAscending-append, IsAscending-map_value_of,
  IsAscending-top, IsAscending-entry,
}
use arnm.Roaring.Keys.{keys_of}
use arnm.Roaring.Elements.{lows_of, directory_values, IsContainer, IsDirectory, EndsWith, Settles}
use arnm.Roaring.Directory.{keys_of-snoc, directory_values-snoc, Pushed, push_or_free-Pushed}

pub log2_from-enough :
    (rounds log2 bytes : ℕ) → bytes ≤ 2 ^ (rounds + log2) → bytes ≤ 2 ^ log2_from rounds log2 bytes
unfolding log2_from
log2_from-enough zero log2 bytes most = rw (zero-add log2) at most
log2_from-enough (suc rounds) log2 bytes most = elim (ltb-cases (2 ^ log2) bytes) [
  | inl short ↦
      let later : suc rounds + log2 ≡ rounds + (log2 + 1) = omega arith in
      rw (lt→ltb _ _ short) (log2_from-enough rounds (log2 + 1) bytes (rw later at most))
  | inr enough ↦ let stops : ltb (2 ^ log2) bytes ≡ false = ground arith in rw stops enough
]

pub log2_from-within :
    (rounds log2 bytes top : ℕ)
    → bytes ≤ 2 ^ top
    → log2 ≤ top
    → (log2 ≤ log2_from rounds log2 bytes) × (log2_from rounds log2 bytes ≤ top)
unfolding log2_from
log2_from-within zero log2 bytes top most small = (omega arith, small)
log2_from-within (suc rounds) log2 bytes top most small = elim (ltb-cases (2 ^ log2) bytes) [
  | inl short ↦
      let under : log2 < top = elim (ℕ_discrete log2 top) [
        | yes same ↦ absurd (let reached = rw same at short in omega arith)
        | no other ↦ omega arith
      ] in
      let (at_least, at_most) = log2_from-within rounds (log2 + 1) bytes top most (omega arith) in
      rw (lt→ltb _ _ short) (omega arith, at_most)
  | inr enough ↦
      let stops : ltb (2 ^ log2) bytes ≡ false = ground arith in rw stops (omega arith, small)
]

-- A directory that is being built: its values ascend to the maximum, and they are counted.
pub record IsBuilt (s : RoaringBitmap) : Type 0 where
  pub directory : IsDirectory s
  pub counted : s.cardinality ≡ length (directory_values s.containers)
  pub ascending : IsAscending 0 (directory_values s.containers) (suc s.maximum)
  pub top : EndsWith (directory_values s.containers) s.maximum
  pub bounded : s.maximum < 4294967296

-- The container that emit_array makes.
abbrev emitted : ℕ → ℕ → List ℕ → ℕ → Container
emitted block key lows count = record {
  block = block;
  contents = array (take count lows);
  cardinality = count;
  key = key;
  block_log2 = log2_for_bytes (count * 2 % 4294967296);
}

emitted-IsContainer :
    (block key : ℕ) (lows : List ℕ)
    → IsAscending 0 lows 65536
    → length lows ≤ 4096
    → 0 < length lows
    → IsContainer (emitted block key lows (length lows))
unfolding log2_for_bytes lows_of
emitted-IsContainer block key lows up few some_there =
    let all : take (length lows) lows ≡ lows = take-all (length lows) lows (omega arith) in
    let bytes : length lows * 2 % 4294967296 ≡ length lows * 2 = omega arith in
    let (least, top) = log2_from-within 13 4 (length lows * 2) 13 (omega arith) (omega arith) in
    record {
      some_values = some_there;
      counted = rw all refl;
      ascending = rw all up;
      fits = rw bytes (few, log2_from-enough 13 4 (length lows * 2) (omega arith), least, top);
    }

-- The set behind the values of one key.
pub record Emitted (s : RoaringBitmap) (key : ℕ) (lows : List ℕ) (after : RoaringBitmap)
    : Type 0 where
  pub built : IsBuilt after
  pub values :
      directory_values after.containers ≡ directory_values s.containers ++ map (value_of key) lows
  pub sorted : IsAscending 0 (keys_of after.containers) (suc key)
  pub below : IsAscending 0 (directory_values after.containers) (value_of (suc key) 0)

pub get_or-get_elem? : (xs : List ℕ) (i x d : ℕ) → get_elem? xs i ≡ some x → get_or xs i d ≡ x
get_or-get_elem? [] i x d there = absurd (ground arith)
get_or-get_elem? (y ∷ ys) zero x d there = ground arith
get_or-get_elem? (y ∷ ys) (suc i) x d there = get_or-get_elem? ys i x d there

emitted-Emitted :
    (s after : RoaringBitmap) (block key low : ℕ) (lows : List ℕ)
    → IsBuilt s
    → key < 65536
    → IsAscending 0 (directory_values s.containers) (value_of key 0)
    → IsAscending 0 (low ∷ lows) 65536
    → IsAscending 0 (keys_of s.containers) key
    → s.cardinality + length (low ∷ lows) < 4294967296
    → Pushed s (emitted block key (low ∷ lows) (length (low ∷ lows))) after
    → Emitted s key (low ∷ lows) (record after {
      cardinality = (after.cardinality + length (low ∷ lows)) % 4294967296;
      maximum = value_of key (get_or (low ∷ lows) (length (low ∷ lows) - 1) 0);
    })
unfolding lows_of
emitted-Emitted s after block key low lows built small under up above room pushed =
    let values = low ∷ lows in
    let all : take (length values) values ≡ values =
      take-all (length values) values (omega arith) in
    let held : directory_values after.containers
        ≡ directory_values s.containers ++ map (value_of key) values =
      ap directory_values pushed.containers
      ∙ directory_values-snoc s.containers (emitted block key values (length values))
      ∙ ap (λ vs. directory_values s.containers ++ map (value_of key) vs) all in
    let (last, there) = get_elem?-some values (length values - 1) (omega arith) in
    let top : get_or values (length values - 1) 0 ≡ last =
      get_or-get_elem? values (length values - 1) last 0 there in
    let (front, whole, written) = last_split values last there in
    let ends = IsAscending-top 0 values 65536 up last there in
    let low_small = IsAscending-entry 0 values 65536 (length values - 1) last up there in
    let counted : (after.cardinality + length values) % 4294967296 ≡ s.cardinality + length values =
      rw pushed.cardinality (omega arith) in
    let above_key = IsAscending-map_value_of key 0 values (suc last) ends in
    let next : value_of key (suc last) ≡ suc (value_of key last) = omega arith in
    record {
      built = record {
        directory = record {
          numbered = pushed.directory.numbered;
          blockless = pushed.directory.blockless;
          sorted = pushed.directory.sorted;
          all = pushed.directory.all;
          least = pushed.directory.least;
          log2_small = pushed.directory.log2_small;
          fits = pushed.directory.fits;
        };
        counted =
            counted
            ∙ ap (λ n. n + length values) built.counted
            ∙ sym (
                ap length held
                ∙ length-append (directory_values s.containers) (map (value_of key) values)
                ∙ ap (λ n. length (directory_values s.containers) + n)
                    (length-map values (value_of key)));
        ascending =
            rw (held, top)
              (rw next at (
                IsAscending-append 0 (directory_values s.containers) (value_of key 0)
                  (map (value_of key) values) (value_of key (suc last)) under above_key));
        top = inr (
          directory_values s.containers ++ map (value_of key) front,
          held
              ∙ ap (λ vs. directory_values s.containers ++ map (value_of key) vs) whole
              ∙ ap (λ vs. directory_values s.containers ++ vs) (map-snoc (value_of key) front last)
              ∙ sym (
                  append_assoc (directory_values s.containers) (map (value_of key) front)
                    (value_of key last ∷ []))
              ∙ ap
                  (λ v.
                    (directory_values s.containers ++ map (value_of key) front)
                    ++ value_of key v ∷ [])
                  (sym top),
        );
        bounded = rw top (omega arith);
      };
      values = held;
      below = rw held (
          IsAscending-append 0 (directory_values s.containers) (value_of key 0)
            (map (value_of key) values) (value_of (suc key) 0) under
            (IsAscending-widen (value_of key 0) (map (value_of key) values)
              (value_of key (suc last)) (value_of (suc key) 0) above_key (omega arith)));
      sorted =
          rw
            (
              pushed.containers,
              keys_of-snoc s.containers (emitted block key values (length values)),
            )
            (IsAscending-snoc 0 (keys_of s.containers) key key above (omega arith));
    }

module _ (P : BlockPool) (lending : IsLending P) where
  pub emit_array-Emitted :
      (s : RoaringBitmap) (key low : ℕ) (lows : List ℕ) (p : P.State)
      → IsBuilt s
      → IsAscending 0 (keys_of s.containers) key
      → key < 65536
      → IsAscending 0 (directory_values s.containers) (value_of key 0)
      → IsAscending 0 (low ∷ lows) 65536
      → length (low ∷ lows) ≤ 2048
      → s.cardinality ≤ 2048
      → Settles
          (emit_array P s key (low ∷ lows) (length (low ∷ lows)) p).result
          (Emitted s key (low ∷ lows) (emit_array P s key (low ∷ lows) (length (low ∷ lows)) p).out)
          ((emit_array P s key (low ∷ lows) (length (low ∷ lows)) p).out ≡ s × Refuses P)
  unfolding emit_array
  emit_array-Emitted s key low lows p built above small under up few room =
      let count = length (low ∷ lows) in
      let some_there : (count == 0) ≡ false = ground arith in
      let fits : ltb (4294967295 - count) s.cardinality ≡ false = ground arith in
      rw (some_there, fits)
        (elim (Bool-cases
          (is_success (P.alloc_log2 p (log2_for_bytes (count * 2 % 4294967296))).result)) [
            | inr refusal ↦
                rw refusal
                  (inr (refusal, (refl, (p, log2_for_bytes (count * 2 % 4294967296), refusal))))
            | inl granted ↦
                let block = (P.alloc_log2 p (log2_for_bytes (count * 2 % 4294967296))).block in
                let pool = (P.alloc_log2 p (log2_for_bytes (count * 2 % 4294967296))).pool in
                let c = emitted block key (low ∷ lows) count in
                let here =
                  emitted-IsContainer block key (low ∷ lows) up (omega arith) (omega arith) in
                rw granted
                  (elim (push_or_free-Pushed P lending s c pool built.directory here above small) [
                    | inl (done, pushed) ↦ rw done (
                        inl (
                          done,
                          emitted-Emitted s (push_or_free P s c pool).out block key low lows built
                              small under up above (omega arith) pushed,
                        ))
                    | inr (refusal, kept) ↦ rw refusal (inr (refusal, kept))
                  ])
          ])

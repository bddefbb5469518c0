-- ===== src/Roaring/Directory.antt =====
-- A container at the end of the directory: it is there, or the set is as it was.
use arnm.Base.{
  nil_of_length, ℕ, suc, ◌+◌, ◌*◌, ◌/◌, ◌%◌, ◌^◌, ◌≤◌, ◌<◌, ◌≡◌, ◌≢◌, refl, ap, sym, ◌∙◌, List, [],
  ◌∷◌, ◌++◌, false, inl, inr, arith, length, take, ◌==◌, if◌then◌else◌, Bool-cases, ==_iff,
  append_assoc, append-nil, length-append,
}
use native.Mathlib.Decide.{ℕ_discrete}
use native.Mathlib.Nat.{pow-suc, suc-mul, pow-le-pow_right}
use arnm.BucketVector.Walks.{take-all}
use arnm.Result.{is_success}
use arnm.Roaring.{Container, RoaringBitmap}
use arnm.Roaring.Pool.{BlockPool, IsLending, Refuses}
use arnm.Roaring.Containers.{grow_directory, push_container, push_or_free}
use arnm.Roaring.Ascending.{IsAscending, IsAscending-snoc, IsAscending-widen, length-IsAscending}
use arnm.Roaring.Keys.{keys_of, length-keys_of}
use arnm.Roaring.Elements.{
  container_values, directory_values, IsContainer, AllContainers, IsDirectory, Settles,
}

pub keys_of-snoc :
    (cs : List Container) (c : Container) → keys_of (cs ++ c ∷ []) ≡ keys_of cs ++ c.key ∷ []
unfolding keys_of
keys_of-snoc [] c = refl
keys_of-snoc (d ∷ cs) c = ap (λ ks. d.key ∷ ks) (keys_of-snoc cs c)

pub directory_values-snoc :
    (cs : List Container) (c : Container)
    → directory_values (cs ++ c ∷ []) ≡ directory_values cs ++ container_values c
unfolding directory_values
directory_values-snoc [] c = append-nil (container_values c)
directory_values-snoc (d ∷ cs) c =
    ap (λ vs. container_values d ++ vs) (directory_values-snoc cs c)
    ∙ sym (append_assoc (container_values d) (directory_values cs) (container_values c))

pub AllContainers-snoc :
    (cs : List Container) (c : Container)
    → AllContainers cs
    → IsContainer c
    → AllContainers (cs ++ c ∷ [])
AllContainers-snoc [] c all here = (here, tt)
AllContainers-snoc (d ∷ cs) c (first, all) here = (first, AllContainers-snoc cs c all here)

pub AllContainers-split :
    (cs : List Container) (c : Container)
    → AllContainers (cs ++ c ∷ [])
    → AllContainers cs × IsContainer c
AllContainers-split [] c (here, all) = (tt, here)
AllContainers-split (d ∷ cs) c (first, all) =
    let (front, here) = AllContainers-split cs c all in ((first, front), here)

-- A full directory block below 2 ^ 20 bytes.
directory_below :
    (s : RoaringBitmap)
    → s.count < 65536
    → s.count ≡ 2 ^ s.directory_log2 / 16
    → s.directory_log2 ≤ 20
    → s.directory_log2 < 20
directory_below s few at_limit small = elim (ℕ_discrete s.directory_log2 20) [
  | yes top ↦ let most : s.count ≡ 65536 = at_limit ∙ rw top refl in absurd (omega arith)
  | no other ↦ omega arith
]

-- A block of twice the size has room for one entry more.
pub block_doubled :
    (count log2 size : ℕ)
    → 4 ≤ log2
    → size ≤ 16
    → count * size ≤ 2 ^ log2
    → suc count * size ≤ 2 ^ suc log2
block_doubled count log2 size least small fits =
    let double : 2 ^ suc log2 ≡ 2 ^ log2 * 2 = pow-suc 2 log2 in
    let one_more : 16 ≤ 2 ^ log2 = pow-le-pow_right {n = 2} (omega arith) least in
    rw (double, suc-mul count size) (omega arith)

-- The set behind the growth of its directory: the same entries, and room for one more.
record HasEntry (s grown : RoaringBitmap) : Type 0 where
  containers : grown.containers ≡ s.containers
  count : grown.count ≡ s.count
  cardinality : grown.cardinality ≡ s.cardinality
  maximum : grown.maximum ≡ s.maximum
  has_block : grown.block ≢ 0
  least : 4 ≤ grown.directory_log2
  log2_small : grown.directory_log2 ≤ 20
  room : suc s.count * 16 ≤ 2 ^ grown.directory_log2

-- The set behind a push of a container.
pub record Pushed (s : RoaringBitmap) (c : Container) (after : RoaringBitmap) : Type 0 where
  pub directory : IsDirectory after
  pub containers : after.containers ≡ s.containers ++ c ∷ []
  pub count : after.count ≡ suc s.count
  pub cardinality : after.cardinality ≡ s.cardinality
  pub maximum : after.maximum ≡ s.maximum

no_growth :
    (s : RoaringBitmap)
    → IsDirectory s
    → s.count < 65536
    → (s.count == (if s.block == 0 then 0 else 2 ^ s.directory_log2 / 16)) ≡ false
    → HasEntry s s
no_growth s valid few free = elim (Bool-cases (s.block == 0)) [
  | inl null ↦ absurd (
      let none_yet = valid.blockless ((==_iff s.block 0).0 null) in
      let some_there = rw null at free in ground arith)
  | inr there ↦
      let more = rw there at free in
      record {
        containers = refl;
        count = refl;
        cardinality = refl;
        maximum = refl;
        has_block = λ e. ground arith;
        least = valid.least there;
        log2_small = valid.log2_small;
        room =
            (let differ : s.count ≢ 2 ^ s.directory_log2 / 16 = ground arith in
              omega (arith, valid.fits));
      }
]

pushed :
    (s grown : RoaringBitmap) (c : Container)
    → IsDirectory s
    → IsContainer c
    → IsAscending 0 (keys_of s.containers) c.key
    → c.key < 65536
    → HasEntry s grown
    → Pushed s c (record grown {
      containers = take grown.count grown.containers ++ c ∷ [];
      count = (grown.count + 1) % 4294967296;
    })
pushed s grown c valid here above small entry =
    let fewer = length-IsAscending 0 (keys_of s.containers) c.key above in
    let few : s.count < 65536 = omega (arith, fewer, length-keys_of s.containers, valid.numbered) in
    let one_more : (grown.count + 1) % 4294967296 ≡ suc s.count = rw entry.count (omega arith) in
    let kept : take grown.count grown.containers ≡ s.containers =
      rw (entry.containers, entry.count)
        (take-all s.count s.containers (omega (arith, valid.numbered))) in
    let listed : take grown.count grown.containers ++ c ∷ [] ≡ s.containers ++ c ∷ [] =
      ap (λ cs. cs ++ c ∷ []) kept in
    record {
      directory = record {
        numbered =
            one_more
            ∙ ap suc valid.numbered
            ∙ sym (ap length listed ∙ length-append s.containers (c ∷ []) ∙ omega arith);
        blockless = λ null. absurd (entry.has_block null);
        sorted =
            rw (listed, keys_of-snoc s.containers c)
              (IsAscending-widen 0 (keys_of s.containers ++ c.key ∷ []) (suc c.key) 65536
                (IsAscending-snoc 0 (keys_of s.containers) c.key c.key above (omega arith))
                (omega arith));
        all = rw listed (AllContainers-snoc s.containers c valid.all here);
        least = λ there. entry.least;
        log2_small = entry.log2_small;
        fits = rw one_more entry.room;
      };
      containers = listed;
      count = one_more;
      cardinality = entry.cardinality;
      maximum = entry.maximum;
    }

module _ (P : BlockPool) (lending : IsLending P) where
  grow_directory-HasEntry :
      (s : RoaringBitmap) (p : P.State)
      → IsDirectory s
      → s.count < 65536
      → ((s.block == 0) ≡ false → s.count ≡ 2 ^ s.directory_log2 / 16)
      → Settles
          (grow_directory P s p).result
          (HasEntry s (grow_directory P s p).out)
          ((grow_directory P s p).out ≡ s × Refuses P)
  unfolding grow_directory is_success
  grow_directory-HasEntry s p valid few full = elim (Bool-cases (s.block == 0)) [
    | inl null ↦ rw null (elim (Bool-cases (is_success (P.alloc_log2 p 4).result)) [
      | inl granted ↦
          let none_yet = valid.blockless ((==_iff s.block 0).0 null) in
          rw granted (
            inl (
              refl,
              record {
                containers = sym (nil_of_length s.containers (sym valid.numbered ∙ none_yet));
                count = refl;
                cardinality = refl;
                maximum = refl;
                has_block = lending.alloc-block p 4 granted;
                least = omega arith;
                log2_small = omega arith;
                room = rw none_yet (omega arith);
              },
            ))
      | inr refusal ↦ rw refusal (inr (refusal, (refl, (p, 4, refusal))))
    ])
    | inr there ↦
        let at_limit = full there in
        let below = directory_below s few at_limit valid.log2_small in
        let next : (s.directory_log2 + 1) % 256 ≡ suc s.directory_log2 = omega arith in
        rw (there, next)
          (elim (Bool-cases (is_success (P.alloc_log2 p (suc s.directory_log2)).result)) [
            | inl granted ↦ rw granted (
                inl (
                  refl,
                  record {
                    containers = take-all s.count s.containers (omega (arith, valid.numbered));
                    count = refl;
                    cardinality = refl;
                    maximum = refl;
                    has_block = lending.alloc-block p (suc s.directory_log2) granted;
                    least = omega (arith, valid.least there);
                    log2_small = omega arith;
                    room =
                        block_doubled s.count s.directory_log2 16 (valid.least there) (omega arith)
                          valid.fits;
                  },
                ))
            | inr refusal ↦ rw refusal (inr (refusal, (refl, (p, suc s.directory_log2, refusal))))
          ])
  ]

  push_container-Pushed :
      (s : RoaringBitmap) (c : Container) (p : P.State)
      → IsDirectory s
      → IsContainer c
      → IsAscending 0 (keys_of s.containers) c.key
      → c.key < 65536
      → Settles
          (push_container P s c p).result
          (Pushed s c (push_container P s c p).out)
          ((push_container P s c p).out ≡ s × Refuses P)
  unfolding push_container is_success
  push_container-Pushed s c p valid here above small =
      let few : s.count < 65536 =
        let fewer = length-IsAscending 0 (keys_of s.containers) c.key above in
        omega (arith, fewer, length-keys_of s.containers, valid.numbered) in
      elim (Bool-cases (s.count == (if s.block == 0 then 0 else 2 ^ s.directory_log2 / 16))) [
        | inl full ↦
            let at_limit : (s.block == 0) ≡ false → s.count ≡ 2 ^ s.directory_log2 / 16 =
              λ there. (==_iff _ _).0 (rw there at full) in
            rw full (elim (grow_directory-HasEntry s p valid few at_limit) [
              | inl (done, entry) ↦
                  rw done
                    (inl (done, pushed s (grow_directory P s p).out c valid here above small entry))
              | inr (refusal, kept) ↦ rw refusal (inr (refusal, kept))
            ])
        | inr free ↦
            let entry = no_growth s valid few free in
            rw free (inl (refl, pushed s s c valid here above small entry))
      ]

  -- The same behind push_or_free, which only gives a block back.
  pub push_or_free-Pushed :
      (s : RoaringBitmap) (c : Container) (p : P.State)
      → IsDirectory s
      → IsContainer c
      → IsAscending 0 (keys_of s.containers) c.key
      → c.key < 65536
      → Settles
          (push_or_free P s c p).result
          (Pushed s c (push_or_free P s c p).out)
          ((push_or_free P s c p).out ≡ s × Refuses P)
  unfolding push_or_free
  push_or_free-Pushed s c p valid here above small =
      elim (push_container-Pushed s c p valid here above small) [
        | inl (done, pushed_it) ↦ rw done (inl (done, pushed_it))
        | inr (refusal, kept) ↦ rw refusal (inr (refusal, kept))
      ]

-- ===== src/BucketVector/Writes.antt =====
-- A write to one place of a bucket, through its pointer: what every slot of the index then is.
use arnm.Base.{
  ℕ, ◌≤◌, ◌<◌, ◌≡◌, ◌≢◌, refl, ap, ◌∙◌, Option, none, some, List, arith, length, get_elem?, set,
  length-set, get_elem?-set_self, get_elem?-set_ne,
}
use native.Mathlib.Decide.{ℕ_discrete}
use arnm.BucketVector.{Bucket, Slot, cells_of}
use arnm.BucketVector.Contents.{cells_at, IsFilled}
use arnm.BucketVector.Growth.{write_cell}

-- the address of a slot's bucket
abbrev pub addr_of : {A : Type 0} → Option (Slot A) → ℕ
addr_of (some (some b)) = b.addr
addr_of _ = 0

module _ {A : Type 0} where
  bucket_there :
      (s : Option (Slot A)) → 0 < length (cells_of s) → (b : Bucket A) × (s ≡ some (some b))
  unfolding cells_of
  bucket_there none pos = absurd (omega arith)
  bucket_there (some none) pos = absurd (omega arith)
  bucket_there (some (some b)) pos = (b, refl)

  write_cell-some :
      (index : List (Slot A)) (k place : ℕ) (x : A) (b : Bucket A)
      → get_elem? index k ≡ some (some b)
      → write_cell index k place x ≡ set index k (some (record b { cells = set b.cells place x }))
  unfolding write_cell
  write_cell-some index k place x b e = rw (e, write_cell) refl

  -- A write into bucket `k` of a full index: what every slot then is.
  module _ (index : List (Slot A)) (slots count : ℕ) (full : IsFilled index slots count)
      (k place : ℕ) (x : A) (below : k < count) (inside : place < slots)
      (short : count ≤ length index) where
    abbrev written : List (Slot A)
    written = write_cell index k place x

    write_cell-at :
        (b : Bucket A) × (get_elem? index k ≡ some (some b))
        × (written ≡ set index k (some (record b { cells = set b.cells place x })))
    write_cell-at =
        let (b, e) = bucket_there (get_elem? index k) (rw (full k below) (omega arith)) in
        (b, e, write_cell-some index k place x b e)

    pub write_cell-ne : (j : ℕ) → k ≢ j → get_elem? written j ≡ get_elem? index j
    write_cell-ne j other =
        let (b, e, w) = write_cell-at in
        rw w (get_elem?-set_ne index (some (record b { cells = set b.cells place x })) other)

    pub write_cell_self : cells_at written k ≡ set (cells_at index k) place x
    unfolding cells_of
    write_cell_self =
        let (b, e, w) = write_cell-at in
        let there =
          get_elem?-set_self index k (some (record b { cells = set b.cells place x }))
            (omega arith) in
        rw (w, e, there) refl

    pub write_cell-IsFilled : IsFilled written slots count
    write_cell-IsFilled j lt = elim (ℕ_discrete k j) [
      | yes same ↦
          rw (← same)
            (ap length write_cell_self ∙ length-set (cells_at index k) place x ∙ full k below)
      | no other ↦ ap (λ s. length (cells_of s)) (write_cell-ne j other) ∙ full j lt
    ]

    pub write_cell-addr : (j : ℕ) → addr_of (get_elem? written j) ≡ addr_of (get_elem? index j)
    write_cell-addr j = elim (ℕ_discrete k j) [
      | yes same ↦
          let (b, e, w) = write_cell-at in
          let there =
            get_elem?-set_self index k (some (record b { cells = set b.cells place x }))
              (omega arith) in
          rw (← same, w, e, there) refl
      | no other ↦ ap addr_of (write_cell-ne j other)
    ]

    pub length-write_cell : length written ≡ length index
    length-write_cell =
        let (b, e, w) = write_cell-at in
        rw w (length-set index k (some (record b { cells = set b.cells place x })))

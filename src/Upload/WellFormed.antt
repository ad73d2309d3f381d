-- ===== src/Upload/WellFormed.antt =====
-- The invariant of a status record, and how a patch keeps it.
use negare_api.Base.{
  inl, inr, ℕ, ◌+◌, ◌*◌, ◌≤◌, ◌<◌, ◌≡◌, refl, true, false, List, ◌++◌, Option, none, some, includes,
  arith, Bool-cases, or_else,
}
use negare_api.Upload.Indexes.{
  Rises, includes_above, includes-ensure_sorted_unique, ensure_sorted_unique-Rises,
}
use negare_api.Upload.Indexes.Complete.{
  Rises-ext, includes-append, sort_added-Rises, includes-sort_added,
}
use negare_api.Upload.Types.{UploadStatus, Patch, merge_indexes, merge_bytes, merge_status, patched}
use negare_api.Upload.Session.{synced, sync_mime}
use negare_api.Upload.Chunk.{ceil_div, indexes_with}
use negare_api.Upload.Names.{is_empty}
use negare_api.Base.Text.{Text}

pub record WellFormed (s : UploadStatus) : Type 0 where
  pub positive : 0 < s.chunk_size
  pub total : s.total_chunks ≡ ceil_div s.size s.chunk_size
  pub rises : Rises 0 s.total_chunks s.received_indexes
  pub bytes : s.received_bytes ≤ s.size

-- A patch that a sorted snapshot may send: a list that holds the old one, and more bytes.
abbrev pub FitsIndexes : UploadStatus → Option (List ℕ) → Type 0
FitsIndexes s none = Unit {0}
FitsIndexes s (some xs) =
    Rises 0 s.total_chunks xs
    × ((n : ℕ) → includes s.received_indexes n ≡ true → includes xs n ≡ true)

abbrev pub FitsBytes : UploadStatus → Option ℕ → Type 0
FitsBytes s none = Unit {0}
FitsBytes s (some n) = (s.received_bytes ≤ n) × (n ≤ s.size)

abbrev pub FitsMime : Option Text → Type 0
FitsMime none = Unit {0}
FitsMime (some m) = is_empty m ≡ false

pub record Fits (s : UploadStatus) (p : Patch) : Type 0 where
  pub indexes : FitsIndexes s p.received_indexes
  pub bytes : FitsBytes s p.received_bytes
  pub mime : FitsMime p.mime
  pub same_user : p.user_id ≡ none
  pub same_expiry : p.expires_at ≡ none

merge_indexes-fits :
    (s : UploadStatus) (o : Option (List ℕ))
    → Rises 0 s.total_chunks s.received_indexes
    → FitsIndexes s o
    → merge_indexes s.received_indexes o ≡ or_else o s.received_indexes
merge_indexes-fits s none r f =
    Rises-ext 0 s.total_chunks _ s.received_indexes
      (ensure_sorted_unique-Rises s.total_chunks s.received_indexes
        (λ n. includes_above 0 s.total_chunks n s.received_indexes r))
      r (λ n. includes-ensure_sorted_unique n s.received_indexes)
merge_indexes-fits s (some xs) r f =
    Rises-ext 0 s.total_chunks _ xs
      (ensure_sorted_unique-Rises s.total_chunks (s.received_indexes ++ xs) λ n h. ground (
        arith,
        includes-append n s.received_indexes xs,
        includes_above 0 s.total_chunks n s.received_indexes r,
        includes_above 0 s.total_chunks n xs f.0,
      ))
      f.0
      λ n. ground (
        arith,
        includes-ensure_sorted_unique n (s.received_indexes ++ xs),
        includes-append n s.received_indexes xs,
        f.1 n,
      )

merge_bytes-fits :
    (s : UploadStatus) (o : Option ℕ)
    → FitsBytes s o
    → merge_bytes s.received_bytes o ≡ or_else o s.received_bytes
merge_bytes-fits s none f = refl
merge_bytes-fits s (some n) f = omega arith

sync_mime-fits : (o : Option Text) (m : Text) → FitsMime o → sync_mime o m ≡ or_else o m
sync_mime-fits none m f = refl
sync_mime-fits (some t) m f = rw f

-- After such a patch the snapshot is what the store holds.
pub synced-eq-patched :
    (s : UploadStatus) (p : Patch) → WellFormed s → Fits s p → synced s p ≡ patched s p
unfolding synced patched merge_status
synced-eq-patched s p w f = cc (
  merge_indexes-fits s p.received_indexes w.rises f.indexes,
  merge_bytes-fits s p.received_bytes f.bytes,
  sync_mime-fits p.mime s.mime f.mime,
  f.same_user,
  f.same_expiry,
)

or_else-Rises :
    (s : UploadStatus) (o : Option (List ℕ))
    → Rises 0 s.total_chunks s.received_indexes
    → FitsIndexes s o
    → Rises 0 s.total_chunks (or_else o s.received_indexes)
or_else-Rises s none r f = r
or_else-Rises s (some xs) r f = f.0

or_else-bytes :
    (s : UploadStatus) (o : Option ℕ)
    → s.received_bytes ≤ s.size
    → FitsBytes s o
    → or_else o s.received_bytes ≤ s.size
or_else-bytes s none h f = h
or_else-bytes s (some n) h f = f.1

pub synced-WellFormed :
    (s : UploadStatus) (p : Patch) → WellFormed s → Fits s p → WellFormed (synced s p)
unfolding synced
synced-WellFormed s p w f = record {
  positive = w.positive;
  total = w.total;
  rises = or_else-Rises s p.received_indexes w.rises f.indexes;
  bytes = or_else-bytes s p.received_bytes w.bytes f.bytes;
}

-- The chunk geometry: with `total` chunks, all but the last are full and the last is not empty.
pub ceil_div_bounds :
    (size c : ℕ) → 0 < c → (size ≤ ceil_div size c * c) × (ceil_div size c * c < size + c)
ceil_div_bounds size c h = ground arith

pub indexes_with-fits :
    (s : UploadStatus) (i : ℕ)
    → WellFormed s
    → i < s.total_chunks
    → FitsIndexes s (some (indexes_with i s.received_indexes))
unfolding indexes_with
indexes_with-fits s i w h = elim (Bool-cases (includes s.received_indexes i)) [
  | inl old ↦ rw old (w.rises, λ n m. m)
  | inr new ↦ rw new (
    sort_added-Rises s.total_chunks i s.received_indexes w.rises new h,
    λ n m. ground (arith, includes-sort_added n i s.received_indexes),
  )
]

-- ===== src/Upload/Completeness.antt =====
-- The check in front of `finish` that every chunk is there.
use negare_api.Base.{
  ℕ, suc, ◌+◌, ◌<◌, ◌≡◌, ◌↔◌, refl, sym, ap, inl, inr, true, false, List, [], ◌∷◌, none, arith,
  Bool-cases, length, includes, ◌==◌, ==_iff,
}
use negare_api.Base.Exec.{ok}
use negare_api.Upload.Indexes.{Rises}
use negare_api.Upload.Indexes.Complete.{
  length_bound, includes_full, full_of_includes, includes-sort_added,
}
use negare_api.Upload.Types.{UploadStatus}
use negare_api.Upload.Session.{first_missing, assert_all_chunks_received}
use negare_api.Upload.Chunk.{indexes_with}
use negare_api.Upload.WellFormed.{WellFormed}

first_missing_full :
    (lo hi : ℕ) (xs : List ℕ)
    → Rises lo hi xs
    → lo + length xs ≡ hi
    → first_missing (length xs) lo xs ≡ none
unfolding first_missing
first_missing_full lo hi [] r e = refl
first_missing_full lo hi (x ∷ xs) r e =
    let short = length_bound (suc x) hi xs r.1 r.2 in
    let first : x ≡ lo = omega arith in
    rw ((==_iff x lo).1 first)
      (first_missing_full (suc lo) hi xs (rw (ap suc (sym first)) r.2) (omega arith))

pub includes-indexes_with :
    (n i : ℕ) (xs : List ℕ) → includes xs n ≡ true → includes (indexes_with i xs) n ≡ true
unfolding indexes_with
includes-indexes_with n i xs h = ground (arith, includes-sort_added n i xs)

pub includes-indexes_with_self : (i : ℕ) (xs : List ℕ) → includes (indexes_with i xs) i ≡ true
unfolding indexes_with
includes-indexes_with_self i xs = ground (arith, includes-sort_added i i xs)

pub includes-indexes_with_inv :
    (n i : ℕ) (xs : List ℕ) → includes (indexes_with i xs) n ≡ true → includes xs n ≡ false → i ≡ n
unfolding indexes_with
includes-indexes_with_inv n i xs h e = ground (arith, includes-sort_added n i xs)

-- On a well formed record the check passes exactly when every index below the number of chunks was received.
pub assert_all_chunks_received_iff :
    (s : UploadStatus)
    → WellFormed s
    → (assert_all_chunks_received s ≡ ok tt)
      ↔ ((i : ℕ) → i < s.total_chunks → includes s.received_indexes i ≡ true)
unfolding assert_all_chunks_received
assert_all_chunks_received_iff s w = (to, from)
  where
    to :
        assert_all_chunks_received s ≡ ok tt
        → (i : ℕ) → i < s.total_chunks
        → includes s.received_indexes i ≡ true
    to e i h = elim (Bool-cases (length s.received_indexes == s.total_chunks)) [
      | inl full ↦
          let same : length s.received_indexes ≡ s.total_chunks = (==_iff _ _).0 full in
          includes_full 0 s.total_chunks i s.received_indexes w.rises (omega arith) (omega arith) h
      | inr short ↦ absurd (cc (rw short at e))
    ]

    from :
        ((i : ℕ) → i < s.total_chunks → includes s.received_indexes i ≡ true)
        → assert_all_chunks_received s ≡ ok tt
    from all =
        let full =
          full_of_includes 0 s.total_chunks s.received_indexes (omega arith) w.rises
            (λ n _ h. all n h) in
        let same : length s.received_indexes ≡ s.total_chunks = omega arith in
        rw ((==_iff _ _).1 same)
          (rw (← same) (rw (first_missing_full 0 s.total_chunks s.received_indexes w.rises full)))

pub indexes_with_old : (i : ℕ) (xs : List ℕ) → includes xs i ≡ true → indexes_with i xs ≡ xs
unfolding indexes_with
indexes_with_old i xs h = rw h

-- ===== src/Upload/Fallback.antt =====
-- upload.service.ts: `patch`, with its way for a store that has no `patchCAS`. This is called under
-- the lock of the session.
use negare_api.Base.{
  ℕ, ◌+◌, ◌<◌, ◌≡◌, refl, sym, ap, subst, ◌∙◌, Bool, true, false, List, ◌++◌, Option, none, some,
  String, same, if◌then◌else◌, or_else, Bool-cases, inl, inr,
}
use negare_api.Base.Exec.{ok, throws}
use negare_api.Upload.Types.{
  UploadStatus, Patch, UploadConfig, merge_bytes, merge_indexes, some_or, patched, merge_status,
}
use negare_api.Upload.Types.{session_not_found, state_changed, key_exists}
use negare_api.Upload.Indexes.{ensure_sorted_unique}
use negare_api.Upload.Services.{Services}
use negare_api.Upload.Session.{World, Method}
use negare_api.Upload.RedisStore.Laws.{ensure_sorted_unique_idem}

-- The indexes that are stored are sorted only when the patch brings new ones.
abbrev pub append_indexes : List ℕ → Option (List ℕ) → List ℕ
append_indexes cur none = cur
append_indexes cur (some xs) = ensure_sorted_unique (cur ++ xs)

unfoldable pub merged_without_cas : UploadStatus → (expected_version : ℕ) → Patch → UploadStatus
merged_without_cas cur expected_version patch = record cur {
  user_id = or_else patch.user_id cur.user_id;
  mime = or_else patch.mime cur.mime;
  state = or_else patch.state cur.state;
  remote_relative_path = some_or patch.remote_relative_path cur.remote_relative_path;
  version = expected_version + 1;
  received_indexes = append_indexes cur.received_indexes patch.received_indexes;
  received_bytes = merge_bytes cur.received_bytes patch.received_bytes;
  expires_at = or_else patch.expires_at cur.expires_at;
}

module _ (v : Services) (cfg : UploadConfig) (now : ℕ) where
  -- The record is deleted and created again, with a whole lifetime; its version is not looked at.
  unfoldable pub patch_without_cas : String → (expected_version : ℕ) → Patch → Method v ℕ
  patch_without_cas id expected_version p w = elim (v.store.get now id w.store) [
    | none ↦ (throws session_not_found, w)
    | some cur ↦
        let st = v.store.delete id w.store in
        elim (v.store.create now (merged_without_cas cur expected_version p) cfg.ttl_seconds st) [
          | none ↦ (throws key_exists, record w { store = st })
          | some st' ↦ (ok (expected_version + 1), record w { store = st' })
        ]
  ]

  unfoldable pub patch : (has_cas : Bool) → String → (expected_version : ℕ) → Patch → Method v ℕ
  patch true id expected_version p w =
      let (done, st) = v.store.patch_cas now id expected_version p w.store in
      (if done then ok (expected_version + 1) else throws state_changed, record w { store = st })
  patch false id expected_version p w = patch_without_cas id expected_version p w

merge_indexes-append_indexes :
    (xs : List ℕ) (o : Option (List ℕ))
    → ensure_sorted_unique xs ≡ xs
    → append_indexes xs o ≡ merge_indexes xs o
merge_indexes-append_indexes xs none in_order = sym in_order
merge_indexes-append_indexes xs (some ys) in_order = refl

merge_indexes_idem :
    (xs : List ℕ) (o : Option (List ℕ))
    → ensure_sorted_unique (merge_indexes xs o) ≡ merge_indexes xs o
merge_indexes_idem xs none = ensure_sorted_unique_idem xs
merge_indexes_idem xs (some ys) = ensure_sorted_unique_idem (xs ++ ys)

merged_without_cas-eq :
    (s : UploadStatus) (p : Patch)
    → ensure_sorted_unique s.received_indexes ≡ s.received_indexes
    → merged_without_cas s s.version p ≡ patched s p
unfolding merged_without_cas patched merge_status
merged_without_cas-eq s p in_order =
    cc (merge_indexes-append_indexes s.received_indexes p.received_indexes in_order)

patched-indexes :
    (s : UploadStatus) (p : Patch)
    → ensure_sorted_unique (patched s p).received_indexes ≡ (patched s p).received_indexes
unfolding patched merge_status
patched-indexes s p = merge_indexes_idem s.received_indexes p.received_indexes

module _ (v : Services) (cfg : UploadConfig) (now : ℕ) (id : String) (s : UploadStatus) (p : Patch)
    (w : World v) where
  -- With and without `patchCAS`, a patch of the version that is stored, under the id of the session,
  -- returns the next version, and the same records can be read afterwards.
  pub patch-eq :
      (j : String)
      → 0 < cfg.ttl_seconds
      → v.store.get now id w.store ≡ some s
      → s.upload_id ≡ id
      → ensure_sorted_unique s.received_indexes ≡ s.received_indexes
      → p.user_id ≡ none
      → ((patch v cfg now true id s.version p w).0 ≡ ok (s.version + 1))
        × ((patch v cfg now false id s.version p w).0 ≡ ok (s.version + 1))
        × (v.store.get now j (patch v cfg now false id s.version p w).1.store
            ≡ v.store.get now j (patch v cfg now true id s.version p w).1.store)
  unfolding patch patch_without_cas
  patch-eq j lasting found own in_order no_user =
      let t = merged_without_cas s s.version p in
      let t-eq = merged_without_cas-eq s p in_order in
      let own' : t.upload_id ≡ id = unfold merged_without_cas in own in
      let user : t.user_id ≡ s.user_id = unfold merged_without_cas in rw no_user refl in
      let (st, made) =
        v.store.create-delete now id s t cfg.ttl_seconds w.store found own own' user in
      let cas = v.store.get-patch_cas now id j p w.store s found no_user in
      let plain =
        v.store.get-create now j t cfg.ttl_seconds (v.store.delete id w.store) st lasting
          (subst
            (λ (x : UploadStatus). ensure_sorted_unique x.received_indexes ≡ x.received_indexes)
            (sym t-eq) (patched-indexes s p))
          made in
      let gone = v.store.get-delete now id j w.store in
      let test : same t.upload_id j ≡ same id j = ap (λ (x : String). same x j) own' in
      let as_patched : v.store.get now j st
          ≡ (if same id j then some (patched s p) else v.store.get now j w.store) =
        elim (Bool-cases (same id j)) [
          | inl here ↦ rw here ((rw (test ∙ here) at plain) ∙ ap some t-eq)
          | inr there ↦ rw there ((rw (test ∙ there) at plain) ∙ (rw there at gone))
        ] in
      (
        rw (v.store.patch_cas_current now id p w.store s found) refl,
        rw (patch, patch_without_cas, found, made) refl,
        rw (patch, patch_without_cas, found, made) (as_patched ∙ sym cas),
      )

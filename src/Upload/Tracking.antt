-- ===== src/Upload/Tracking.antt =====
-- The snapshot that `writeChunk` carries stays what the store holds, and every stored record stays
-- well formed, whatever the outcome of a step.
use negare_api.Base.{
  ℕ, ◌≡◌, refl, sym, ◌∙◌, subst, ◌⊎◌, inl, inr, false, some, String, if◌then◌else◌, Bool-cases,
  same, same_refl, some,
}
use negare_api.Base.Exec.{ok}
use negare_api.Base.Triple.{Triple}
use negare_api.Upload.Types.{UploadStatus, Patch}
use negare_api.Upload.Services.{Services}
use negare_api.Upload.Session.{World, delete_session, patch_and_sync, synced}
use negare_api.Upload.WellFormed.{WellFormed, Fits, synced-eq-patched, synced-WellFormed}

module _ (v : Services) (now : ℕ) where
  -- Every record that can be read is well formed.
  pub record Safe (w : World v) : Type 0 where
    pub all : (id : String) (s : UploadStatus) → v.store.get now id w.store ≡ some s → WellFormed s

  -- The session cannot be patched any more.
  pub record Gone (id : String) (w : World v) : Type 0 where
    pub refused : (version : ℕ) (p : Patch) → (v.store.patch_cas now id version p w.store).0 ≡ false

  abbrev pub Holds : String → UploadStatus → World v → Type 0
  Holds id s w = v.store.get now id w.store ≡ some s

  pub record Tracked (id : String) (s : UploadStatus) (w : World v) : Type 0 where
    pub safe : Safe w
    pub formed : WellFormed s
    pub held : Holds id s w ⊎ Gone id w

  patch_holds :
      (s : UploadStatus) (id j : String) (p : Patch) (w : World v)
      → WellFormed s
      → Fits s p
      → Holds id s w
      → v.store.get now j (v.store.patch_cas now id s.version p w.store).1
        ≡ (if same id j then some (synced s p) else v.store.get now j w.store)
  patch_holds s id j p w f fits h =
      rw (synced-eq-patched s p f fits)
        (v.store.get-patch_cas now id j p w.store s h fits.same_user)

  patch-Safe :
      (s : UploadStatus) (id : String) (p : Patch) (w : World v)
      → Safe w
      → WellFormed s
      → Fits s p
      → Holds id s w
      → Safe (record w { store = (v.store.patch_cas now id s.version p w.store).1 })
  patch-Safe s id p w safe f fits h = record {
    all = λ j t e. elim (Bool-cases (same id j)) [
      | inl eq ↦
          let held : some (synced s p) ≡ some t =
            sym (rw eq at (patch_holds s id j p w f fits h)) ∙ e in
          subst WellFormed (cc) (synced-WellFormed s p f fits)
      | inr ne ↦ safe.all j t (sym (rw ne at (patch_holds s id j p w f fits h)) ∙ e)
    ];
  }

  -- With the session in place a fitting patch goes through, and the snapshot follows.
  pub patch_and_sync_held :
      (s : UploadStatus) (id : String) (p : Patch) (w : World v)
      → Safe w
      → WellFormed s
      → Fits s p
      → Holds id s w
      → ((patch_and_sync v now s id p w).0 ≡ ok (synced s p))
        × Safe (patch_and_sync v now s id p w).1
        × Holds id (synced s p) (patch_and_sync v now s id p w).1
  unfolding patch_and_sync
  patch_and_sync_held s id p w safe f fits h = (
    rw (v.store.patch_cas_current now id p w.store s h),
    patch-Safe s id p w safe f fits h,
    rw (same_refl id) at (patch_holds s id id p w f fits h),
  )

  -- In any case the outcome is a tracked snapshot, or the store as it was.
  pub patch_and_sync-Triple :
      (s : UploadStatus) (id : String) (p : Patch)
      → Fits s p
      → Triple
          (Tracked id s)
          (patch_and_sync v now s id p)
          (λ t w. (t ≡ synced s p) × WellFormed t × Safe w × Holds id t w)
          Safe
  unfolding patch_and_sync
  patch_and_sync-Triple s id p fits = record {
    run = λ w t. elim t.held [
      | inl h ↦
          let (e, safe, held) = patch_and_sync_held s id p w t.safe t.formed fits h in
          rw (v.store.patch_cas_current now id p w.store s h)
            (refl, synced-WellFormed s p t.formed fits, safe, held)
      | inr g ↦
          let no_patch = g.refused s.version p in
          rw no_patch (rw (v.store.patch_cas_refused now id s.version p w.store no_patch) t.safe)
    ];
  }

  pub delete-Safe : (id : String) (w : World v) → Safe w → Safe (delete_session v id w)
  unfolding delete_session
  delete-Safe id w safe = record {
    all = λ j t e. elim (Bool-cases (same id j)) [
      | inl eq ↦ absurd (cc (rw eq at (v.store.get-delete now id j w.store), e))
      | inr ne ↦ safe.all j t (sym (rw ne at (v.store.get-delete now id j w.store)) ∙ e)
    ];
  }

  pub delete-Gone : (id : String) (w : World v) → Gone id (delete_session v id w)
  unfolding delete_session
  delete-Gone id w = record {
    refused = λ version p. v.store.patch_cas-delete now id version p w.store;
  }

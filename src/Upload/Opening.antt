-- ===== src/Upload/Opening.antt =====
-- `init` and `abort` keep all stored records well formed, on every path.
use negare_api.Base.{
  ℕ, ◌<◌, ◌≡◌, refl, sym, ◌∙◌, subst, inl, inr, [], String, arith, Bool-cases, Option-cases, same,
}
use negare_api.Base.Text.{Text}
use negare_api.Base.Triple.{Triple, Triple-bind, Triple-pure, Triple-lift, Triple-state}
use negare_api.Upload.Types.{UploadStatus, UploadConfig, InitInput}
use negare_api.Upload.Services.{Services}
use negare_api.Upload.Session.{World}
use negare_api.Upload.Chunk.{start, new_status, create_temp, create_session, abort}
use negare_api.Upload.Indexes.{ensure_sorted_unique_nil}
use negare_api.Upload.WellFormed.{WellFormed}
use negare_api.Upload.Tracking.{Safe}
use negare_api.Upload.ChunkSteps.{Safe-store, clean_up-Safe}

module _ (v : Services) (cfg : UploadConfig) (now : ℕ) where
  create_temp-Triple :
      (path : Text) (size : ℕ)
      → Triple (Safe v now) (create_temp v cfg now path size) (λ _. Safe v now) (Safe v now)
  unfolding create_temp
  create_temp-Triple path size = record {
    run = λ w safe. elim (Option-cases (v.temp.create_sparse path size w.fs)) [
      | inl failed ↦ rw (failed, create_temp) safe
      | inr (f, made) ↦
          rw (made, create_temp) (Safe-store v cfg now w (record w { fs = f }) refl safe)
    ];
  }

  create_session-Triple :
      (s : UploadStatus)
      → 0 < cfg.ttl_seconds
      → s.received_indexes ≡ []
      → WellFormed s
      → Triple (Safe v now) (create_session v cfg now s) (λ _. Safe v now) (Safe v now)
  unfolding create_session
  create_session-Triple s pos fresh formed = record {
    run = λ w safe. elim (Option-cases (v.store.create now s cfg.ttl_seconds w.store)) [
      | inl failed ↦ rw (failed, create_session) safe
      | inr (st, made) ↦
          rw (made, create_session)
            (record {
              all = λ j t h.
                  let e =
                    v.store.get-create now j s cfg.ttl_seconds w.store st pos
                      (ensure_sorted_unique_nil s.received_indexes fresh) made in
                  elim (Bool-cases (same s.upload_id j)) [
                    | inl eq ↦ subst WellFormed (cc (sym (rw eq at e) ∙ h)) formed
                    | inr ne ↦ safe.all j t (sym (rw ne at e) ∙ h)
                  ];
            })
    ];
  }

  new_status-WellFormed :
      (id user_id : String) (input : InitInput)
      → 0 < cfg.chunk_size
      → WellFormed (new_status cfg now id user_id input)
  unfolding new_status
  new_status-WellFormed id user_id input pos = record {
    positive = pos;
    total = refl;
    rises = tt;
    bytes = omega arith;
  }

  -- `init` keeps the records well formed, with a positive chunk size and lifetime configured.
  pub start-Safe :
      (user_id id : String) (input : InitInput) (w : World v)
      → 0 < cfg.chunk_size
      → 0 < cfg.ttl_seconds
      → Safe v now w
      → Safe v now (start v cfg now user_id id input w).1
  unfolding start new_status
  start-Safe user_id id input w chunk ttl =
      Triple-state _
        (Triple-bind (λ _. Safe v now) _ _ (Triple-lift _)
          λ _.
            Triple-bind (λ _. Safe v now) _ _ (create_temp-Triple _ _)
              λ _.
                Triple-bind (λ _. Safe v now) _ _
                  (create_session-Triple _ ttl refl (new_status-WellFormed id user_id input chunk))
                  λ _. Triple-pure _ (λ w h. h))
        w

  -- `abort` and a read of the status keep the records well formed.
  pub abort-Safe : (id : String) (w : World v) → Safe v now w → Safe v now (abort v cfg now id w).1
  unfolding abort
  abort-Safe id w safe = elim (Bool-cases (same id "")) [
    | inl empty ↦ rw empty safe
    | inr given ↦ elim (Option-cases (v.store.get now id w.store)) [
      | inl missing ↦ rw (given, missing, abort) safe
      | inr (s, found) ↦ rw (given, found, abort) (clean_up-Safe v cfg now id s.temp_path w safe)
    ]
  ]

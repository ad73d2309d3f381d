-- ===== src/Upload/ChunkSteps.antt =====
-- The steps of `writeChunk` keep the invariant and the snapshot.
use negare_api.Base.{
  ℕ, ◌<◌, ◌≡◌, refl, inl, inr, false, ◌&&◌, not, List, some, String, arith, Bool-cases,
  Option-cases, ltb, length, ◌==◌,
}
use negare_api.Base.Text.{Text, lower, text_eq}
use negare_api.Base.Exec.{pure, catch}
use negare_api.Base.Triple.{Triple, Ends, Triple-pure, Triple-if, Triple-weaken}
use negare_api.Upload.Types.{UploadStatus, UploadState, no_change, UploadConfig}
use negare_api.Upload.Services.{Services}
use negare_api.Upload.Session.{
  World, remove_temp, delete_session, must_get_active, assert_not_expired, synced, expected_length,
}
use negare_api.Upload.Chunk.{begin_receiving, is_new, sniff_first, sniff_found}
use negare_api.Upload.Names.{is_empty, is_allowed_mime}
use negare_api.Upload.WellFormed.{WellFormed, Fits, synced-WellFormed}
use negare_api.Upload.Tracking.{
  Safe, Holds, Tracked, patch_and_sync_held, patch_and_sync-Triple, delete-Safe, delete-Gone,
}

-- Patches that fit any well-formed snapshot.
pub state_patch-Fits :
    (s : UploadStatus) (st : UploadState) → Fits s (record no_change { state = some st })
state_patch-Fits s st = record {
  indexes = tt;
  bytes = tt;
  mime = tt;
  same_user = refl;
  same_expiry = refl;
}

pub mime_patch-Fits :
    (s : UploadStatus) (m : Text) → is_empty m ≡ false → Fits s (record no_change { mime = some m })
mime_patch-Fits s m h = record {
  indexes = tt;
  bytes = tt;
  mime = h;
  same_user = refl;
  same_expiry = refl;
}

-- A chunk that passed the checks of `writeChunk` against this snapshot.
pub record Accepted (s : UploadStatus) (index : ℕ) (chunk : List ℕ) : Type 0 where
  pub in_range : index < s.total_chunks
  pub exact : length chunk ≡ expected_length s index

module _ (v : Services) (cfg : UploadConfig) (now : ℕ) where
  -- The snapshot is in the store.
  pub record Current (id : String) (s : UploadStatus) (w : World v) : Type 0 where
    pub safe : Safe v now w
    pub formed : WellFormed s
    pub holds : Holds v now id s w

  pub remove_temp-store : (path : Text) (w : World v) → (remove_temp v path w).store ≡ w.store
  unfolding remove_temp
  remove_temp-store path w = ground arith

  pub Safe-store : (w w' : World v) → w'.store ≡ w.store → Safe v now w → Safe v now w'
  Safe-store w w' e safe = record { all = λ id s h. safe.all id s (rw e at h) }

  -- Deleting the session and its file.
  pub clean_up-Safe :
      (id : String) (path : Text) (w : World v)
      → Safe v now w
      → Safe v now (delete_session v id (remove_temp v path w))
  clean_up-Safe id path w safe =
      delete-Safe v now id (remove_temp v path w)
        (Safe-store w (remove_temp v path w) (remove_temp-store path w) safe)

  pub must_get_active-Triple :
      (id : String) → Triple (Safe v now) (must_get_active v now id) (Current id) (Safe v now)
  unfolding must_get_active assert_not_expired
  must_get_active-Triple id = record {
    run = λ w safe. elim (Option-cases (v.store.get now id w.store)) [
      | inl missing ↦ rw (missing, must_get_active) safe
      | inr (s, found) ↦ elim (Bool-cases (ltb s.expires_at now)) [
        | inl late ↦
            rw (found, must_get_active) (rw late (clean_up-Safe s.upload_id s.temp_path w safe))
        | inr early ↦
            rw (found, must_get_active)
              (rw early (record { safe = safe; formed = safe.all id s found; holds = found }))
      ]
    ];
  }

  pub begin_receiving-Triple :
      (id : String) (s : UploadStatus)
      → Triple (Current id s) (begin_receiving v cfg now id s) (Current id) (Safe v now)
  unfolding begin_receiving
  begin_receiving-Triple id s =
      Triple-if (is_new s.state) _ _
        (λ _.
          Triple-weaken _ (λ w c. record { safe = c.safe; formed = c.formed; held = inl c.holds })
            (λ t w q. record { safe = q.2; formed = q.1; holds = q.3 })
            (patch_and_sync-Triple v now s id _ (state_patch-Fits s UploadState.receiving)))
        (λ _. Triple-pure s (λ w c. c))

  -- A patch of the MIME type leaves the checks of the chunk as they are.
  mime-Accepted :
      (s : UploadStatus) (m : Text) (index : ℕ) (chunk : List ℕ)
      → Accepted s index chunk
      → Accepted (synced s (record no_change { mime = some m })) index chunk
  unfolding synced expected_length
  mime-Accepted s m index chunk a = record { in_range = a.in_range; exact = a.exact }

  abbrev pub Sniffed : String → ℕ → List ℕ → UploadStatus → World v → Type 0
  Sniffed id index chunk t w = Tracked v now id t w × Accepted t index chunk

  sniff_found_caught :
      (id : String) (s : UploadStatus) (detected : Text) (index : ℕ) (chunk : List ℕ) (w : World v)
      → Accepted s index chunk
      → Current id s w
      → Ends
          (Sniffed id index chunk)
          (Safe v now)
          (catch (sniff_found v cfg now id s detected) (λ _. pure s) w).0
          (catch (sniff_found v cfg now id s detected) (λ _. pure s) w).1
  unfolding sniff_found
  sniff_found_caught id s detected index chunk w a c =
      elim (Bool-cases (not (is_empty detected) && not (is_allowed_mime cfg detected))) [
        | inl bad ↦ rw bad (
          record {
            safe = clean_up-Safe id s.temp_path w c.safe;
            formed = c.formed;
            held = inr (delete-Gone v now id (remove_temp v s.temp_path w));
          },
          a,
        )
        | inr fine ↦ elim (Bool-cases (not (is_empty detected) && not (text_eq detected s.mime))) [
          | inl other ↦
              let (e, safe, holds) =
                patch_and_sync_held v now s id (record no_change { mime = some detected }) w c.safe
                  c.formed (mime_patch-Fits s detected (ground arith)) c.holds in
              rw (fine, other)
                (rw e (
                  record {
                    safe = safe;
                    formed =
                        synced-WellFormed s _ c.formed (mime_patch-Fits s detected (ground arith));
                    held = inl holds;
                  },
                  mime-Accepted s detected index chunk a,
                ))
          | inr kept ↦
              rw (fine, kept) (record { safe = c.safe; formed = c.formed; held = inl c.holds }, a)
        ]
      ]

  pub sniff_first-Triple :
      (id : String) (index : ℕ) (chunk : List ℕ) (s : UploadStatus)
      → Accepted s index chunk
      → Triple
          (Current id s)
          (sniff_first v cfg now id index chunk s)
          (Sniffed id index chunk)
          (Safe v now)
  unfolding sniff_first
  sniff_first-Triple id index chunk s a =
      Triple-if (index == 0) _ _
        (λ _. elim (Option-cases (v.sniff_buffer chunk)) [
          | inl unknown ↦ rw unknown (record {
            run = λ w c. (record { safe = c.safe; formed = c.formed; held = inl c.holds }, a);
          })
          | inr (mime, found) ↦
              rw found
                (record { run = λ w c. sniff_found_caught id s (lower mime) index chunk w a c })
        ])
        (λ _. record {
          run = λ w c. (record { safe = c.safe; formed = c.formed; held = inl c.holds }, a);
        })

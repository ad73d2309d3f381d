-- ===== src/Upload/Finish/Delivered.antt =====
-- What a `finish` that returns has done.
use negare_api.Base.{
  ◌≡◌, refl, ◌∙◌, true, not, none, some, String, ltb, same, same_refl, or_else, Bool-cases,
  Option-cases, inl, inr,
}
use negare_api.Base.Exec.{Result-cases, ok, catch}
use negare_api.Base.Triple.{
  Triple, Ends, Triple-bind, Triple-pure, Triple-throw, Triple-if, Triple-weaken, Triple-guard,
}
use negare_api.Base.Text.{Text, lower, text_eq}
use negare_api.Upload.Types.{
  UploadStatus, UploadState, Patch, no_change, UploadConfig, FinishResult,
}
use negare_api.Upload.Services.{Services}
use negare_api.Upload.Names.{build_public_url}
use negare_api.Upload.Session.{
  World, Event, Method, must_get_active, assert_not_expired, patch_and_sync, synced,
  with_store_lock, delete_session, assert_all_chunks_received,
}
use negare_api.Upload.Remote.{upload_attempts}
use negare_api.Upload.Finish.{
  FinishInput, check_finish, sniff_whole, with_mime, deliver, run_finish, finish, send,
  prepare_send, send_file, send_failed, persist, delete_remote_file, media_input, emit,
  assert_temp_ready, ensure_remote_dir,
}
use negare_api.Base.Caught.{Any, fact_kept, Triple-Any, Triple-catch}

module _ (v : Services) (cfg : UploadConfig) (i : FinishInput) (id : String) where
  -- A snapshot has the size of the complete session that was read.
  abbrev Of : World v → UploadStatus → Type 0
  Of w t =
      (s : UploadStatus) × (v.store.get i.now id w.store ≡ some s)
      × (assert_all_chunks_received s ≡ ok tt)
      × (t.size ≡ s.size)

  patch-Of :
      (w : World v) (s : UploadStatus) (p : Patch)
      → Of w s
      → Triple Any (patch_and_sync v i.now s id p) (λ t _. Of w t) Any
  unfolding patch_and_sync synced
  patch-Of w s p o = record {
    run = λ u _. elim (Bool-cases (v.store.patch_cas i.now id s.version p u.store).0) [
      | inl done ↦ rw done o
      | inr refused ↦ rw refused tt
    ];
  }

  given_Of :
      {A : Type 0} {Q : A → World v → Type 0} (w : World v) (t : UploadStatus) (m : Method v A)
      → (Of w t → Triple Any m Q Any)
      → Triple (λ _. Of w t) m Q Any
  given_Of w t m h = record { run = λ s o. (h o).run s tt }

  given_fact :
      {A F : Type 0} {Q : A → World v → Type 0} (m : Method v A)
      → (F → Triple Any m Q Any)
      → Triple (λ _. F) m Q Any
  given_fact m h = record { run = λ s f. (h f).run s tt }

  send_failed-throws :
      (s : UploadStatus) (u : World v)
      → Ends (λ _ _. ⊥) Any (send_failed v cfg i.now id s u).0 (send_failed v cfg i.now id s u).1
  unfolding send_failed
  send_failed-throws s u =
      elim (Result-cases
        (patch_and_sync v i.now s id (record no_change { state = some UploadState.error }) u).0) [
          | inl (t, marked) ↦ rw (send_failed, marked) tt
          | inr (e, refused) ↦ rw (send_failed, refused) tt
        ]

  prepare-Of :
      (w : World v) (s : UploadStatus) (dir : Text)
      → Of w s
      → Triple Any (prepare_send v cfg i.now id s dir) (λ t _. Of w t) Any
  unfolding prepare_send
  prepare-Of w s dir o =
      Triple-bind (λ _. Any) (assert_temp_ready v cfg s) _ (Triple-Any _)
        λ _.
          Triple-bind (λ _. Any) (ensure_remote_dir v cfg dir) _ (Triple-Any _)
            λ _. patch-Of w s _ o

  send_file-Of :
      (w : World v) (s : UploadStatus) (path : Text)
      → Of w s
      → Triple Any (send_file v cfg id s path) (λ t _. Of w t) Any
  unfolding send_file
  send_file-Of w s path o =
      Triple-bind (λ _. Any) (upload_attempts v cfg id s path) _ (Triple-Any _)
        λ _.
          Triple-bind (λ _. Any) (emit v cfg (Event.progress id s.size s.size 100)) _ (Triple-Any _)
            λ _. Triple-pure s (λ _ _. o)

  send-Of :
      (w : World v) (s : UploadStatus) (dir path : Text)
      → Of w s
      → Triple Any (send v cfg i.now id s dir path) (λ t _. Of w t) Any
  unfolding send
  send-Of w s dir path o =
      Triple-bind (λ t _. Of w t)
        (catch (prepare_send v cfg i.now id s dir) (λ _. send_failed v cfg i.now id s)) _
        (Triple-catch _ _ (λ e u. send_failed-throws s u) (prepare-Of w s dir o))
        λ t. given_Of w t _ λ ot.
          Triple-bind (λ t _. Of w t)
            (catch (send_file v cfg id t path) (λ _. send_failed v cfg i.now id t)) _
            (Triple-catch _ _ (λ e u. send_failed-throws t u) (send_file-Of w t path ot))
            λ u. record { run = λ x ou. ou }

  Emptied : World v → Type 0
  Emptied u = v.store.get i.now id u.store ≡ none

  delete-Emptied : (u : World v) → Emptied (delete_session v id u)
  unfolding Emptied delete_session
  delete-Emptied u = v.store.get-delete i.now id id u.store ∙ rw (same_refl id)

  persist-Emptied :
      (s : UploadStatus) (path : Text)
      → Triple Any (persist v cfg i.now id s path) (λ _ u. Emptied u) Any
  unfolding persist
  persist-Emptied s path = record {
    run = λ u _. elim (Option-cases (v.create_file (media_input v cfg s path) u.media)) [
      | inl failed ↦
          elim (Result-cases
            (patch_and_sync v i.now s id (record no_change { state = some UploadState.error })
              (delete_remote_file v cfg path u)).0) [
                | inl (t, marked) ↦ rw (persist, failed, marked) tt
                | inr (e, refused) ↦ rw (persist, failed, refused) tt
              ]
      | inr ((saved, m), made) ↦ rw (persist, made) (delete-Emptied (record u { media = m }))
    ];
  }

  abbrev Finished : World v → FinishResult → World v → Type 0
  Finished w r u =
      Emptied u
      × (r.url ≡ build_public_url cfg r.path)
      × ((s : UploadStatus) × (v.store.get i.now id w.store ≡ some s)
          × (assert_all_chunks_received s ≡ ok tt)
          × (r.size ≡ s.size))

  deliver-Finished :
      (w : World v) (s : UploadStatus) (path : Text)
      → Of w s
      → Triple Any (deliver v cfg i id s path) (Finished w) Any
  unfolding deliver Emptied
  deliver-Finished w s path o =
      Triple-bind (λ t _. Of w t) _ _ (patch-Of w s _ o)
        λ ready. given_Of w ready _ λ o1.
          Triple-bind (λ t _. Of w t) _ _ (send-Of w ready _ path o1)
            λ sent. given_Of w sent _ λ o2.
              Triple-bind (λ t _. Of w t) _ _ (patch-Of w sent _ o2)
                λ done. given_Of w done _ λ o3.
                  Triple-bind (λ _ u. Emptied u) _ _ (persist-Emptied done path)
                    λ saved. record { run = λ u gone. (gone, refl, o3) }

  check_complete :
      (s : UploadStatus)
      → Triple Any (check_finish v cfg s) (λ _ _. assert_all_chunks_received s ≡ ok tt) Any
  unfolding check_finish
  check_complete s = record {
    run = λ u _. elim (Result-cases (assert_all_chunks_received s)) [
      | inl (unit, e) ↦ fact_kept _ _ e
      | inr (f, e) ↦ rw (check_finish, e) tt
    ];
  }

  read-Triple :
      (w : World v)
      → Triple
          (λ u. u ≡ w)
          (must_get_active v i.now id)
          (λ s _. v.store.get i.now id w.store ≡ some s)
          Any
  unfolding must_get_active assert_not_expired
  read-Triple w = record {
    run = λ u e. elim (Option-cases (v.store.get i.now id w.store)) [
      | inl missing ↦ rw (must_get_active, e, missing) tt
      | inr (s, found) ↦ elim (Bool-cases (ltb s.expires_at i.now)) [
        | inl late ↦ rw (must_get_active, e, found) (rw late tt)
        | inr early ↦ rw (must_get_active, e, found) (rw early refl)
      ]
    ];
  }

  with_mime-Of :
      (w : World v) (s : UploadStatus) (mime : Text)
      → Of w s
      → Triple Any (with_mime v cfg i.now id s mime) (λ t _. Of w t) Any
  unfolding with_mime
  with_mime-Of w s mime o =
      Triple-if (text_eq mime s.mime) _ _ (λ _. Triple-pure s (λ _ _. o)) (λ _. patch-Of w s _ o)

  run_finish-Finished : (w : World v) → Triple (λ u. u ≡ w) (run_finish v cfg i id) (Finished w) Any
  unfolding run_finish
  run_finish-Finished w =
      Triple-bind (λ s _. v.store.get i.now id w.store ≡ some s) _ _ (read-Triple w)
        λ s. given_fact _ λ found.
          Triple-bind (λ _ _. assert_all_chunks_received s ≡ ok tt) (check_finish v cfg s) _
            (check_complete s)
            λ _. given_fact _ λ complete.
              Triple-bind (λ _. Any) (sniff_whole v cfg id s) _ (Triple-Any _)
                λ detected.
                  Triple-bind (λ t _. Of w t)
                    (with_mime v cfg i.now id s (lower (or_else detected s.mime))) _
                    (with_mime-Of w s _ (s, found, complete, refl))
                    λ named. given_Of w named _ λ o. deliver-Finished w named _ o

  finish-Finished : (w : World v) → Triple (λ u. u ≡ w) (finish v cfg i id) (Finished w) Any
  unfolding finish with_store_lock
  finish-Finished w =
      Triple-bind (λ _ u. (u ≡ w) × (not (same id "") ≡ true)) _ _ (Triple-guard _ _ (λ _ _. tt))
        λ _.
          Triple-if i.lock_won _ _
            (λ _. Triple-weaken _ (λ u e. e.0) (λ _ _ q. q) (run_finish-Finished w))
            (λ _. Triple-throw _ (λ _ _. tt))

  -- A `finish` that returns has found a session with all its chunks, gives out the size of that
  -- session and the public URL of the path, and leaves no session behind.
  pub finish_delivers :
      (w w' : World v) (r : FinishResult)
      → finish v cfg i id w ≡ (ok r, w')
      → (v.store.get i.now id w'.store ≡ none)
        × (r.url ≡ build_public_url cfg r.path)
        × ((s : UploadStatus) × (v.store.get i.now id w.store ≡ some s)
            × (assert_all_chunks_received s ≡ ok tt)
            × (r.size ≡ s.size))
  unfolding Emptied
  finish_delivers w w' r h = rw h at ((finish-Finished w).run w refl)

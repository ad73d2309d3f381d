-- ===== src/Upload/Finish.antt =====
-- upload.service.ts: `finish`, with `uploadWithRetry` and the progress callback. What the outside
-- decides is an argument: the random name of the file, the date, and how each attempt ends.
pub mod Delivered
pub mod Returned
pub mod Willing
pub mod Steps
use mathlib.Core.List.{filter_map}
use negare_api.Base.{
  ℕ, zero, suc, ◌+◌, ◌-◌, ◌*◌, ◌^◌, ◌≡◌, Bool, true, false, ◌&&◌, ◌||◌, not, List, [], ◌∷◌, ◌++◌,
  Option, none, some, String, if◌then◌else◌, ltb, leb, ◌==◌, length, or_else, min, max, same,
  is_some,
}
use negare_api.Base.Exec.{
  Exec, Result, ok, throws, pure, throw, guard, lift, catch, modify, gets, ◌>>=◌, ◌>>◌,
}
use negare_api.Base.Text.{Text, codes, text_eq, lower}
use negare_api.Upload.Types.{
  UploadStatus, UploadState, Patch, no_change, Failure, UploadConfig, FinishResult,
}
use negare_api.Upload.Types.{
  upload_id_required, temp_not_found, already_finished, bad_finish_state, detected_mime_not_allowed,
  temp_not_ready, ensure_dir_failed, upload_failed, remote_failed, persist_failed,
}
use negare_api.Upload.Services.{Services, StateStore, TempFs, Outcome, Report, MediaInput}
use negare_api.Upload.Names.{is_empty, is_allowed_mime, final_name, relative_dir, build_public_url}
use negare_api.Upload.Remote.{upload_attempts}
use negare_api.Upload.Session.{
  World, Method, Event, remove_temp, delete_session, with_store_lock, must_get_active,
  patch_and_sync, assert_all_chunks_received,
}

-- What the handler reads from outside besides the services.
pub record FinishInput : Type 0 where
  pub now : ℕ
  pub lock_won : Bool
  pub subdir : Text
  pub date_dir : Text
  pub file_id : Text

abbrev pub is_finishable : UploadState → Bool
is_finishable UploadState.receiving = true
is_finishable UploadState.ready_to_upload = true
is_finishable _ = false

abbrev pub is_uploaded : UploadState → Bool
is_uploaded UploadState.uploaded = true
is_uploaded _ = false

module _ (v : Services) (cfg : UploadConfig) where
  unfoldable pub assert_temp_ready : UploadStatus → Method v (Unit {0})
  assert_temp_ready s w = elim (v.temp.size s.temp_path w.fs) [
    | none ↦ (throws temp_not_ready, w)
    | some n ↦ (if s.size == 0 || n == s.size then ok tt else throws temp_not_ready, w)
  ]

  unfoldable pub ensure_remote_dir : Text → Method v (Unit {0})
  ensure_remote_dir dir w = if is_empty dir then (ok tt, w) else elim (v.ensure_dir dir w.remote) [
    | none ↦ (throws ensure_dir_failed, w)
    | some r ↦ (ok tt, record w { remote = r })
  ]

  -- The `try` around the sniffing of the whole file: a type that is not allowed ends the session,
  -- but the exception does not leave the block.
  unfoldable pub sniff_whole : String → UploadStatus → Method v (Option Text)
  sniff_whole id s w = elim (v.sniff_file s.temp_path w.fs) [
    | none ↦ (ok none, w)
    | some mime ↦
        let sniffed = lower mime in
        if not (is_empty sniffed) && not (is_allowed_mime cfg sniffed)
        then catch
            (modify (λ u. delete_session v id (remove_temp v s.temp_path u))
              >> throw detected_mime_not_allowed)
            (λ _. pure none) w
        else (ok (some sniffed), w)
  ]

  abbrev unless_kept : UploadStatus → World v → World v
  unless_kept s w = if cfg.keep_temp_on_error then w else remove_temp v s.temp_path w

  -- The `catch` and `finally` around the remote upload: the session is marked, by the snapshot as it
  -- is then, and the temporary file goes unless it is to be kept.
  unfoldable pub send_failed : (now : ℕ) → String → UploadStatus → Method v UploadStatus
  send_failed now id s w =
      let (r, w') =
        patch_and_sync v now s id (record no_change { state = some UploadState.error }) w in
      elim r [
        | throws e ↦ (throws e, unless_kept s w')
        | ok t ↦ (throws remote_failed, unless_kept t (unless_kept t w'))
      ]

  abbrev pub emit : Event → Method v (Unit {0})
  emit e w = (ok tt, record w { events = w.events ++ e ∷ [] })

  unfoldable pub prepare_send :
      (now : ℕ) → String → UploadStatus → (dir : Text) → Method v UploadStatus
  prepare_send now id s dir = do
    _ ← assert_temp_ready s
    _ ← ensure_remote_dir dir
    patch_and_sync v now s id (record no_change { state = some UploadState.uploading })

  unfoldable pub send_file : String → UploadStatus → (path : Text) → Method v UploadStatus
  send_file id s path = do
    _ ← upload_attempts v cfg id s path
    _ ← emit (Event.progress id s.size s.size 100)
    pure s

  -- The remote upload with its error path; the temporary file is gone when it succeeds.
  unfoldable pub send :
      (now : ℕ) → String → UploadStatus → (dir path : Text) → Method v UploadStatus
  send now id s dir path = do
    t ← catch (prepare_send now id s dir) (λ _. send_failed now id s)
    u ← catch (send_file id t path) (λ _. send_failed now id t)
    _ ← modify (remove_temp v u.temp_path)
    pure u

  unfoldable pub media_input : UploadStatus → (path : Text) → MediaInput
  media_input s path = record {
    user_id = s.user_id;
    filename = s.filename;
    mime = s.mime;
    size = s.size;
    path = path;
    url = build_public_url cfg path;
  }

  -- A failure to delete the remote file is ignored.
  unfoldable pub delete_remote_file : (path : Text) → World v → World v
  delete_remote_file path w = elim (v.delete_remote path w.remote) [
    | none ↦ w
    | some r ↦ record w { remote = r }
  ]

  abbrev mark_error : (now : ℕ) → String → UploadStatus → Method v String
  mark_error now id s = do
    _ ← patch_and_sync v now s id (record no_change { state = some UploadState.error })
    throw persist_failed

  -- The database record; without it the remote file is deleted again. The session ends either way.
  unfoldable pub persist : (now : ℕ) → String → UploadStatus → (path : Text) → Method v String
  persist now id s path w = elim (v.create_file (media_input s path) w.media) [
    | some (saved, m) ↦ (ok saved, delete_session v id (record w { media = m }))
    | none ↦
        let (r, w') = mark_error now id s (delete_remote_file path w) in (r, delete_session v id w')
  ]

  unfoldable pub with_mime : (now : ℕ) → String → UploadStatus → Text → Method v UploadStatus
  with_mime now id s mime =
      if text_eq mime s.mime
      then pure s
      else patch_and_sync v now s id (record no_change { mime = some mime })

  -- The checks in front of the work, in their order.
  unfoldable pub check_finish : UploadStatus → Method v (Unit {0})
  check_finish s = do
    _ ← lift (assert_all_chunks_received s)
    _ ← guard (not (is_empty s.temp_path)) temp_not_found
    _ ← guard (not (is_uploaded s.state)) already_finished
    guard (is_finishable s.state) bad_finish_state

  unfoldable pub remote_path : FinishInput → UploadStatus → (mime : Text) → Text
  remote_path i s mime =
      relative_dir cfg i.subdir i.date_dir
      ++ (b'/' ∷ i.file_id ++ (b'-' ∷ final_name v.nfc cfg s.filename mime))

  -- From the patch that announces the path on.
  unfoldable pub deliver :
      FinishInput → String → UploadStatus → (path : Text) → Method v FinishResult
  deliver i id s path = do
    ready ← patch_and_sync v i.now s id (record no_change {
      state = some UploadState.ready_to_upload;
      remote_relative_path = some path;
    })
    sent ← send i.now id ready (relative_dir cfg i.subdir i.date_dir) path
    done ← patch_and_sync v i.now sent id (record no_change { state = some UploadState.uploaded })
    saved ← persist i.now id done path
    _ ← emit (Event.stored id (build_public_url cfg path) path)
    pure (record {
      url = build_public_url cfg path;
      path = path;
      id = saved;
      mime = done.mime;
      size = done.size;
    })

  -- The work of `finish` under the lock.
  unfoldable pub run_finish : FinishInput → String → Method v FinishResult
  run_finish i id = do
    s ← must_get_active v i.now id
    _ ← check_finish s
    detected ← sniff_whole id s
    let mime = lower (or_else detected s.mime)
    named ← with_mime i.now id s mime
    deliver i id named (remote_path i named mime)

  unfoldable pub finish : FinishInput → String → Method v FinishResult
  finish i id = do
    _ ← guard (not (same id "")) upload_id_required
    with_store_lock v i.lock_won (run_finish i id)

-- ===== src/Upload/Tests/Finishing.antt =====
-- A complete session is finished.
use negare_api.Base.{◌==◌, arith, ◌≡◌, refl, true, [], ◌∷◌, none, some, same, if◌then◌else◌}
use negare_api.Base.Exec.{ok}
use negare_api.Base.Returns.{Returns}
use negare_api.Upload.Services.{Services, Outcome}
use negare_api.Base.Text.{codes, text_eq, split, join, trim, trim_start, lower, lower_unit}
use negare_api.Upload.Types.{UploadStatus, UploadState, FinishResult, merge_status, patched}
use negare_api.Upload.Indexes.{ensure_sorted_unique, sort, unique, insert_sorted}
use negare_api.Upload.Names.{
  build_public_url, strip_slashes, relative_dir, final_name, lookup_text, normalize_subdir,
  normalize_optional_segment, sanitize_path_segments, safe_name, base_name, cleaned,
  is_allowed_mime,
}
use negare_api.Upload.Remote.{
  upload_attempts, upload_with_retry, attempt, progress_events, on_progress, throttled, percent_of,
  is_transient,
}
use negare_api.Upload.Session.{
  World, assert_all_chunks_received, first_missing, synced, remove_temp, delete_session,
  with_store_lock, assert_not_expired, must_get_active, patch_and_sync,
}
use negare_api.Upload.RedisStore.{get, create, patch_cas, touch, delete}
use negare_api.Upload.Finish.{
  FinishInput, assert_temp_ready, ensure_remote_dir, sniff_whole, send_failed, prepare_send,
  send_file, send, media_input, delete_remote_file, persist, with_mime, check_finish, remote_path,
  deliver, run_finish, finish,
}
use negare_api.Upload.Finish.Delivered.{finish_delivers}
use negare_api.Upload.Finish.Willing.{Takes, Willing}
use negare_api.Upload.Finish.Returned.{finish_returns}
use negare_api.Upload.Tests.{services, config, two_chunks, files}

everything : Unit {0}
unfolding text_eq split join trim trim_start lower lower_unit merge_status patched
    ensure_sorted_unique sort unique insert_sorted build_public_url strip_slashes relative_dir
    final_name lookup_text normalize_subdir normalize_optional_segment sanitize_path_segments
    safe_name base_name cleaned is_allowed_mime upload_attempts upload_with_retry attempt
    progress_events on_progress throttled percent_of is_transient assert_all_chunks_received
    first_missing synced remove_temp delete_session with_store_lock assert_not_expired
    must_get_active patch_and_sync get create patch_cas touch delete assert_temp_ready
    ensure_remote_dir sniff_whole send_failed prepare_send send_file send media_input
    delete_remote_file persist with_mime check_finish remote_path deliver run_finish finish
everything = tt

abbrev complete : UploadStatus
complete = record two_chunks {
  received_indexes = 0 ∷ 1 ∷ [];
  received_bytes = 6;
  state = UploadState.receiving;
}

abbrev ready : World services
ready = record {
  store = λ id. if same "u1" id then some (complete, 60000) else none;
  fs = files;
  remote = [];
  media = [];
  events = [];
  slept_ms = 0;
}

abbrev asked : FinishInput
asked = record {
  now = 5;
  lock_won = true;
  subdir = codes "a";
  date_dir = codes "2026/01";
  file_id = codes "f";
}

abbrev result : FinishResult
result = record {
  url = codes "https://cdn/a/2026/01/f-a.txt";
  path = codes "a/2026/01/f-a.txt";
  id = "7";
  mime = codes "text/plain";
  size = 6;
}

finish_runs : (finish services config asked "u1" ready).0 ≡ ok result
unfolding everything
finish_runs = refl

finish_delivers_example :
    (services.store.get 5 "u1" (finish services config asked "u1" ready).1.store ≡ none)
    × (result.url ≡ build_public_url config result.path)
    × ((s : UploadStatus) × (services.store.get 5 "u1" ready.store ≡ some s)
        × (assert_all_chunks_received s ≡ ok tt)
        × (6 ≡ s.size))
finish_delivers_example =
    finish_delivers services config asked "u1" ready (finish services config asked "u1" ready).1
      result (rw finish_runs)

-- The first attempt breaks off.
abbrev flaky : Services
flaky = record services {
  upload_file = λ attempt local path f r.
      if attempt == 1
      then (Outcome.broke (codes "read ECONNRESET"), [], r)
      else (Outcome.sent, [], path ∷ r);
}

abbrev ready_flaky : World flaky
ready_flaky = record {
  store = ready.store;
  fs = files;
  remote = [];
  media = [];
  events = [];
  slept_ms = 0;
}

flaky-Willing : Willing flaky config complete files
unfolding everything
flaky-Willing = record {
  whole = refl;
  makes_dirs = λ dir r. (r, refl);
  takes = λ path r. Takes.again refl refl (Takes.taken refl);
  records = λ x m. ("7", x ∷ m, refl);
  type_allowed = λ mime h. absurd (cc);
}

finish_returns_example : Returns (finish flaky config asked "u1") ready_flaky (λ r u.
    (flaky.store.get 5 "u1" u.store ≡ none)
    × (r.url ≡ build_public_url config r.path)
    × (r.size ≡ 6))
unfolding everything
finish_returns_example =
    finish_returns flaky config asked "u1" complete ready_flaky refl refl refl (omega arith) refl
      refl refl flaky-Willing

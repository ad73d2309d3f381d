-- ===== src/Upload/Chunk.antt =====
-- upload.service.ts: `init`, `writeChunk`, `getStatus` and `abort`. Random identifiers are arguments.
-- An index that is negative or no integer is `none`.
use negare_api.Base.{
  ℕ, ◌+◌, ◌-◌, ◌*◌, ◌/◌, Bool, true, false, ◌&&◌, not, List, [], ◌∷◌, ◌++◌, Option, none, some,
  String, if◌then◌else◌, ltb, ◌==◌, length, or_else, includes, max, same,
}
use negare_api.Base.Exec.{Result, ok, throws, pure, throw, guard, lift, catch, modify, ◌>>=◌, ◌>>◌}
use negare_api.Base.Text.{Text, codes, text_eq, lower, trim}
use negare_api.Upload.Indexes.{sort}
use negare_api.Upload.Types.{
  UploadStatus, UploadState, no_change, Failure, UploadConfig, InitInput, InitOutput, ChunkResult,
}
use negare_api.Upload.Types.{
  user_id_required, filename_required, bad_size, too_large, ext_not_allowed, mime_not_allowed,
  temp_create_failed, key_exists, upload_id_required, bad_index, empty_chunk, not_writable,
  index_out_of_range, detected_mime_not_allowed, write_failed, session_not_found,
}
use negare_api.Upload.Services.{Services}
use negare_api.Upload.Names.{is_empty, is_allowed_mime, is_allowed_ext, lookup_text}
use negare_api.Upload.Session.{
  Method, remove_temp, delete_session, with_store_lock, must_get_active, patch_and_sync,
  assert_chunk_length, touch_session,
}

abbrev pub octet_stream : Text
octet_stream = codes "application/octet-stream"

abbrev mime_aliases : List (Text × Text)
mime_aliases =
    (codes "application/x-zip-compressed", codes "application/zip")
    ∷ (codes "application/x-zip", codes "application/zip")
    ∷ (codes "multipart/x-zip", codes "application/zip")
    ∷ (codes "application/x-rar-compressed", codes "application/vnd.rar")
    ∷ []

unfoldable pub normalize_mime : Option Text → Text
normalize_mime mime =
    let raw = lower (trim (or_else mime octet_stream)) in or_else (lookup_text raw mime_aliases) raw

-- `Math.ceil(size / chunkSize)`
abbrev pub ceil_div : ℕ → ℕ → ℕ
ceil_div size chunk_size = (size + (chunk_size - 1)) / chunk_size

unfoldable pub new_status :
    UploadConfig → (now : ℕ) → (id user_id : String) → InitInput → UploadStatus
new_status cfg now id user_id input = record {
  upload_id = id;
  user_id = user_id;
  filename = input.filename;
  mime = normalize_mime input.mime;
  size = input.size;
  chunk_size = cfg.chunk_size;
  total_chunks = ceil_div input.size cfg.chunk_size;
  received_bytes = 0;
  received_indexes = [];
  state = UploadState.init;
  created_at = now;
  expires_at = now + cfg.ttl_seconds * 1000;
  version = 1;
  error_code = none;
  temp_path = cfg.tmp_dir ++ (b'/' ∷ codes id ++ codes ".part");
  remote_relative_path = none;
  sha256 = none;
}

-- The checks of `init`, in their order.
unfoldable pub check_init :
    UploadConfig → (user_id : String) → InitInput → Result Failure (Unit {0})
check_init cfg user_id input =
    let mime = normalize_mime input.mime in
    if same user_id ""
    then throws user_id_required
    else if is_empty input.filename
    then throws filename_required
    else if input.size == 0
    then throws bad_size
    else if not (cfg.max_size_bytes == 0) && ltb cfg.max_size_bytes input.size
    then throws too_large
    else if not (is_allowed_ext cfg input.filename)
    then throws ext_not_allowed
    else if not (text_eq mime octet_stream) && not (is_allowed_mime cfg mime)
    then throws mime_not_allowed
    else ok tt

-- The states in which a chunk is taken.
unfoldable pub is_writable : UploadState → Bool
is_writable UploadState.init = true
is_writable UploadState.receiving = true
is_writable _ = false

abbrev pub is_new : UploadState → Bool
is_new UploadState.init = true
is_new _ = false

-- The indexes and the bytes after a chunk.
unfoldable pub indexes_with : ℕ → List ℕ → List ℕ
indexes_with index xs = if includes xs index then xs else sort (xs ++ index ∷ [])

unfoldable pub bytes_with : ℕ → List ℕ → UploadStatus → ℕ
bytes_with index chunk s = max s.received_bytes (index * s.chunk_size + length chunk)

module _ (v : Services) (cfg : UploadConfig) (now : ℕ) where
  unfoldable pub create_temp : Text → ℕ → Method v (Unit {0})
  create_temp path size w = elim (v.temp.create_sparse path size w.fs) [
    | none ↦ (throws temp_create_failed, w)
    | some f ↦ (ok tt, record w { fs = f })
  ]

  unfoldable pub create_session : UploadStatus → Method v (Unit {0})
  create_session s w = elim (v.store.create now s cfg.ttl_seconds w.store) [
    | none ↦ (throws key_exists, w)
    | some st ↦ (ok tt, record w { store = st })
  ]

  unfoldable pub start : (user_id id : String) → InitInput → Method v InitOutput
  start user_id id input = do
    _ ← lift (check_init cfg user_id input)
    let s = new_status cfg now id user_id input
    _ ← create_temp s.temp_path s.size
    _ ← create_session s
    pure (record {
      upload_id = s.upload_id;
      chunk_size = s.chunk_size;
      total_chunks = s.total_chunks;
      expires_at = s.expires_at;
    })

  unfoldable pub begin_receiving : String → UploadStatus → Method v UploadStatus
  begin_receiving id s =
      if is_new s.state
      then patch_and_sync v now s id (record no_change { state = some UploadState.receiving })
      else pure s

  -- The body of the `try` around the check of the first chunk's content.
  unfoldable pub sniff_found : String → UploadStatus → Text → Method v UploadStatus
  sniff_found id s detected =
      if not (is_empty detected) && not (is_allowed_mime cfg detected)
      then (modify (λ w. delete_session v id (remove_temp v s.temp_path w))
          >> throw detected_mime_not_allowed)
      else if not (is_empty detected) && not (text_eq detected s.mime)
      then patch_and_sync v now s id (record no_change { mime = some detected })
      else pure s

  -- Whatever it throws is ignored.
  unfoldable pub sniff_first : String → ℕ → List ℕ → UploadStatus → Method v UploadStatus
  sniff_first id index chunk s =
      if index == 0
      then elim (v.sniff_buffer chunk) [
        | none ↦ pure s
        | some mime ↦ catch (sniff_found id s (lower mime)) (λ _. pure s)
      ]
      else pure s

  -- A chunk that is already there is not written again.
  unfoldable pub write_bytes : ℕ → List ℕ → UploadStatus → Method v (Unit {0})
  write_bytes index chunk s w =
      if includes s.received_indexes index
      then (ok tt, w)
      else elim (v.temp.write_at s.temp_path (index * s.chunk_size) chunk w.fs) [
        | none ↦ (throws write_failed, w)
        | some f ↦ (ok tt, record w { fs = f })
      ]

  unfoldable pub record_chunk : String → ℕ → List ℕ → UploadStatus → Method v UploadStatus
  record_chunk id index chunk s = patch_and_sync v now s id (record no_change {
    received_bytes = some (bytes_with index chunk s);
    received_indexes = some (indexes_with index s.received_indexes);
  })

  unfoldable pub chunk_result : ℕ → UploadStatus → ChunkResult
  chunk_result index s = record {
    received_index = index;
    received_bytes = s.received_bytes;
    percent = v.floor_percent (length s.received_indexes) s.total_chunks;
  }

  -- The second half of that work: a chunk that passed the checks is stored.
  unfoldable pub store_chunk : String → ℕ → List ℕ → UploadStatus → Method v ChunkResult
  store_chunk id index chunk s = do
    sniffed ← sniff_first id index chunk s
    _ ← write_bytes index chunk sniffed
    recorded ← record_chunk id index chunk sniffed
    _ ← modify (touch_session v now id cfg.ttl_seconds)
    pure (chunk_result index recorded)

  -- The work of `writeChunk` under the lock.
  unfoldable pub run_chunk : String → ℕ → List ℕ → Method v ChunkResult
  run_chunk id index chunk = do
    s ← must_get_active v now id
    _ ← guard (is_writable s.state) not_writable
    receiving ← begin_receiving id s
    _ ← guard (ltb index receiving.total_chunks) index_out_of_range
    _ ← assert_chunk_length v index chunk receiving
    store_chunk id index chunk receiving

  unfoldable pub index_of : Option ℕ → Method v ℕ
  index_of none = throw bad_index
  index_of (some i) = pure i

  unfoldable pub write_chunk : (lock_won : Bool) → String → Option ℕ → List ℕ → Method v ChunkResult
  write_chunk lock_won id index chunk = do
    _ ← guard (not (same id "")) upload_id_required
    i ← index_of index
    _ ← guard (not (is_empty chunk)) empty_chunk
    with_store_lock v lock_won (run_chunk id i chunk)

  -- The percentage beside the status; the server drops the temporary path and the version.
  unfoldable pub get_status : String → Method v (UploadStatus × ℕ)
  get_status id = do
    s ← must_get_active v now id
    pure (s, v.floor_percent (length s.received_indexes) s.total_chunks)

  unfoldable pub abort : String → Method v (Unit {0})
  abort id w =
      if same id "" then (throws upload_id_required, w) else elim (v.store.get now id w.store) [
        | none ↦ (throws session_not_found, w)
        | some s ↦ (ok tt, delete_session v id (remove_temp v s.temp_path w))
      ]

-- ===== src/Upload/Types.antt =====
-- upload.types.ts and upload.tokens.ts: the status record of a session, the patches on it, the
-- results and the failures of the operations. Times are milliseconds, lifetimes seconds.
use negare_api.Base.{ℕ, ◌+◌, ◌++◌, Bool, List, Option, none, some, String, max, or_else}
use negare_api.Base.Text.{Text}
use negare_api.Upload.Indexes.{ensure_sorted_unique}

pub data UploadState : Type 0 where
  init receiving ready_to_upload uploading uploaded error : UploadState

pub record UploadStatus : Type 0 where
  pub upload_id : String
  pub user_id : String
  pub filename : Text
  pub mime : Text
  pub size : ℕ
  pub chunk_size : ℕ
  pub total_chunks : ℕ
  pub received_bytes : ℕ
  pub received_indexes : List ℕ
  pub state : UploadState
  pub created_at : ℕ
  pub expires_at : ℕ
  pub version : ℕ
  pub error_code : Option Text
  pub temp_path : Text
  pub remote_relative_path : Option Text
  pub sha256 : Option Text

-- `Partial<UploadStatus>`, with the fields that some caller or the merge reads.
pub record Patch : Type 0 where
  pub state : Option UploadState
  pub mime : Option Text
  pub received_bytes : Option ℕ
  pub received_indexes : Option (List ℕ)
  pub remote_relative_path : Option Text
  pub expires_at : Option ℕ
  pub user_id : Option String

abbrev pub no_change : Patch
no_change = record {
  state = none;
  mime = none;
  received_bytes = none;
  received_indexes = none;
  remote_relative_path = none;
  expires_at = none;
  user_id = none;
}

abbrev pub merge_indexes : List ℕ → Option (List ℕ) → List ℕ
merge_indexes cur none = ensure_sorted_unique cur
merge_indexes cur (some xs) = ensure_sorted_unique (cur ++ xs)

abbrev pub merge_bytes : ℕ → Option ℕ → ℕ
merge_bytes cur none = cur
merge_bytes cur (some n) = max cur n

abbrev pub some_or {ℓ} : {A : Type ℓ} → Option A → Option A → Option A
some_or none d = d
some_or (some a) d = some a

-- The merge of a patch into the stored record, before the version is raised.
unfoldable pub merge_status : UploadStatus → Patch → UploadStatus
merge_status cur patch = record cur {
  user_id = or_else patch.user_id cur.user_id;
  mime = or_else patch.mime cur.mime;
  received_bytes = merge_bytes cur.received_bytes patch.received_bytes;
  received_indexes = merge_indexes cur.received_indexes patch.received_indexes;
  state = or_else patch.state cur.state;
  expires_at = or_else patch.expires_at cur.expires_at;
  remote_relative_path = some_or patch.remote_relative_path cur.remote_relative_path;
}

-- What a successful `patchCAS` stores.
unfoldable pub patched : UploadStatus → Patch → UploadStatus
patched cur patch = record (merge_status cur patch) { version = cur.version + 1 }

pub record ChunkResult : Type 0 where
  pub received_index : ℕ
  pub received_bytes : ℕ
  pub percent : ℕ

pub record InitInput : Type 0 where
  pub filename : Text
  pub size : ℕ
  pub mime : Option Text

pub record InitOutput : Type 0 where
  pub upload_id : String
  pub chunk_size : ℕ
  pub total_chunks : ℕ
  pub expires_at : ℕ

pub record FinishResult : Type 0 where
  pub url : Text
  pub path : Text
  pub id : String
  pub mime : Text
  pub size : ℕ

-- Of `UploadConfig`, what the service reads.
pub record UploadConfig : Type 0 where
  pub tmp_dir : Text
  pub chunk_size : ℕ
  pub ttl_seconds : ℕ
  pub max_size_bytes : ℕ
  pub cdn_base_url : Text
  pub public_subdir : Option Text
  pub base_dir : Option Text
  pub allowed_exts : List Text
  pub allowed_mime : List Text
  pub replace_with : Option Text
  pub max_name_length : Option ℕ
  pub retries : Option ℕ
  pub min_delay_ms : Option ℕ
  pub keep_temp_on_error : Bool

-- The exceptions that the service and the store throw.
pub data Failure : Type 0 where
  user_id_required filename_required bad_size too_large ext_not_allowed mime_not_allowed : Failure
  temp_create_failed upload_id_required bad_index empty_chunk session_not_found expired : Failure
  not_writable index_out_of_range bad_chunk_length detected_mime_not_allowed : Failure
  write_failed state_changed incomplete temp_not_found already_finished bad_finish_state : Failure
  temp_not_ready remote_failed persist_failed lock_failed key_exists ensure_dir_failed
        upload_failed :
      Failure
  missing_chunk : ℕ → Failure

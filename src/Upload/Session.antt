-- ===== src/Upload/Session.antt =====
-- upload.service.ts: the state that the service works on, and the private methods that its
-- operations share. One operation runs at one time `now`; `lock_won` says whether the lock of the
-- session was got before its deadline. The store is one that has `patchCAS`, `touch` and `withLock`.
use negare_api.Base.{
  ℕ, suc, ◌+◌, ◌-◌, ◌*◌, Bool, List, [], ◌∷◌, Option, none, some, String, if◌then◌else◌, ltb, ◌==◌,
  length, or_else,
}
use negare_api.Base.Exec.{Exec, Result, ok, throws, throw, guard}
use negare_api.Base.Text.{Text}
use negare_api.Upload.Types.{UploadStatus, Patch, Failure, some_or}
use negare_api.Upload.Types.{
  lock_failed, session_not_found, expired, state_changed, bad_chunk_length, incomplete,
  missing_chunk,
}
use negare_api.Upload.Services.{Services}
use negare_api.Upload.Names.{is_empty}

-- What the gateway emits to the room of an upload.
pub data Event : Type 0 where
  progress : (id : String) (sent total percent : ℕ) → Event
  stored : (id : String) (url path : Text) → Event

pub record World (v : Services) : Type 0 where
  pub store : v.store.St
  pub fs : v.temp.Fs
  pub remote : v.Remote
  pub media : v.Media
  pub events : List Event
  pub slept_ms : ℕ

abbrev pub sync_mime : Option Text → Text → Text
sync_mime none old = old
sync_mime (some new) old = if is_empty new then old else new

-- The snapshot after a patch went through.
unfoldable pub synced : UploadStatus → Patch → UploadStatus
synced s p = record s {
  version = s.version + 1;
  state = or_else p.state s.state;
  received_bytes = or_else p.received_bytes s.received_bytes;
  received_indexes = or_else p.received_indexes s.received_indexes;
  remote_relative_path = some_or p.remote_relative_path s.remote_relative_path;
  mime = sync_mime p.mime s.mime;
}

-- The length that a chunk must have: the last one takes what is left.
unfoldable pub expected_length : UploadStatus → ℕ → ℕ
expected_length s index =
    if index + 1 == s.total_chunks then s.size - index * s.chunk_size else s.chunk_size

-- `receivedIndexes[i] !== i` for the first of `rounds` values of `i`.
unfoldable pub first_missing : (rounds i : ℕ) → List ℕ → Option ℕ
first_missing rounds i [] = if rounds == 0 then none else some i
first_missing ℕ.zero i (x ∷ xs) = none
first_missing (suc rounds) i (x ∷ xs) = if x == i then first_missing rounds (suc i) xs else some i

abbrev missing_result : Option ℕ → Result Failure (Unit {0})
missing_result none = ok tt
missing_result (some i) = throws (missing_chunk i)

unfoldable pub assert_all_chunks_received : UploadStatus → Result Failure (Unit {0})
assert_all_chunks_received s =
    if length s.received_indexes == s.total_chunks
    then missing_result (first_missing s.total_chunks 0 s.received_indexes)
    else throws incomplete

module _ (v : Services) where
  abbrev pub Method : Type 0 → Type 0
  Method A = Exec (World v) Failure A

  unfoldable pub remove_temp : Text → World v → World v
  remove_temp path w =
      if is_empty path
      then w
      else elim (v.temp.remove path w.fs) [ none ↦ w | some f ↦ record w { fs = f } ]

  unfoldable pub delete_session : String → World v → World v
  delete_session id w = record w { store = v.store.delete id w.store }

  unfoldable pub with_store_lock : {A : Type 0} → (lock_won : Bool) → Method A → Method A
  with_store_lock lock_won work = if lock_won then work else throw lock_failed

  -- An expired session is cleaned up on the way out.
  unfoldable pub assert_not_expired : (now : ℕ) → UploadStatus → Method UploadStatus
  assert_not_expired now s w =
      if ltb s.expires_at now
      then (throws expired, delete_session s.upload_id (remove_temp s.temp_path w))
      else (ok s, w)

  unfoldable pub must_get_active : (now : ℕ) → String → Method UploadStatus
  must_get_active now id w = elim (v.store.get now id w.store) [
    | none ↦ (throws session_not_found, w)
    | some s ↦ assert_not_expired now s w
  ]

  unfoldable pub patch_and_sync : (now : ℕ) → UploadStatus → String → Patch → Method UploadStatus
  patch_and_sync now s id p w =
      let (done, st) = v.store.patch_cas now id s.version p w.store in
      (if done then ok (synced s p) else throws state_changed, record w { store = st })

  unfoldable pub assert_chunk_length : ℕ → List ℕ → UploadStatus → Method (Unit {0})
  assert_chunk_length index chunk s =
      guard (length chunk == expected_length s index) bad_chunk_length

  -- A lifetime that cannot be extended is no error.
  unfoldable pub touch_session : (now : ℕ) → String → (ttl : ℕ) → World v → World v
  touch_session now id ttl w = elim (v.store.touch now id ttl w.store) [
    | none ↦ w
    | some st ↦ record w { store = st }
  ]

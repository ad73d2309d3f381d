-- ===== src/Upload/Tests.antt =====
-- The theorems at a session of two chunks, with the services in memory.
mod Finishing
use mathlib.Core.Option.{some-injective}
use negare_api.Base.{
  ℕ, suc, zero, ◌+◌, ◌-◌, ◌*◌, ◌/◌, ◌≤◌, ◌<◌, ◌≡◌, ◌↔◌, refl, subst, Bool, true, false, ◌&&◌, List,
  [], ◌∷◌, Option, none, some, String, if◌then◌else◌, ltb, leb, ◌==◌, ==_iff, length, get_elem?,
  includes, arith, Bool-cases, Option-cases, inl, inr, min, same, all, ◌^◌,
}
use negare_api.Base.Exec.{ok, throws}
use negare_api.Base.Returns.{Returns}
use negare_api.Base.Text.{Text, codes, text_eq, split, join, trim, lower, trim_start}
use negare_api.Redis.Memory.{memory, plain}
use negare_api.Upload.Types.{
  UploadStatus, UploadState, UploadConfig, no_change, FinishResult, patched,
}
use negare_api.Upload.Services.{Services, Outcome, MediaInput, Report}
use negare_api.Upload.Disk.{memory_files, Disk, write_file_there}
use negare_api.Upload.RedisStore.Laws.{redis_state_store}
use negare_api.Upload.Session.{World, Event, expected_length}
use negare_api.Upload.WellFormed.{WellFormed}
use negare_api.Upload.Indexes.{ensure_sorted_unique, sort, unique, insert_sorted}
use negare_api.Upload.Chunk.{ceil_div, write_chunk, start, abort, is_writable}
use negare_api.Upload.Tracking.{Safe}
use negare_api.Upload.ChunkSteps.{Current, Accepted}
use negare_api.Upload.Session.{assert_all_chunks_received}
use negare_api.Upload.RedisStore.{get, is_nameless, patch_cas}
use negare_api.Upload.Assembly.{send_chunks, Works, chunk_of}
use negare_api.Upload.Assembled.{send_chunks_assemble}
use negare_api.Upload.Invariant.{write_chunk-Safe}
use negare_api.Upload.Opening.{start-Safe}
use negare_api.Upload.Completeness.{assert_all_chunks_received_iff}
use negare_api.Upload.RedisStore.{acquire, spin, release}
use negare_api.Upload.RedisStore.Laws.{get-patch_cas}
use negare_api.Upload.RedisStore.Races.{patch_cas_once, lock_excludes}
use negare_api.Upload.Names.{normalize_subdir, is_plain_segment}
use negare_api.Upload.Names.Paths.{normalize_subdir_plain}
use negare_api.Upload.Remote.{upload_with_retry, progress_events}
use negare_api.Upload.Remote.Bounds.{retry_waits}
use negare_api.Upload.Geometry.{covers, covers_once}

-- All or nothing is sent.
abbrev percent : ℕ → ℕ → ℕ
percent a b = if a == b then 100 else 0

percent_le : (a b : ℕ) → a ≤ b → percent a b ≤ 100
percent_le a b h = ground arith

percent_full : (n : ℕ) → 0 < n → percent n n ≡ 100
percent_full n h = rw ((==_iff n n).1 refl)

abbrev services : Services
services = record {
  store = redis_state_store plain memory 60 (omega arith);
  temp = memory_files;
  Remote = List Text;
  Media = List MediaInput;
  sniff_buffer = λ chunk. none;
  sniff_file = λ path f. none;
  ensure_dir = λ dir r. some r;
  upload_file = λ attempt local path f r. (Outcome.sent, [], path ∷ r);
  delete_remote = λ path r. some [];
  create_file = λ input m. some ("7", input ∷ m);
  nfc = λ t. t;
  floor_percent = percent;
  floor_percent_le = percent_le;
  floor_percent_full = percent_full;
}

abbrev config : UploadConfig
config = record {
  tmp_dir = codes "/tmp";
  chunk_size = 4;
  ttl_seconds = 60;
  max_size_bytes = 100;
  cdn_base_url = codes "https://cdn";
  public_subdir = none;
  base_dir = none;
  allowed_exts = [];
  allowed_mime = [];
  replace_with = none;
  max_name_length = none;
  retries = none;
  min_delay_ms = none;
  keep_temp_on_error = false;
}

-- Six bytes in chunks of four.
abbrev two_chunks : UploadStatus
two_chunks = record {
  upload_id = "u1";
  user_id = "7";
  filename = codes "a.txt";
  mime = codes "text/plain";
  size = 6;
  chunk_size = 4;
  total_chunks = 2;
  received_bytes = 0;
  received_indexes = [];
  state = UploadState.init;
  created_at = 0;
  expires_at = 60000;
  version = 1;
  error_code = none;
  temp_path = codes "/tmp/u1";
  remote_relative_path = none;
  sha256 = none;
}

abbrev stored : String → Option (UploadStatus × ℕ)
stored id = if same "u1" id then some (two_chunks, 60000) else none

abbrev files : Disk
files path = if text_eq (codes "/tmp/u1") path then some (6, λ _. some 0) else none

abbrev world : World services
world = record { store = stored; fs = files; remote = []; media = []; events = []; slept_ms = 0 }

two_chunks-WellFormed : WellFormed two_chunks
unfolding ceil_div
two_chunks-WellFormed = record {
  positive = omega arith;
  total = refl;
  rises = tt;
  bytes = omega arith;
}

world-Safe : Safe services 5 world
unfolding get is_nameless ensure_sorted_unique sort unique insert_sorted
world-Safe = record {
  all = λ id s h. elim (Bool-cases (same "u1" id)) [
    | inl here ↦ subst WellFormed (some-injective two_chunks s (rw here at h)) two_chunks-WellFormed
    | inr there ↦ absurd (cc (rw there at h))
  ];
}

world-Current : Current services config 5 "u1" two_chunks world
unfolding get is_nameless ensure_sorted_unique sort unique insert_sorted
world-Current = record { safe = world-Safe; formed = two_chunks-WellFormed; holds = refl }

-- The bytes 10, 11, ...
abbrev content : ℕ → ℕ
content n = n + 10

all_work : Works services config 5 "u1" two_chunks content
all_work = record {
  named = refl;
  open_still = omega arith;
  formed = two_chunks-WellFormed;
  disk = write_file_there;
  welcome = λ mime first none_found. absurd (cc none_found);
}

covered : (n : ℕ) → (includes (1 ∷ 0 ∷ []) n ≡ true) ↔ (n < two_chunks.total_chunks)
covered n = (λ h. ground arith, λ h. ground arith)

send_chunks_assemble_example :
    Returns (send_chunks services config 5 "u1" two_chunks content (1 ∷ 0 ∷ [])) world (λ _ u.
      (t : UploadStatus) × (services.store.get 5 "u1" u.store ≡ some t)
      × (assert_all_chunks_received t ≡ ok tt)
      × ((j : ℕ) → j < 6 → services.temp.byte (codes "/tmp/u1") j u.fs ≡ some (content j)))
unfolding text_eq is_writable
send_chunks_assemble_example =
    send_chunks_assemble services config 5 "u1" two_chunks content (1 ∷ 0 ∷ []) world all_work
      world-Current refl refl refl covered

write_chunk-Safe_example :
    Safe services 5 (write_chunk services config 5 true "u1" (some 7) (1 ∷ []) world).1
write_chunk-Safe_example =
    write_chunk-Safe services config 5 true "u1" (some 7) (1 ∷ []) world world-Safe

start-Safe_example :
    Safe services 5
      (start services config 5 "7" "u2"
        (record { filename = codes "b"; size = 3; mime = none })
        world).1
start-Safe_example =
    start-Safe services config 5 "7" "u2" (record { filename = codes "b"; size = 3; mime = none })
      world (omega arith) (omega arith) world-Safe

assert_all_chunks_received_iff_example :
    (assert_all_chunks_received two_chunks ≡ ok tt)
    ↔ ((i : ℕ) → i < 2 → includes two_chunks.received_indexes i ≡ true)
assert_all_chunks_received_iff_example =
    assert_all_chunks_received_iff two_chunks two_chunks-WellFormed

-- Another user's record does not change.
get-patch_cas_example :
    get plain memory 60 5 "u2"
      (patch_cas plain memory 60 5 "u1" 1
        (record no_change { received_indexes = some (1 ∷ []) })
        none
        stored).1
    ≡ get plain memory 60 5 "u2" stored
unfolding get is_nameless ensure_sorted_unique sort unique insert_sorted
get-patch_cas_example =
    get-patch_cas plain memory 60 (omega arith) 5 "u1" "u2"
      (record no_change { received_indexes = some (1 ∷ []) }) stored two_chunks refl refl

patch_cas_once_example :
    (get plain memory 60 5 "u1"
        (patch_cas plain memory 60 5 "u1" 1
          (record no_change { state = some UploadState.receiving })
          none
          stored).1
      ≡ some (patched two_chunks (record no_change { state = some UploadState.receiving })))
    × (patch_cas plain memory 60 5 "u1" 1 no_change none
          (patch_cas plain memory 60 5 "u1" 1
            (record no_change { state = some UploadState.receiving })
            none
            stored).1
        ≡ (
          false,
          (patch_cas plain memory 60 5 "u1" 1
              (record no_change { state = some UploadState.receiving })
              none
              stored).1,
        ))
unfolding get is_nameless ensure_sorted_unique sort unique insert_sorted
patch_cas_once_example =
    patch_cas_once plain memory 60 (omega arith) 5 "u1"
      (record no_change { state = some UploadState.receiving }) no_change stored two_chunks refl
      refl

abbrev held : String → Option (String × ℕ)
held id = if same "u1" id then some ("me", 900) else none

polled : (t : ℕ) → includes (5 ∷ 55 ∷ []) t ≡ true → t ≤ 60
polled t h = ground arith

lock_excludes_example :
    (spin memory (5 ∷ 55 ∷ []) 1005 "u1" "you" 500 held ≡ none)
    × (release memory 60 "u1" "you" held ≡ held)
    × ((st' : (memory {V = String}).St) × (acquire memory 60 "u1" "you" 500
            (release memory 60 "u1" "me" held)
          ≡ some st'))
lock_excludes_example =
    lock_excludes memory (5 ∷ 55 ∷ []) 1005 "u1" "you" "me" 500 60 held polled refl refl

normalize_subdir_plain_example :
    all is_plain_segment (split b'/' (normalize_subdir (codes "../a//./b\\.."))) ≡ true
normalize_subdir_plain_example = normalize_subdir_plain (codes "../a//./b\\..")

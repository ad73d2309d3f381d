-- ===== src/Upload/Services.antt =====
-- What the upload service is built on. `StateStore` is the contract of `UploadStateStore` in
-- upload.types.ts; `TempFs` is the part of node:fs that the service calls, `Sniffer` the package
-- file-type, `RemoteStorage` the contract of `StorageDriver`, `MediaTable` the table behind the
-- media service. Each is its operations with the laws that the service relies on.
use negare_api.Base.{
  ℕ, ◌+◌, ◌-◌, ◌≤◌, ◌<◌, ◌≡◌, Bool, true, false, List, Option, none, some, String, same, length,
  get_elem?, if◌then◌else◌, ltb, leb, ◌&&◌,
}
use negare_api.Base.Text.{Text, text_eq}
use negare_api.Upload.Types.{UploadStatus, Patch, patched}
use negare_api.Upload.Indexes.{ensure_sorted_unique}

-- A record may fall to its lifetime between two times, so the time is an argument of each read.
pub record StateStore : Type 1 where
  pub St : Type 0
  pub get : ℕ → String → St → Option UploadStatus
  -- `none` when the key exists
  pub create : ℕ → UploadStatus → ℕ → St → Option St
  pub patch_cas : ℕ → String → ℕ → Patch → St → Bool × St
  -- `none` when the key is missing
  pub touch : ℕ → String → ℕ → St → Option St
  pub delete : String → St → St
  pub get_earlier :
      (now later : ℕ) (id : String) (st : St) (s : UploadStatus)
      → now ≤ later
      → get later id st ≡ some s
      → get now id st ≡ some s
  pub get-patch_cas :
      (now : ℕ) (id j : String) (p : Patch) (st : St) (s : UploadStatus)
      → get now id st ≡ some s
      → p.user_id ≡ none
      → get now j (patch_cas now id s.version p st).1
        ≡ (if same id j then some (patched s p) else get now j st)
  pub patch_cas_current :
      (now : ℕ) (id : String) (p : Patch) (st : St) (s : UploadStatus)
      → get now id st ≡ some s
      → (patch_cas now id s.version p st).0 ≡ true
  pub patch_cas_refused :
      (now : ℕ) (id : String) (v : ℕ) (p : Patch) (st : St)
      → (patch_cas now id v p st).0 ≡ false
      → (patch_cas now id v p st).1 ≡ st
  pub patch_cas-delete :
      (now : ℕ) (id : String) (v : ℕ) (p : Patch) (st : St)
      → (patch_cas now id v p (delete id st)).0 ≡ false
  pub get-touch :
      (now : ℕ) (id j : String) (ttl : ℕ) (st st' : St)
      → touch now id ttl st ≡ some st'
      → get now j st' ≡ get now j st
  pub get-delete :
      (now : ℕ) (id j : String) (st : St)
      → get now j (delete id st) ≡ (if same id j then none else get now j st)
  pub get-create :
      (now : ℕ) (j : String) (s : UploadStatus) (ttl : ℕ) (st st' : St)
      → 0 < ttl
      → ensure_sorted_unique s.received_indexes ≡ s.received_indexes
      → create now s ttl st ≡ some st'
      → get now j st' ≡ (if same s.upload_id j then some s else get now j st)
  pub create-delete :
      (now : ℕ) (id : String) (s t : UploadStatus) (ttl : ℕ) (st : St)
      → get now id st ≡ some s
      → s.upload_id ≡ id
      → t.upload_id ≡ id
      → t.user_id ≡ s.user_id
      → (st' : St) × (create now t ttl (delete id st) ≡ some st')

-- Files in the temporary directory; `none` is an error of the call. `size` is `none` for a path
-- that is no file.
pub record TempFs : Type 1 where
  pub Fs : Type 0
  pub create_sparse : Text → ℕ → Fs → Option Fs
  pub write_at : Text → ℕ → List ℕ → Fs → Option Fs
  pub remove : Text → Fs → Option Fs
  pub size : Text → Fs → Option ℕ
  pub byte : Text → ℕ → Fs → Option ℕ
  pub byte-write_at :
      (path other : Text) (offset j : ℕ) (buf : List ℕ) (f f' : Fs)
      → write_at path offset buf f ≡ some f'
      → byte other j f' ≡ (
          if text_eq path other && (leb offset j && ltb j (offset + length buf))
          then get_elem? buf (j - offset)
          else byte other j f)
  -- the open is by `r+`, which wants the file; a write within it keeps its size
  pub write_at_missing :
      (path : Text) (offset : ℕ) (buf : List ℕ) (f : Fs)
      → size path f ≡ none
      → write_at path offset buf f ≡ none
  pub size-write_at :
      (path other : Text) (offset n : ℕ) (buf : List ℕ) (f f' : Fs)
      → write_at path offset buf f ≡ some f'
      → size other f ≡ some n
      → offset + length buf ≤ n
      → size other f' ≡ some n
  pub size-remove : (path : Text) (f f' : Fs) → remove path f ≡ some f' → size path f' ≡ none
  pub size-create_sparse :
      (path : Text) (n : ℕ) (f f' : Fs) → create_sparse path n f ≡ some f' → size path f' ≡ some n

-- The outcome of one call of `uploadFile`, with the progress that it reports on the way.
pub data Outcome : Type 0 where
  sent : Outcome
  broke : (message : Text) → Outcome

pub record Report : Type 0 where
  pub at : ℕ
  pub sent_bytes : ℕ
  pub total_bytes : Option ℕ

pub record MediaInput : Type 0 where
  pub user_id : String
  pub filename : Text
  pub mime : Text
  pub size : ℕ
  pub path : Text
  pub url : Text

-- The storage may fail at any attempt, so the number of the attempt is an argument.
pub record Services : Type 1 where
  pub store : StateStore
  pub temp : TempFs
  pub Remote : Type 0
  pub Media : Type 0
  pub sniff_buffer : List ℕ → Option Text
  pub sniff_file : Text → temp.Fs → Option Text
  pub ensure_dir : Text → Remote → Option Remote
  pub upload_file : ℕ → Text → Text → temp.Fs → Remote → Outcome × List Report × Remote
  pub delete_remote : Text → Remote → Option Remote
  pub create_file : MediaInput → Media → Option (String × Media)
  -- `String.prototype.normalize('NFC')`
  pub nfc : Text → Text
  -- `Math.floor((a / b) * 100)` in doubles
  pub floor_percent : ℕ → ℕ → ℕ
  pub floor_percent_le : (a b : ℕ) → a ≤ b → floor_percent a b ≤ 100
  pub floor_percent_full : (n : ℕ) → 0 < n → floor_percent n n ≡ 100

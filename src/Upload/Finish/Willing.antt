-- ===== src/Upload/Finish/Willing.antt =====
-- upload.service.ts: where everything that `finish` calls goes well.
use negare_api.Base.{
  ℕ, zero, suc, ◌+◌, ◌-◌, ◌*◌, ◌^◌, ◌≡◌, refl, sym, ap, subst, true, false, ◌&&◌, not, List, none,
  some, String, same_refl, or_else, max,
}
use negare_api.Base.Exec.{ok}
use negare_api.Base.Returns.{Returns}
use negare_api.Base.Text.{Text, lower}
use negare_api.Upload.Types.{UploadStatus, Patch, UploadConfig, patched}
use negare_api.Upload.Services.{Services, Outcome, Report, MediaInput}
use negare_api.Upload.Names.{is_empty, is_allowed_mime}
use negare_api.Upload.Session.{World, patch_and_sync, synced}
use negare_api.Upload.Remote.{is_transient, attempt, upload_with_retry}
use negare_api.Upload.Accept.{SameFile, SameFile_trans, synced-SameFile}

-- From attempt `i` on, with `left` attempts left after it, the storage takes the file: at once, or
-- after attempts that break off in a way that is tried again.
pub data Takes (v : Services) (temp path : Text) (fs : v.temp.Fs)
    : (i left : ℕ) → v.Remote → Type 0 where
  taken :
      {i left : ℕ} {r r' : v.Remote} {reports : List Report}
      → v.upload_file i temp path fs r ≡ (Outcome.sent, reports, r')
      → Takes v temp path fs i left r
  again :
      {i left : ℕ} {r r' : v.Remote} {reports : List Report} {message : Text}
      → v.upload_file i temp path fs r ≡ (Outcome.broke message, reports, r')
      → is_transient message ≡ true
      → Takes v temp path fs (suc i) left r'
      → Takes v temp path fs i (suc left) r

module _ (v : Services) (cfg : UploadConfig) where
  -- The store and the files are as before.
  abbrev pub Kept : World v → World v → Type 0
  Kept w u = (u.store ≡ w.store) × (u.fs ≡ w.fs)

  pub retry_returns :
      (i left base : ℕ) (id : String) (s : UploadStatus) (path : Text) (w : World v)
      → Takes v s.temp_path path w.fs i left w.remote
      → Returns (upload_with_retry v cfg i left base id s path) w (λ _ u. Kept w u)
  unfolding upload_with_retry attempt
  retry_returns i zero base id s path w (Takes.taken h) = record {
    value = tt;
    after = (attempt v cfg i id s path w).1;
    runs = rw (upload_with_retry, ap (λ q. q.0) h) refl;
    post = (refl, refl);
  }
  retry_returns i (suc left) base id s path w (Takes.taken h) = record {
    value = tt;
    after = (attempt v cfg i id s path w).1;
    runs = rw (upload_with_retry, ap (λ q. q.0) h) refl;
    post = (refl, refl);
  }
  retry_returns i (suc left) base id s path w (Takes.again h transient rest) =
      let u = (attempt v cfg i id s path w).1 in
      let rest' : Takes v s.temp_path path w.fs (suc i) left u.remote =
        subst (λ q. Takes v s.temp_path path w.fs (suc i) left q.2) (sym h) rest in
      let later =
        retry_returns (suc i) left base id s path
          (record u { slept_ms = u.slept_ms + base * 2 ^ (i - 1) }) rest' in
      record {
        value = later.value;
        after = later.after;
        runs = rw (upload_with_retry, ap (λ q. q.0) h, transient) later.runs;
        post = later.post;
      }

-- The temporary file of a session `s` stands, whole, in the files `fs`; the storage makes directories,
-- and takes the file within the attempts that there are.
pub record Willing (v : Services) (cfg : UploadConfig) (s : UploadStatus) (fs : v.temp.Fs)
    : Type 0 where
  pub whole : v.temp.size s.temp_path fs ≡ some s.size
  pub makes_dirs : (dir : Text) (r : v.Remote) → (r' : v.Remote) × (v.ensure_dir dir r ≡ some r')
  pub takes :
      (path : Text) (r : v.Remote)
      → Takes v s.temp_path path fs 1 (max 1 (or_else cfg.retries 3) - 1) r
  pub records :
      (x : MediaInput) (m : v.Media)
      → (id : String) × (m' : v.Media) × (v.create_file x m ≡ some (id, m'))
  pub type_allowed :
      (mime : Text)
      → v.sniff_file s.temp_path fs ≡ some mime
      → (not (is_empty (lower mime)) && not (is_allowed_mime cfg (lower mime))) ≡ false

module _ (v : Services) (now : ℕ) (id : String) where
  -- The stored session has the version of the snapshot.
  pub record Stored (t : UploadStatus) (st : v.store.St) : Type 0 where
    pub stored : UploadStatus
    pub holds : v.store.get now id st ≡ some stored
    pub same_version : stored.version ≡ t.version

  synced-Stored :
      (t : UploadStatus) (p : Patch) (u : World v)
      → p.user_id ≡ none
      → Stored t u.store
      → (patch_and_sync v now t id p u ≡ (ok (synced t p), (patch_and_sync v now t id p u).1))
        × Stored (synced t p) (patch_and_sync v now t id p u).1.store
  unfolding patch_and_sync synced patched
  synced-Stored t p u no_user h =
      let done : (v.store.patch_cas now id t.version p u.store).0 ≡ true =
        subst (λ n. (v.store.patch_cas now id n p u.store).0 ≡ true) h.same_version
          (v.store.patch_cas_current now id p u.store h.stored h.holds) in
      let now_holds =
        subst
          (λ n.
            v.store.get now id (v.store.patch_cas now id n p u.store).1 ≡ some (patched h.stored p))
          h.same_version
          (rw (same_refl id) at
            (v.store.get-patch_cas now id id p u.store h.stored h.holds no_user)) in
      (
        rw (patch_and_sync, done) refl,
        record {
          stored = patched h.stored p;
          holds = now_holds;
          same_version = ap (λ n. n + 1) h.same_version;
        },
      )

  pub patch_and_sync-Stored :
      (t : UploadStatus) (p : Patch) (u : World v)
      → p.user_id ≡ none
      → Stored t u.store
      → Returns (patch_and_sync v now t id p) u (λ t' u'. Stored t' u'.store)
  patch_and_sync-Stored t p u no_user h =
      let (runs, kept) = synced-Stored t p u no_user h in
      record {
        value = synced t p;
        after = (patch_and_sync v now t id p u).1;
        runs = runs;
        post = kept;
      }

module _ (v : Services) (now : ℕ) (id : String) (s : UploadStatus) (fs : v.temp.Fs) where
  -- What holds of the snapshot until the file is sent.
  pub record Held (t : UploadStatus) (u : World v) : Type 0 where
    pub tracked : Stored v now id t u.store
    pub same_file : SameFile s t
    pub files : u.fs ≡ fs

  pub patch_and_sync-Held :
      (t : UploadStatus) (p : Patch) (u : World v)
      → p.user_id ≡ none
      → Held t u
      → Returns (patch_and_sync v now t id p) u (λ t' u'. Held t' u')
  unfolding patch_and_sync
  patch_and_sync-Held t p u no_user h =
      let (runs, kept) = synced-Stored v now id t p u no_user h.tracked in
      record {
        value = synced t p;
        after = (patch_and_sync v now t id p u).1;
        runs = runs;
        post = record {
          tracked = kept;
          same_file = SameFile_trans s t (synced t p) h.same_file (synced-SameFile t p);
          files = h.files;
        };
      }

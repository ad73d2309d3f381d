-- ===== src/Upload/Finish/Returned.antt =====
-- upload.service.ts: where everything that `finish` calls goes well, it returns.
use mathlib.Core.Option.{some-injective}
use negare_api.Base.{
  ℕ, ◌≤◌, ◌≡◌, refl, sym, ap, ◌∙◌, subst, Bool, true, false, not, none, some, String, same, ltb,
  arith, or_else,
}
use negare_api.Base.Exec.{ok}
use negare_api.Base.Returns.{Returns, Returns-bind, Returns-step}
use negare_api.Base.Text.{Text, lower}
use negare_api.Upload.Types.{UploadStatus, UploadState, UploadConfig}
use negare_api.Upload.Services.{Services}
use negare_api.Upload.Names.{is_empty, build_public_url}
use negare_api.Upload.Session.{
  World, Event, must_get_active, assert_not_expired, with_store_lock, assert_all_chunks_received,
}
use negare_api.Upload.Finish.{
  FinishInput, is_finishable, is_uploaded, sniff_whole, with_mime, check_finish, deliver,
  run_finish, finish, emit,
}
use negare_api.Upload.Finish.Delivered.{finish_delivers}
use negare_api.Upload.Finish.Willing.{
  Willing, Stored, Held, patch_and_sync-Stored, patch_and_sync-Held,
}
use negare_api.Upload.Finish.Steps.{send_returns, persist_returns, with_mime_returns, sniff_returns}

module _ (v : Services) (cfg : UploadConfig) (now : ℕ) (id : String) (s : UploadStatus)
    (fs : v.temp.Fs) (willing : Willing v cfg s fs) where
  deliver_returns :
      (i : FinishInput) (t : UploadStatus) (path : Text) (u : World v)
      → i.now ≡ now
      → Held v now id s fs t u
      → Returns (deliver v cfg i id t path) u (λ _ _. Unit {0})
  unfolding deliver
  deliver_returns i t path u at_now h =
      let go : Returns (deliver v cfg (record i { now = now }) id t path) u (λ _ _. Unit {0}) =
        Returns-bind (λ t' u'. Held v now id s fs t' u') _ _ u
          (patch_and_sync-Held v now id s fs t _ u refl h)
          λ ready u1 h1.
            Returns-bind (λ t' u'. Stored v now id t' u'.store) _ _ u1
              (send_returns v cfg now id s fs willing _ path ready u1 h1)
              λ sent u2 h2.
                Returns-bind (λ t' u'. Stored v now id t' u'.store) _ _ u2
                  (patch_and_sync-Stored v now id sent _ u2 refl h2)
                  λ done u3 _.
                    Returns-bind (λ _ _. Unit {0}) _ _ u3
                      (persist_returns v cfg now id s fs willing done path u3)
                      λ saved u4 _. record {
                        value = record {
                          url = build_public_url cfg path;
                          path = path;
                          id = saved;
                          mime = done.mime;
                          size = done.size;
                        };
                        after =
                            (emit v cfg (Event.stored id (build_public_url cfg path) path) u4).1;
                        runs = refl;
                        post = tt;
                      } in
      subst (λ n. Returns (deliver v cfg (record i { now = n }) id t path) u (λ _ _. Unit {0}))
        (sym at_now) go

finishable_not_uploaded : (st : UploadState) → is_finishable st ≡ true → not (is_uploaded st) ≡ true
finishable_not_uploaded UploadState.uploaded h = absurd (cc)
finishable_not_uploaded UploadState.init h = refl
finishable_not_uploaded UploadState.receiving h = refl
finishable_not_uploaded UploadState.ready_to_upload h = refl
finishable_not_uploaded UploadState.uploading h = refl
finishable_not_uploaded UploadState.error h = refl

module _ (v : Services) (cfg : UploadConfig) (i : FinishInput) (id : String)
    (s : UploadStatus) where
  check_passes :
      (u : World v)
      → assert_all_chunks_received s ≡ ok tt
      → is_empty s.temp_path ≡ false
      → is_finishable s.state ≡ true
      → check_finish v cfg s u ≡ (ok tt, u)
  unfolding check_finish
  check_passes u complete named finishable =
      rw (check_finish, complete, named, finishable_not_uploaded s.state finishable, finishable)
        refl

  read_returns :
      (w : World v)
      → v.store.get i.now id w.store ≡ some s
      → i.now ≤ s.expires_at
      → must_get_active v i.now id w ≡ (ok s, w)
  unfolding must_get_active assert_not_expired
  read_returns w found alive =
      let early : ltb s.expires_at i.now ≡ false = ground arith in
      rw (must_get_active, found, early) refl

  run_finish_returns :
      (w : World v)
      → v.store.get i.now id w.store ≡ some s
      → i.now ≤ s.expires_at
      → assert_all_chunks_received s ≡ ok tt
      → is_empty s.temp_path ≡ false
      → is_finishable s.state ≡ true
      → Willing v cfg s w.fs
      → Returns (run_finish v cfg i id) w (λ _ _. Unit {0})
  unfolding run_finish
  run_finish_returns w found alive complete named finishable willing =
      let held : Held v i.now id s w.fs s w = record {
        tracked = record { stored = s; holds = found; same_version = refl };
        same_file = record {
          size = refl;
          chunk_size = refl;
          total_chunks = refl;
          temp_path = refl;
          expires_at = refl;
        };
        files = refl;
      } in
      Returns-step (must_get_active v i.now id) _ w s w (read_returns w found alive) (
        Returns-step (check_finish v cfg s) _ w tt w (check_passes w complete named finishable) (
          Returns-bind (λ _ u. Held v i.now id s w.fs s u) (sniff_whole v cfg id s) _ w
            (sniff_returns v cfg i.now id s w.fs willing w held)
            λ detected u h.
              Returns-bind (λ t u'. Held v i.now id s w.fs t u')
                (with_mime v cfg i.now id s (lower (or_else detected s.mime))) _ u
                (with_mime_returns v cfg i.now id s w.fs willing _ s u h)
                λ t u' h'. deliver_returns v cfg i.now id s w.fs willing i t _ u' refl h'))

  -- A complete, live session that is receiving or ready, whose whole temporary file stands, is
  -- finished when the lock is free, the storage makes directories and takes the file within the
  -- attempts, the type found in the file is an allowed one, and the database records the file: `finish`
  -- returns the size of the session and the public URL of the path, and the session is gone.
  pub finish_returns :
      (w : World v)
      → same id "" ≡ false
      → i.lock_won ≡ true
      → v.store.get i.now id w.store ≡ some s
      → i.now ≤ s.expires_at
      → assert_all_chunks_received s ≡ ok tt
      → is_empty s.temp_path ≡ false
      → is_finishable s.state ≡ true
      → Willing v cfg s w.fs
      → Returns (finish v cfg i id) w (λ r u.
        (v.store.get i.now id u.store ≡ none)
        × (r.url ≡ build_public_url cfg r.path)
        × (r.size ≡ s.size))
  unfolding finish with_store_lock
  finish_returns w given free found alive complete named finishable willing =
      let done = run_finish_returns w found alive complete named finishable willing in
      let runs : finish v cfg i id w ≡ (ok done.value, done.after) =
        rw (finish, given)
          (subst
            (λ (b : Bool).
              with_store_lock v b (run_finish v cfg i id) w ≡ (ok done.value, done.after))
            (sym free) done.runs) in
      let (gone, url, (s', found', _, size)) =
        finish_delivers v cfg i id w done.after done.value runs in
      record {
        value = done.value;
        after = done.after;
        runs = runs;
        post = (
          gone,
          url,
          size ∙ ap (λ (x : UploadStatus). x.size) (some-injective s' s (sym found' ∙ found)),
        );
      }

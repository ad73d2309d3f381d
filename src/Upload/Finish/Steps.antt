-- ===== src/Upload/Finish/Steps.antt =====
-- upload.service.ts: the steps of `finish` return where everything they call goes well.
use negare_api.Base.{
  ℕ, ◌-◌, ◌≡◌, refl, sym, ◌∙◌, subst, true, ◌||◌, none, some, String, ◌==◌, arith, or_else, max,
  Option-cases, Bool-cases, inl, inr,
}
use negare_api.Base.Exec.{ok}
use negare_api.Base.Returns.{Returns, Returns-pure, Returns-bind, Returns-catch, Returns-modify}
use negare_api.Base.Text.{Text, lower, text_eq}
use negare_api.Upload.Types.{UploadStatus, no_change, UploadConfig}
use negare_api.Upload.Services.{Services}
use negare_api.Upload.Names.{is_empty}
use negare_api.Upload.Session.{World, Event, remove_temp, delete_session}
use negare_api.Upload.Remote.{upload_attempts}
use negare_api.Upload.ChunkSteps.{remove_temp-store}
use negare_api.Upload.Finish.{
  assert_temp_ready, ensure_remote_dir, sniff_whole, prepare_send, send_file, send, media_input,
  persist, with_mime, emit,
}
use negare_api.Upload.Finish.Willing.{
  Takes, Kept, retry_returns, Willing, Stored, Held, patch_and_sync-Held,
}

module _ (v : Services) (cfg : UploadConfig) (now : ℕ) (id : String) (s : UploadStatus)
    (fs : v.temp.Fs) (willing : Willing v cfg s fs) where
  temp_is_ready :
      (t : UploadStatus) (u : World v)
      → Held v now id s fs t u
      → assert_temp_ready v cfg t u ≡ (ok tt, u)
  unfolding assert_temp_ready
  temp_is_ready t u h =
      let whole : (s.size == 0 || s.size == s.size) ≡ true = ground arith in
      let there : v.temp.size t.temp_path u.fs ≡ some s.size =
        subst (λ (f : v.temp.Fs). v.temp.size t.temp_path f ≡ some s.size) (sym h.files)
          (subst (λ (p : Text). v.temp.size p fs ≡ some s.size) (sym h.same_file.temp_path)
            willing.whole) in
      rw (assert_temp_ready, there, h.same_file.size, whole) refl

  pub dir_returns :
      (dir : Text) (t : UploadStatus) (u : World v)
      → Held v now id s fs t u
      → Returns (ensure_remote_dir v cfg dir) u (λ _ u'. Held v now id s fs t u')
  unfolding ensure_remote_dir
  dir_returns dir t u h = elim (Bool-cases (is_empty dir)) [
    | inl none_there ↦ record {
      value = tt;
      after = u;
      runs = rw (ensure_remote_dir, none_there) refl;
      post = h;
    }
    | inr named ↦
        let (r, made) = willing.makes_dirs dir u.remote in
        record {
          value = tt;
          after = record u { remote = r };
          runs = rw (ensure_remote_dir, named, made) refl;
          post = record { tracked = h.tracked; same_file = h.same_file; files = h.files };
        }
  ]

  pub prepare_returns :
      (dir : Text) (t : UploadStatus) (u : World v)
      → Held v now id s fs t u
      → Returns (prepare_send v cfg now id t dir) u (λ t' u'. Held v now id s fs t' u')
  unfolding prepare_send
  prepare_returns dir t u h =
      Returns-bind (λ _ u'. Held v now id s fs t u') (assert_temp_ready v cfg t) _ u
        (record { value = tt; after = u; runs = temp_is_ready t u h; post = h })
        λ _ u1 h1.
          Returns-bind (λ _ u'. Held v now id s fs t u') _ _ u1 (dir_returns dir t u1 h1)
            λ _ u2 h2. patch_and_sync-Held v now id s fs t _ u2 refl h2

  pub send_file_returns :
      (path : Text) (t : UploadStatus) (u : World v)
      → Held v now id s fs t u
      → Returns (send_file v cfg id t path) u (λ t' u'. Held v now id s fs t' u')
  unfolding send_file upload_attempts
  send_file_returns path t u h =
      let left = max 1 (or_else cfg.retries 3) - 1 in
      let ready = willing.takes path u.remote in
      let start : Takes v t.temp_path path u.fs 1 (max 1 (or_else cfg.retries 3) - 1) u.remote =
        subst (λ (f : v.temp.Fs). Takes v t.temp_path path f 1 left u.remote) (sym h.files)
          (subst (λ (p : Text). Takes v p path fs 1 left u.remote) (sym h.same_file.temp_path)
            ready) in
      Returns-bind (λ _ u'. Kept v cfg u u') _ _ u (retry_returns v cfg 1 _ _ id t path u start)
        λ _ u1 (same_store, same_files).
          Returns-bind (λ _ u'. Held v now id s fs t u')
            (emit v cfg (Event.progress id t.size t.size 100)) _ u1
            (record {
              value = tt;
              after = (emit v cfg (Event.progress id t.size t.size 100) u1).1;
              runs = refl;
              post = record {
                tracked = subst (Stored v now id t) (sym same_store) h.tracked;
                same_file = h.same_file;
                files = same_files ∙ h.files;
              };
            })
            λ _ u2 h2. Returns-pure t u2 h2

  -- Neither handler is called.
  pub send_returns :
      (dir path : Text) (t : UploadStatus) (u : World v)
      → Held v now id s fs t u
      → Returns (send v cfg now id t dir path) u (λ t' u'. Stored v now id t' u'.store)
  unfolding send
  send_returns dir path t u h =
      Returns-bind (λ t' u'. Held v now id s fs t' u') _ _ u
        (Returns-catch _ _ u (prepare_returns dir t u h))
        λ t1 u1 h1.
          Returns-bind (λ t' u'. Held v now id s fs t' u') _ _ u1
            (Returns-catch _ _ u1 (send_file_returns path t1 u1 h1))
            λ t2 u2 h2.
              Returns-bind (λ _ u'. Stored v now id t2 u'.store) _ _ u2
                (Returns-modify (remove_temp v t2.temp_path) u2 (
                  subst (Stored v now id t2) (sym (remove_temp-store v cfg now t2.temp_path u2))
                    h2.tracked))
                λ _ u3 h3. Returns-pure t2 u3 h3

  pub persist_returns :
      (t : UploadStatus) (path : Text) (u : World v)
      → Returns (persist v cfg now id t path) u (λ _ _. Unit {0})
  unfolding persist
  persist_returns t path u =
      let (saved, m, made) = willing.records (media_input v cfg t path) u.media in
      record {
        value = saved;
        after = delete_session v id (record u { media = m });
        runs = rw (persist, made) refl;
        post = tt;
      }

  pub with_mime_returns :
      (mime : Text) (t : UploadStatus) (u : World v)
      → Held v now id s fs t u
      → Returns (with_mime v cfg now id t mime) u (λ t' u'. Held v now id s fs t' u')
  unfolding with_mime
  with_mime_returns mime t u h = elim (Bool-cases (text_eq mime t.mime)) [
    | inl same_mime ↦ record {
      value = t;
      after = u;
      runs = rw (with_mime, same_mime) refl;
      post = h;
    }
    | inr new ↦
        let r =
          patch_and_sync-Held v now id s fs t (record no_change { mime = some mime }) u refl h in
        record {
          value = r.value;
          after = r.after;
          runs = rw (with_mime, new) r.runs;
          post = r.post;
        }
  ]

  pub sniff_returns :
      (u : World v)
      → Held v now id s fs s u
      → Returns (sniff_whole v cfg id s) u (λ _ u'. Held v now id s fs s u')
  unfolding sniff_whole
  sniff_returns u h = elim (Option-cases (v.sniff_file s.temp_path u.fs)) [
    | inl nothing ↦ record {
      value = none;
      after = u;
      runs = rw (sniff_whole, nothing) refl;
      post = h;
    }
    | inr (mime, found) ↦ record {
      value = some (lower mime);
      after = u;
      runs = rw (sniff_whole, found, willing.type_allowed mime (rw h.files at found)) refl;
      post = h;
    }
  ]

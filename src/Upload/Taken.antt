-- ===== src/Upload/Taken.antt =====
-- `writeChunk` as a whole: it takes every chunk that passes its checks.
use negare_api.Base.{
  ℕ, ◌*◌, ◌≤◌, ◌≡◌, refl, sym, ◌∙◌, ap, ◌⊎◌, inl, inr, true, false, not, List, some, String, arith,
  same, ltb, lt→ltb, length, ◌==◌, ==_iff, includes,
}
use negare_api.Base.Returns.{Returns, Returns-bind, Returns-pass}
use negare_api.Upload.Types.{UploadStatus, Patch, no_change, UploadConfig}
use negare_api.Upload.Services.{Services}
use negare_api.Upload.Names.{is_empty}
use negare_api.Upload.Session.{
  World, assert_chunk_length, patch_and_sync, touch_session, synced, expected_length,
  with_store_lock,
}
use negare_api.Upload.Chunk.{
  begin_receiving, is_writable, write_bytes, record_chunk, indexes_with, bytes_with, store_chunk,
  run_chunk, write_chunk, index_of, chunk_result,
}
use negare_api.Upload.WellFormed.{synced-WellFormed}
use negare_api.Upload.Tracking.{patch_and_sync_held}
use negare_api.Upload.ChunkSteps.{Accepted, Current}
use negare_api.Upload.Invariant.{chunk_patch-Fits, touch-Current}
use negare_api.Upload.Accept.{
  SameFile, SameFile_trans, Accepted-SameFile, Onward, must_get_active_held, begin_receiving_held,
  sniff_first_held, IsWelcome,
}

module _ (v : Services) (cfg : UploadConfig) (now : ℕ) where
  -- The files after the chunk: as they were if it is already there.
  abbrev pub Deposited : UploadStatus → ℕ → List ℕ → v.temp.Fs → v.temp.Fs → Type 0
  Deposited s index chunk f f' =
      ((includes s.received_indexes index ≡ true) × (f' ≡ f))
      ⊎ ((includes s.received_indexes index ≡ false)
          × (v.temp.write_at s.temp_path (index * s.chunk_size) chunk f ≡ some f'))

  -- The session after the chunk.
  pub record Taken (id : String) (s : UploadStatus) (index : ℕ) (f' : v.temp.Fs) (t : UploadStatus)
      (w : World v) : Type 0 where
    pub current : Current v cfg now id t w
    pub writable : is_writable t.state ≡ true
    pub same : SameFile s t
    pub indexes : t.received_indexes ≡ indexes_with index s.received_indexes
    pub files : w.fs ≡ f'

  write_bytes_held :
      (index : ℕ) (chunk : List ℕ) (s : UploadStatus) (f' : v.temp.Fs) (w : World v)
      → Deposited s index chunk w.fs f'
      → Returns (write_bytes v cfg now index chunk s) w (λ _ u. (u.store ≡ w.store) × (u.fs ≡ f'))
  unfolding write_bytes
  write_bytes_held index chunk s f' w d = elim d [
    | inl (old, e) ↦ record { value = tt; after = w; runs = rw old; post = (refl, sym e) }
    | inr (new, e) ↦ record {
      value = tt;
      after = record w { fs = f' };
      runs = rw (new, e, write_bytes);
      post = (refl, refl);
    }
  ]

  record_chunk_held :
      (id : String) (index : ℕ) (chunk : List ℕ) (s : UploadStatus) (w : World v)
      → Current v cfg now id s w
      → is_writable s.state ≡ true
      → Accepted s index chunk
      → Returns (record_chunk v cfg now id index chunk s) w (Taken id s index w.fs)
  unfolding record_chunk
  record_chunk_held id index chunk s w c wr a =
      let p : Patch = record no_change {
        received_bytes = some (bytes_with index chunk s);
        received_indexes = some (indexes_with index s.received_indexes);
      } in
      let fits = chunk_patch-Fits s index chunk c.formed a in
      let (e, safe, holds) = patch_and_sync_held v now s id p w c.safe c.formed fits c.holds in
      record {
        value = synced s p;
        after = (patch_and_sync v now s id p w).1;
        runs = λ i. (e i, (patch_and_sync v now s id p w).1);
        post = record {
          current = record {
            safe = safe;
            formed = synced-WellFormed s p c.formed fits;
            holds = holds;
          };
          writable = unfold synced in wr;
          same =
              unfold synced in
              record {
                size = refl;
                chunk_size = refl;
                total_chunks = refl;
                temp_path = refl;
                expires_at = refl;
              };
          indexes = unfold synced in refl;
          files = unfold patch_and_sync in refl;
        };
      }

  touch_session-fs :
      (id : String) (ttl : ℕ) (w : World v) → (touch_session v now id ttl w).fs ≡ w.fs
  unfolding touch_session
  touch_session-fs id ttl w = ground arith

  Current-store :
      (id : String) (s : UploadStatus) (w w' : World v)
      → w'.store ≡ w.store
      → Current v cfg now id s w
      → Current v cfg now id s w'
  Current-store id s w w' e c = record {
    safe = record { all = λ j t h. c.safe.all j t (rw e at h) };
    formed = c.formed;
    holds = rw e c.holds;
  }

  store_chunk_held :
      (id : String) (index : ℕ) (chunk : List ℕ) (s : UploadStatus) (f' : v.temp.Fs) (w : World v)
      → Current v cfg now id s w
      → is_writable s.state ≡ true
      → Accepted s index chunk
      → IsWelcome v cfg now index chunk
      → Deposited s index chunk w.fs f'
      → Returns
          (store_chunk v cfg now id index chunk s)
          w
          (λ r u. (r.received_index ≡ index) × (t : UploadStatus) × Taken id s index f' t u)
  unfolding store_chunk
  store_chunk_held id index chunk s f' w c wr a welcome d =
      Returns-bind (Onward v cfg now id s w.fs) _ _ w
        (sniff_first_held v cfg now id index chunk s w c wr welcome)
        λ t u o.
          Returns-bind (λ _ x. (x.store ≡ u.store) × (x.fs ≡ f')) _ _ u
            (write_bytes_held index chunk t f' u (moved t u o))
            λ _ x (kept, filed).
              Returns-bind (Taken id t index x.fs) _ _ x
                (record_chunk_held id index chunk t x (Current-store id t u x kept o.current)
                  o.writable (Accepted-SameFile s t index chunk o.same a))
                λ r y k.
                  let z = touch_session v now id cfg.ttl_seconds y in
                  record {
                    value = chunk_result v cfg now index r;
                    after = z;
                    runs = refl;
                    post = (
                      unfold chunk_result in refl,
                      r,
                      record {
                        current = touch-Current v cfg now id cfg.ttl_seconds r y k.current;
                        writable = k.writable;
                        same = SameFile_trans s t r o.same k.same;
                        indexes = k.indexes ∙ ap (indexes_with index) o.indexes;
                        files = touch_session-fs id cfg.ttl_seconds y ∙ k.files ∙ filed;
                      },
                    );
                  }
    where
      moved :
          (t : UploadStatus) (u : World v)
          → Onward v cfg now id s w.fs t u
          → Deposited t index chunk u.fs f'
      moved t u o = rw (o.indexes, o.same.temp_path, o.same.chunk_size, o.files) d

  run_chunk_held :
      (id : String) (index : ℕ) (chunk : List ℕ) (s : UploadStatus) (f' : v.temp.Fs) (w : World v)
      → Current v cfg now id s w
      → now ≤ s.expires_at
      → is_writable s.state ≡ true
      → Accepted s index chunk
      → IsWelcome v cfg now index chunk
      → Deposited s index chunk w.fs f'
      → Returns
          (run_chunk v cfg now id index chunk)
          w
          (λ r u. (r.received_index ≡ index) × (t : UploadStatus) × Taken id s index f' t u)
  unfolding run_chunk assert_chunk_length
  run_chunk_held id index chunk s f' w c h wr a welcome d =
      Returns-bind (λ t u. (t ≡ s) × (u ≡ w)) _ _ w (must_get_active_held v cfg now id s w c h wr)
        λ t u e. Returns-pass (is_writable t.state) _ _ u (rw e.0 wr) (
          Returns-bind (Onward v cfg now id s w.fs) (begin_receiving v cfg now id t) _ u
            (rw (e.0, e.1) (begin_receiving_held v cfg now id s w c wr))
            λ r x o.
              let b = Accepted-SameFile s r index chunk o.same a in
              Returns-pass (ltb index r.total_chunks) _ _ x (lt→ltb _ _ b.in_range) (
                Returns-pass (length chunk == expected_length r index) _ _ x
                  ((==_iff _ _).1 b.exact) (onward r x o b)))
    where
      onward :
          (r : UploadStatus) (x : World v)
          → Onward v cfg now id s w.fs r x
          → Accepted r index chunk
          → Returns
              (store_chunk v cfg now id index chunk r)
              x
              (λ q u. (q.received_index ≡ index) × (t : UploadStatus) × Taken id s index f' t u)
      onward r x o b =
          let k =
            store_chunk_held id index chunk r f' x o.current o.writable b welcome
              (rw (o.indexes, o.same.temp_path, o.same.chunk_size, o.files) d) in
          let (at, t, m) = k.post in
          record {
            value = k.value;
            after = k.after;
            runs = k.runs;
            post = (
              at,
              t,
              record {
                current = m.current;
                writable = m.writable;
                same = SameFile_trans s r t o.same m.same;
                indexes = m.indexes ∙ ap (indexes_with index) o.indexes;
                files = m.files;
              },
            );
          }

  -- A chunk of the right length for its place, for a session that is still open, is taken whether
  -- or not it was sent before: `writeChunk` returns its index, the index is among those received,
  -- and the files are as the write left them.
  pub write_chunk_takes :
      (id : String) (index : ℕ) (chunk : List ℕ) (s : UploadStatus) (f' : v.temp.Fs) (w : World v)
      → same id "" ≡ false
      → is_empty chunk ≡ false
      → Current v cfg now id s w
      → now ≤ s.expires_at
      → is_writable s.state ≡ true
      → Accepted s index chunk
      → IsWelcome v cfg now index chunk
      → Deposited s index chunk w.fs f'
      → Returns
          (write_chunk v cfg now true id (some index) chunk)
          w
          (λ r u. (r.received_index ≡ index) × (t : UploadStatus) × Taken id s index f' t u)
  unfolding write_chunk run_chunk assert_chunk_length index_of with_store_lock
  write_chunk_takes id index chunk s f' w named filled c h wr a welcome d =
      Returns-pass (not (same id "")) _ _ w (rw named) (
        Returns-pass (not (is_empty chunk)) _ _ w (rw filled)
          (run_chunk_held id index chunk s f' w c h wr a welcome d))

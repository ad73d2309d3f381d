-- ===== src/Upload/Invariant.antt =====
-- `writeChunk` keeps all stored records well formed, on every path; `Opening` has the others.
use negare_api.Base.{
  ℕ, ◌*◌, ◌≡◌, refl, ◌∙◌, inl, inr, Bool, true, List, Option, none, some, String, arith, Bool-cases,
  Option-cases, ltb, ltb→lt, length, ◌==◌, ==_iff, includes,
}
use negare_api.Base.Triple.{
  Triple, Triple-bind, Triple-guard, Triple-pure, Triple-if, Triple-weaken, Triple-throw,
  Triple-given, Triple-check, Triple-state,
}
use negare_api.Upload.Types.{UploadStatus, no_change, UploadConfig}
use negare_api.Upload.Services.{Services}
use negare_api.Upload.Session.{
  World, assert_chunk_length, touch_session, expected_length, with_store_lock,
}
use negare_api.Upload.Chunk.{
  is_writable, write_bytes, record_chunk, indexes_with, bytes_with, run_chunk, store_chunk,
  write_chunk, index_of,
}
use negare_api.Upload.WellFormed.{WellFormed, Fits, FitsBytes, indexes_with-fits}
use negare_api.Upload.Geometry.{expected_length_bounds}
use negare_api.Upload.Tracking.{Safe, Gone, Tracked, patch_and_sync-Triple}
use negare_api.Upload.ChunkSteps.{
  Accepted, Current, Sniffed, must_get_active-Triple, begin_receiving-Triple, sniff_first-Triple,
  Safe-store,
}

bytes_with-fits :
    (s : UploadStatus) (index : ℕ) (chunk : List ℕ)
    → WellFormed s
    → Accepted s index chunk
    → FitsBytes s (some (bytes_with index chunk s))
unfolding bytes_with
bytes_with-fits s index chunk f a =
    let (_, _, inside) = expected_length_bounds s f index a.in_range in
    (omega arith, omega (arith, f.bytes, a.exact))

-- The patch that records a chunk.
pub chunk_patch-Fits :
    (s : UploadStatus) (index : ℕ) (chunk : List ℕ)
    → WellFormed s
    → Accepted s index chunk
    → Fits s (record no_change {
      received_bytes = some (bytes_with index chunk s);
      received_indexes = some (indexes_with index s.received_indexes);
    })
chunk_patch-Fits s index chunk f a = record {
  indexes = indexes_with-fits s index f a.in_range;
  bytes = bytes_with-fits s index chunk f a;
  mime = tt;
  same_user = refl;
  same_expiry = refl;
}

module _ (v : Services) (cfg : UploadConfig) (now : ℕ) where
  Gone-store :
      (id : String) (w w' : World v) → w'.store ≡ w.store → Gone v now id w → Gone v now id w'
  Gone-store id w w' e g = record { refused = λ version p. rw e (g.refused version p) }

  Tracked-store :
      (id : String) (s : UploadStatus) (w w' : World v)
      → w'.store ≡ w.store
      → Tracked v now id s w
      → Tracked v now id s w'
  Tracked-store id s w w' e t = record {
    safe = Safe-store v cfg now w w' e t.safe;
    formed = t.formed;
    held = elim t.held [ inl h ↦ inl (rw e h) | inr g ↦ inr (Gone-store id w w' e g) ];
  }

  write_bytes-Triple :
      (id : String) (index : ℕ) (chunk : List ℕ) (s : UploadStatus)
      → Triple
          (Tracked v now id s)
          (write_bytes v cfg now index chunk s)
          (λ _. Tracked v now id s)
          (Safe v now)
  unfolding write_bytes
  write_bytes-Triple id index chunk s = record {
    run = λ w t. elim (Bool-cases (includes s.received_indexes index)) [
      | inl old ↦ rw old t
      | inr new ↦
          elim (Option-cases (v.temp.write_at s.temp_path (index * s.chunk_size) chunk w.fs)) [
            | inl failed ↦ rw (new, failed, write_bytes) t.safe
            | inr (f, written) ↦
                rw (new, written, write_bytes) (Tracked-store id s w (record w { fs = f }) refl t)
          ]
    ];
  }

  record_chunk-Triple :
      (id : String) (index : ℕ) (chunk : List ℕ) (s : UploadStatus)
      → Accepted s index chunk
      → Triple
          (Tracked v now id s)
          (record_chunk v cfg now id index chunk s)
          (λ t w. Current v cfg now id t w)
          (Safe v now)
  unfolding record_chunk
  record_chunk-Triple id index chunk s a = record {
    run = λ w t.
        (Triple-weaken _ (λ _ q. q) (λ r u q. record { safe = q.2; formed = q.1; holds = q.3 })
            (patch_and_sync-Triple v now s id _ (chunk_patch-Fits s index chunk t.formed a))).run
          w t;
  }

  touch-Safe :
      (id : String) (ttl : ℕ) (w : World v)
      → Safe v now w
      → Safe v now (touch_session v now id ttl w)
  unfolding touch_session
  touch-Safe id ttl w safe = elim (Option-cases (v.store.touch now id ttl w.store)) [
    | inl missing ↦ rw (missing, touch_session) safe
    | inr (st, touched) ↦
        rw (touched, touch_session)
          (record {
            all =
                λ j s h. safe.all j s (rw (v.store.get-touch now id j ttl w.store st touched) at h);
          })
  ]

  -- Extending the lifetime leaves the session as it is.
  pub touch-Current :
      (id : String) (ttl : ℕ) (s : UploadStatus) (w : World v)
      → Current v cfg now id s w
      → Current v cfg now id s (touch_session v now id ttl w)
  unfolding touch_session
  touch-Current id ttl s w c = elim (Option-cases (v.store.touch now id ttl w.store)) [
    | inl missing ↦ rw (missing, touch_session) c
    | inr (st, touched) ↦
        rw (touched, touch_session)
          (record {
            safe = record {
              all = λ j t h.
                  c.safe.all j t (rw (v.store.get-touch now id j ttl w.store st touched) at h);
            };
            formed = c.formed;
            holds = v.store.get-touch now id id ttl w.store st touched ∙ c.holds;
          })
  ]

  store_chunk-Triple :
      (id : String) (index : ℕ) (chunk : List ℕ) (s : UploadStatus)
      → Accepted s index chunk
      → Triple
          (Current v cfg now id s)
          (store_chunk v cfg now id index chunk s)
          (λ _. Safe v now)
          (Safe v now)
  unfolding store_chunk
  store_chunk-Triple id index chunk s a =
      Triple-bind (Sniffed v cfg now id index chunk) _ _
        (sniff_first-Triple v cfg now id index chunk s a)
        λ t. Triple-given (Accepted t index chunk) _ λ b.
          Triple-bind (λ _. Tracked v now id t) _ _ (write_bytes-Triple id index chunk t)
            λ _.
              Triple-bind (Current v cfg now id) _ _ (record_chunk-Triple id index chunk t b)
                λ u. record { run = λ w c. touch-Safe id cfg.ttl_seconds w c.safe }

  run_chunk-Triple :
      (id : String) (index : ℕ) (chunk : List ℕ)
      → Triple (Safe v now) (run_chunk v cfg now id index chunk) (λ _. Safe v now) (Safe v now)
  unfolding run_chunk assert_chunk_length
  run_chunk-Triple id index chunk =
      Triple-bind (Current v cfg now id) _ _ (must_get_active-Triple v cfg now id) λ s.
        Triple-bind (λ _ w. Current v cfg now id s w × (is_writable s.state ≡ true)) _ _
          (Triple-guard (is_writable s.state) _ (λ w c. c.safe))
          λ _. Triple-given (is_writable s.state ≡ true) _ λ _.
            Triple-bind (Current v cfg now id) _ _ (begin_receiving-Triple v cfg now id s) λ r.
              Triple-bind (λ _ w. Current v cfg now id r w × (ltb index r.total_chunks ≡ true)) _ _
                (Triple-guard (ltb index r.total_chunks) _ (λ w c. c.safe))
                λ _. Triple-given (ltb index r.total_chunks ≡ true) _ λ near.
                  Triple-bind
                    (λ _ w.
                      Current v cfg now id r w × ((length chunk == expected_length r index) ≡ true))
                    _ _ (Triple-guard (length chunk == expected_length r index) _ (λ w c. c.safe))
                    λ _. Triple-given ((length chunk == expected_length r index) ≡ true) _ λ exact.
                      store_chunk-Triple id index chunk r
                        (record { in_range = ltb→lt _ _ near; exact = (==_iff _ _).0 exact })

  index_of-Triple :
      (o : Option ℕ) → Triple (Safe v now) (index_of v cfg now o) (λ _. Safe v now) (Safe v now)
  unfolding index_of
  index_of-Triple none = Triple-throw _ (λ w h. h)
  index_of-Triple (some i) = Triple-pure i (λ w h. h)

  write_chunk-Triple :
      (lock_won : Bool) (id : String) (index : Option ℕ) (chunk : List ℕ)
      → Triple
          (Safe v now)
          (write_chunk v cfg now lock_won id index chunk)
          (λ _. Safe v now)
          (Safe v now)
  unfolding write_chunk with_store_lock
  write_chunk-Triple lock_won id index chunk =
      Triple-bind (λ _. Safe v now) _ _ (Triple-check _ _)
        λ _.
          Triple-bind (λ _. Safe v now) _ _ (index_of-Triple index)
            λ i.
              Triple-bind (λ _. Safe v now) _ _ (Triple-check _ _)
                λ _.
                  Triple-if lock_won _ _ (λ _. run_chunk-Triple id i chunk)
                    (λ _. Triple-throw _ (λ w h. h))

  -- Any call of `writeChunk`, with any arguments and whether it returns or throws, leaves every
  -- status record that can be read well formed.
  pub write_chunk-Safe :
      (lock_won : Bool) (id : String) (index : Option ℕ) (chunk : List ℕ) (w : World v)
      → Safe v now w
      → Safe v now (write_chunk v cfg now lock_won id index chunk w).1
  write_chunk-Safe lock_won id index chunk =
      Triple-state _ (write_chunk-Triple lock_won id index chunk)

-- ===== src/Upload/Accept.antt =====
-- A chunk that passes the checks of `writeChunk` is taken: the call returns, the index is recorded
-- and the bytes are in the file.
use negare_api.Base.{
  ℕ, ◌≤◌, ◌≡◌, refl, sym, ◌∙◌, inl, inr, true, false, ◌&&◌, not, List, some, String, arith,
  Bool-cases, Option-cases, ltb, ◌==◌, ==_iff,
}
use negare_api.Base.Text.{Text, lower, text_eq}
use negare_api.Base.Returns.{Returns, Returns-catch}
use negare_api.Upload.Types.{UploadStatus, UploadState, Patch, UploadConfig}
use negare_api.Upload.Services.{Services}
use negare_api.Upload.Names.{is_empty, is_allowed_mime}
use negare_api.Upload.Session.{
  World, must_get_active, assert_not_expired, patch_and_sync, synced, expected_length,
}
use negare_api.Upload.Chunk.{begin_receiving, is_new, is_writable, sniff_first, sniff_found}
use negare_api.Upload.WellFormed.{Fits, synced-WellFormed}
use negare_api.Upload.Tracking.{patch_and_sync_held}
use negare_api.Upload.ChunkSteps.{Accepted, Current, state_patch-Fits, mime_patch-Fits}

-- What no chunk changes.
pub record SameFile (s t : UploadStatus) : Type 0 where
  pub size : t.size ≡ s.size
  pub chunk_size : t.chunk_size ≡ s.chunk_size
  pub total_chunks : t.total_chunks ≡ s.total_chunks
  pub temp_path : t.temp_path ≡ s.temp_path
  pub expires_at : t.expires_at ≡ s.expires_at

pub SameFile_trans : (s t u : UploadStatus) → SameFile s t → SameFile t u → SameFile s u
SameFile_trans s t u a b = record {
  size = b.size ∙ a.size;
  chunk_size = b.chunk_size ∙ a.chunk_size;
  total_chunks = b.total_chunks ∙ a.total_chunks;
  temp_path = b.temp_path ∙ a.temp_path;
  expires_at = b.expires_at ∙ a.expires_at;
}

pub expected_length-SameFile :
    (s t : UploadStatus) (i : ℕ) → SameFile s t → expected_length t i ≡ expected_length s i
unfolding expected_length
expected_length-SameFile s t i e = rw (e.size, e.chunk_size, e.total_chunks)

pub synced-SameFile : (s : UploadStatus) (p : Patch) → SameFile s (synced s p)
unfolding synced
synced-SameFile s p = record {
  size = refl;
  chunk_size = refl;
  total_chunks = refl;
  temp_path = refl;
  expires_at = refl;
}

pub Accepted-SameFile :
    (s t : UploadStatus) (i : ℕ) (chunk : List ℕ)
    → SameFile s t
    → Accepted s i chunk
    → Accepted t i chunk
Accepted-SameFile s t i chunk e a = record {
  in_range = rw e.total_chunks a.in_range;
  exact = a.exact ∙ sym (expected_length-SameFile s t i e);
}

module _ (v : Services) (cfg : UploadConfig) (now : ℕ) where
  -- The snapshot `t` of the session goes on from `s`, with the same indexes; the files are `f`.
  pub record Onward (id : String) (s : UploadStatus) (f : v.temp.Fs) (t : UploadStatus)
      (w : World v) : Type 0 where
    pub current : Current v cfg now id t w
    pub writable : is_writable t.state ≡ true
    pub same : SameFile s t
    pub indexes : t.received_indexes ≡ s.received_indexes
    pub files : w.fs ≡ f

  pub must_get_active_held :
      (id : String) (s : UploadStatus) (w : World v)
      → Current v cfg now id s w
      → now ≤ s.expires_at
      → is_writable s.state ≡ true
      → Returns (must_get_active v now id) w (λ t u. (t ≡ s) × (u ≡ w))
  unfolding must_get_active assert_not_expired
  must_get_active_held id s w c h _ = record {
    value = s;
    after = w;
    runs =
        let early : ltb s.expires_at now ≡ false = ground arith in
        rw (c.holds, must_get_active) (rw early);
    post = (refl, refl);
  }

  patched-Onward :
      (id : String) (s : UploadStatus) (p : Patch) (w : World v)
      → Current v cfg now id s w
      → Fits s p
      → (synced s p).received_indexes ≡ s.received_indexes
      → is_writable (synced s p).state ≡ true
      → Returns (patch_and_sync v now s id p) w (Onward id s w.fs)
  patched-Onward id s p w c fits idx wr =
      let (e, safe, holds) = patch_and_sync_held v now s id p w c.safe c.formed fits c.holds in
      record {
        value = synced s p;
        after = (patch_and_sync v now s id p w).1;
        runs = λ i. (e i, (patch_and_sync v now s id p w).1);
        post = record {
          current = record {
            safe = safe;
            formed = synced-WellFormed s p c.formed fits;
            holds = holds;
          };
          writable = wr;
          same = synced-SameFile s p;
          indexes = idx;
          files = unfold patch_and_sync in refl;
        };
      }

  stays :
      (id : String) (s : UploadStatus) (w : World v)
      → Current v cfg now id s w
      → is_writable s.state ≡ true
      → Onward id s w.fs s w
  stays id s w c wr = record {
    current = c;
    writable = wr;
    same = record {
      size = refl;
      chunk_size = refl;
      total_chunks = refl;
      temp_path = refl;
      expires_at = refl;
    };
    indexes = refl;
    files = refl;
  }

  pub begin_receiving_held :
      (id : String) (s : UploadStatus) (w : World v)
      → Current v cfg now id s w
      → is_writable s.state ≡ true
      → Returns (begin_receiving v cfg now id s) w (Onward id s w.fs)
  unfolding begin_receiving is_writable
  begin_receiving_held id s w c wr = elim (Bool-cases (is_new s.state)) [
    | inl fresh ↦ rw fresh (
        patched-Onward id s _ w c (state_patch-Fits s UploadState.receiving) (unfold synced in refl)
          (unfold synced in refl))
    | inr old ↦ rw old (record { value = s; after = w; runs = refl; post = stays id s w c wr })
  ]

  -- The content of a first chunk that the allow list does not refuse.
  abbrev pub IsWelcome : ℕ → List ℕ → Type 0
  IsWelcome index chunk =
      (mime : Text)
      → index ≡ 0
      → v.sniff_buffer chunk ≡ some mime
      → is_allowed_mime cfg (lower mime) ≡ true

  sniff_found_held :
      (id : String) (s : UploadStatus) (detected : Text) (w : World v)
      → Current v cfg now id s w
      → is_writable s.state ≡ true
      → is_allowed_mime cfg detected ≡ true
      → Returns (sniff_found v cfg now id s detected) w (Onward id s w.fs)
  unfolding sniff_found
  sniff_found_held id s detected w c wr welcome =
      let fine : (not (is_empty detected) && not (is_allowed_mime cfg detected)) ≡ false =
        ground arith in
      elim (Bool-cases (not (is_empty detected) && not (text_eq detected s.mime))) [
        | inl other ↦
            rw (fine, other)
              (patched-Onward id s _ w c (mime_patch-Fits s detected (ground arith))
                (unfold synced in refl) (unfold synced in wr))
        | inr kept ↦
            rw (fine, kept) (record { value = s; after = w; runs = refl; post = stays id s w c wr })
      ]

  pub sniff_first_held :
      (id : String) (index : ℕ) (chunk : List ℕ) (s : UploadStatus) (w : World v)
      → Current v cfg now id s w
      → is_writable s.state ≡ true
      → IsWelcome index chunk
      → Returns (sniff_first v cfg now id index chunk s) w (Onward id s w.fs)
  unfolding sniff_first
  sniff_first_held id index chunk s w c wr welcome = elim (Bool-cases (index == 0)) [
    | inl first ↦ elim (Option-cases (v.sniff_buffer chunk)) [
      | inl unknown ↦
          rw (first, unknown, sniff_first)
            (record { value = s; after = w; runs = refl; post = stays id s w c wr })
      | inr (mime, found) ↦
          rw (first, found, sniff_first)
            (Returns-catch _ _ w (
              sniff_found_held id s (lower mime) w c wr
                (welcome mime ((==_iff index 0).0 first) found)))
    ]
    | inr later ↦ rw later (record { value = s; after = w; runs = refl; post = stays id s w c wr })
  ]

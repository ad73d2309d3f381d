-- ===== src/Upload/Assembled.antt =====
-- The file after all chunks were sent.
use negare_api.Base.{
  ℕ, zero, suc, ◌+◌, ◌-◌, ◌*◌, ◌/◌, ◌≤◌, ◌<◌, ◌≡◌, refl, sym, ◌∙◌, ap, inl, inr, true, false, ◌||◌,
  ◌↔◌, List, [], ◌∷◌, some, String, arith, Bool-cases, length, includes, ◌==◌,
}
use negare_api.Base.Exec.{ok}
use negare_api.Base.Returns.{Returns, Returns-bind}
use negare_api.Upload.Types.{UploadStatus, UploadConfig}
use negare_api.Upload.Services.{Services}
use negare_api.Upload.Names.{is_empty}
use negare_api.Upload.Session.{World, expected_length, assert_all_chunks_received}
use negare_api.Upload.Chunk.{write_chunk, indexes_with, is_writable}
use negare_api.Upload.Geometry.{covers, expected_length_bounds}
use negare_api.Upload.ChunkSteps.{Accepted, Current}
use negare_api.Upload.Accept.{SameFile, SameFile_trans, expected_length-SameFile, IsWelcome}
use negare_api.Upload.Taken.{Taken, Deposited, write_chunk_takes}
use negare_api.Upload.Completeness.{
  includes-indexes_with, includes-indexes_with_self, indexes_with_old,
  assert_all_chunks_received_iff,
}
use negare_api.Upload.Assembly.{chunk_of, chunk_length, send_chunks, Going, Works, new_bytes}

module _ (v : Services) (cfg : UploadConfig) (now : ℕ) (id : String) (s : UploadStatus)
    (content : ℕ → ℕ) (works : Works v cfg now id s content) where
  Next : UploadStatus → ℕ → World v → Type 0
  Next t i u =
      (t' : UploadStatus) × Going v cfg now id s content t' u
      × (t'.received_indexes ≡ indexes_with i t.received_indexes)

  accepted :
      (i : ℕ) (t : UploadStatus)
      → i < s.total_chunks
      → SameFile s t
      → Accepted t i (chunk_of s content i)
  accepted i t h e = record {
    in_range = rw e.total_chunks h;
    exact = chunk_length v cfg now id s content i ∙ sym (expected_length-SameFile s t i e);
  }

  not_empty : (i : ℕ) → i < s.total_chunks → is_empty (chunk_of s content i) ≡ false
  not_empty i h =
      let (some_, _, _) = expected_length_bounds s works.formed i h in
      elim_list (chunk_of s content i) (omega (arith, chunk_length v cfg now id s content i))
    where
      elim_list : (xs : List ℕ) → 0 < length xs → is_empty xs ≡ false
      elim_list [] h = absurd (omega arith)
      elim_list (x ∷ xs) h = refl

  IsWelcome-chunk_of : (i : ℕ) → IsWelcome v cfg now i (chunk_of s content i)
  IsWelcome-chunk_of zero = works.welcome
  IsWelcome-chunk_of (suc i) = λ mime h _. absurd (omega arith)

  -- What a taken chunk leaves, from the files that its write left.
  Taken-Going :
      (t t' : UploadStatus) (i : ℕ) (f' : v.temp.Fs) (w u : World v)
      → i < s.total_chunks
      → Going v cfg now id s content t w
      → Deposited v cfg now t i (chunk_of s content i) w.fs f'
      → Taken v cfg now id t i f' t' u
      → Going v cfg now id s content t' u
  Taken-Going t t' i f' w u h g d k = record {
    current = k.current;
    writable = k.writable;
    same = SameFile_trans s t t' g.same k.same;
    on_disk = rw k.files sized;
    bytes = λ j n hj m hn. rw k.files (held j n hj (rw k.indexes at m) hn);
  }
    where
      fits : i * s.chunk_size + length (chunk_of s content i) ≤ s.size
      fits =
          let (_, _, inside) = expected_length_bounds s works.formed i h in
          omega (arith, chunk_length v cfg now id s content i)

      here :
          (e : v.temp.write_at t.temp_path (i * t.chunk_size) (chunk_of s content i) w.fs ≡ some f')
          → v.temp.write_at s.temp_path (i * s.chunk_size) (chunk_of s content i) w.fs ≡ some f'
      here e = rw (g.same.temp_path, g.same.chunk_size) at e

      sized : v.temp.size s.temp_path f' ≡ some s.size
      sized = elim d [
        | inl (_, e) ↦ rw e g.on_disk
        | inr (_, e) ↦
            v.temp.size-write_at s.temp_path s.temp_path (i * s.chunk_size) s.size _ w.fs f'
              (here e) g.on_disk fits
      ]

      held :
          (j n : ℕ)
          → j < s.total_chunks
          → includes (indexes_with i t.received_indexes) j ≡ true
          → n < expected_length s j
          → v.temp.byte s.temp_path (j * s.chunk_size + n) f'
            ≡ some (content (j * s.chunk_size + n))
      held j n hj m hn = elim d [
        | inl (old, e) ↦
            rw e (g.bytes j n hj (rw (indexes_with_old i t.received_indexes old) at m) hn)
        | inr (new, e) ↦
            new_bytes v cfg now id s content works i t.received_indexes w.fs f' h new (here e)
              g.bytes j n hj m hn
      ]

  deposit :
      (i : ℕ) (t : UploadStatus) (w : World v)
      → i < s.total_chunks
      → Going v cfg now id s content t w
      → (f' : v.temp.Fs) × Deposited v cfg now t i (chunk_of s content i) w.fs f'
  deposit i t w h g = elim (Bool-cases (includes t.received_indexes i)) [
    | inl old ↦ (w.fs, inl (old, refl))
    | inr new ↦
        let (_, _, inside) = expected_length_bounds s works.formed i h in
        let (f', e) =
          works.disk s.temp_path (i * s.chunk_size) s.size (chunk_of s content i) w.fs g.on_disk
            (omega (arith, chunk_length v cfg now id s content i)) in
        (f', inr (new, rw (g.same.temp_path, g.same.chunk_size) e))
  ]

  send_one :
      (i : ℕ) (t : UploadStatus) (w : World v)
      → i < s.total_chunks
      → Going v cfg now id s content t w
      → Returns
          (write_chunk v cfg now true id (some i) (chunk_of s content i))
          w
          (λ _ u. Next t i u)
  unfolding Next
  send_one i t w h g =
      let (f', d) = deposit i t w h g in
      let r =
        write_chunk_takes v cfg now id i (chunk_of s content i) t f' w works.named (not_empty i h)
          g.current (rw g.same.expires_at works.open_still) g.writable (accepted i t h g.same)
          (IsWelcome-chunk_of i) d in
      let (_, t', k) = r.post in
      record {
        value = r.value;
        after = r.after;
        runs = r.runs;
        post = (t', Taken-Going t t' i f' w r.after h g d k, k.indexes);
      }

  -- After the calls every index of the list is received, with those from before.
  abbrev Sent : UploadStatus → List ℕ → World v → Type 0
  Sent t order u =
      (t' : UploadStatus) × Going v cfg now id s content t' u
      × ((n : ℕ)
          → (includes t.received_indexes n || includes order n) ≡ true
          → includes t'.received_indexes n ≡ true)

  send_chunks_held :
      (order : List ℕ) (t : UploadStatus) (w : World v)
      → ((n : ℕ) → includes order n ≡ true → n < s.total_chunks)
      → Going v cfg now id s content t w
      → Returns (send_chunks v cfg now id s content order) w (λ _ u. Sent t order u)
  unfolding send_chunks Next
  send_chunks_held [] t w below g = record {
    value = tt;
    after = w;
    runs = refl;
    post = (t, g, λ n h. ground arith);
  }
  send_chunks_held (i ∷ rest) t w below g =
      Returns-bind (λ _ u. Next t i u) _ _ w (send_one i t w (below i (ground arith)) g)
        λ _ u (t', g', e).
          let r = send_chunks_held rest t' u (λ n h. below n (ground arith)) g' in
          let (t'', g'', all) = r.post in
          record {
            value = r.value;
            after = r.after;
            runs = r.runs;
            post = (t'', g'', λ n h. all n (kept t' i n e h));
          }
    where
      kept :
          (t' : UploadStatus) (i n : ℕ)
          → t'.received_indexes ≡ indexes_with i t.received_indexes
          → (includes t.received_indexes n || (i == n || includes rest n)) ≡ true
          → (includes t'.received_indexes n || includes rest n) ≡ true
      kept t' i n e h = rw e (
          ground (
            arith,
            includes-indexes_with n i t.received_indexes,
            includes-indexes_with_self i t.received_indexes,
          ))

  untouched :
      (w : World v)
      → Current v cfg now id s w
      → is_writable s.state ≡ true
      → s.received_indexes ≡ []
      → v.temp.size s.temp_path w.fs ≡ some s.size
      → Going v cfg now id s content s w
  untouched w c wr fresh disk = record {
    current = c;
    writable = wr;
    same = record {
      size = refl;
      chunk_size = refl;
      total_chunks = refl;
      temp_path = refl;
      expires_at = refl;
    };
    on_disk = disk;
    bytes = λ i k h m. absurd (cc (m, ap (λ xs. includes xs i) fresh));
  }

  -- With every chunk received, the bytes of the file are those of the content.
  byte_at :
      (t : UploadStatus) (u : World v)
      → Going v cfg now id s content t u
      → ((i : ℕ) → i < s.total_chunks → includes t.received_indexes i ≡ true)
      → (j : ℕ) → j < s.size
      → v.temp.byte s.temp_path j u.fs ≡ some (content j)
  byte_at t u g whole j h =
      let i = j / s.chunk_size in
      let (near, low, high) = covers s works.formed j h in
      let back : i * s.chunk_size + (j - i * s.chunk_size) ≡ j = omega arith in
      rw back at (g.bytes i (j - i * s.chunk_size) near (whole i near) (omega arith))

-- A client sends the chunks of a content in any order, each at least once and all at one time, to a
-- new session with an id, which is not expired and whose temporary file has its size, in a store of
-- well formed records. Where the lock is got each time, every write within that file goes through, and the type
-- found in the first chunk, if any, is not refused, each call returns; the session then passes the
-- check for completeness, and each byte of the temporary file is the byte of the content.
pub send_chunks_assemble :
    (v : Services) (cfg : UploadConfig) (now : ℕ) (id : String) (s : UploadStatus) (content : ℕ → ℕ)
    (order : List ℕ) (w : World v)
    → Works v cfg now id s content
    → Current v cfg now id s w
    → is_writable s.state ≡ true
    → s.received_indexes ≡ []
    → v.temp.size s.temp_path w.fs ≡ some s.size
    → ((n : ℕ) → (includes order n ≡ true) ↔ (n < s.total_chunks))
    → Returns (send_chunks v cfg now id s content order) w (λ _ u.
      (t : UploadStatus) × (v.store.get now id u.store ≡ some t)
      × (assert_all_chunks_received t ≡ ok tt)
      × ((j : ℕ) → j < s.size → v.temp.byte s.temp_path j u.fs ≡ some (content j)))
send_chunks_assemble v cfg now id s content order w works c wr fresh disk covered =
    let start = untouched v cfg now id s content works w c wr fresh disk in
    let r = send_chunks_held v cfg now id s content works order s w (λ n. (covered n).0) start in
    let (t, g, all) = r.post in
    let whole : (i : ℕ) → i < s.total_chunks → includes t.received_indexes i ≡ true =
      λ i h. all i (ground (arith, (covered i).1 h)) in
    record {
      value = r.value;
      after = r.after;
      runs = r.runs;
      post = (
        t,
        g.current.holds,
        (assert_all_chunks_received_iff t g.current.formed).1
            (λ i h. whole i (rw (← g.same.total_chunks) h)),
        λ j h. byte_at v cfg now id s content works t r.after g whole j h,
      );
    }

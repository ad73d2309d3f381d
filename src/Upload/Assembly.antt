-- ===== src/Upload/Assembly.antt =====
-- A client that sends the chunks of a content, in any order and any number of times.
use negare_api.Base.{
  ℕ, zero, suc, ◌+◌, ◌-◌, ◌*◌, ◌≤◌, ◌<◌, ◌≡◌, refl, sym, ◌∙◌, ap, inl, inr, Bool, true, false, ◌&&◌,
  List, [], ◌∷◌, some, String, arith, Bool-cases, length, includes, same, get_elem?, if◌then◌else◌,
  leb, ltb,
}
use negare_api.Base.Text.{Text, text_eq_refl}
use negare_api.Base.Exec.{pure, ◌>>=◌}
use negare_api.Upload.Types.{UploadStatus, UploadConfig}
use negare_api.Upload.Services.{Services}
use negare_api.Upload.Session.{World, Method, expected_length}
use negare_api.Upload.Chunk.{write_chunk, indexes_with, is_writable}
use negare_api.Upload.WellFormed.{WellFormed}
use negare_api.Upload.Geometry.{covers_once}
use negare_api.Upload.ChunkSteps.{Current}
use negare_api.Upload.Accept.{SameFile, IsWelcome}
use negare_api.Upload.Completeness.{includes-indexes_with_inv}

slice : (ℕ → ℕ) → (from len : ℕ) → List ℕ
slice content from zero = []
slice content from (suc len) = content from ∷ slice content (suc from) len

length-slice : (content : ℕ → ℕ) (from len : ℕ) → length (slice content from len) ≡ len
unfolding slice
length-slice content from zero = refl
length-slice content from (suc len) = omega (arith, length-slice content (suc from) len)

get_elem?-slice :
    (content : ℕ → ℕ) (from len k : ℕ)
    → k < len
    → get_elem? (slice content from len) k ≡ some (content (from + k))
unfolding slice
get_elem?-slice content from zero k h = absurd (omega arith)
get_elem?-slice content from (suc len) zero h = ap (λ n. some (content n)) (omega arith)
get_elem?-slice content from (suc len) (suc k) h =
    get_elem?-slice content (suc from) len k (omega arith)
    ∙ ap (λ n. some (content n)) (omega arith)

-- The chunk of a content at an index.
unfoldable pub chunk_of : UploadStatus → (ℕ → ℕ) → ℕ → List ℕ
unfolding slice
chunk_of s content i = slice content (i * s.chunk_size) (expected_length s i)

module _ (v : Services) (cfg : UploadConfig) (now : ℕ) (id : String) (s : UploadStatus)
    (content : ℕ → ℕ) where
  -- The client: one call of `writeChunk` for each index of its list.
  unfoldable pub send_chunks : List ℕ → Method v (Unit {0})
  send_chunks [] = pure tt
  send_chunks (i ∷ rest) = do
    _ ← write_chunk v cfg now true id (some i) (chunk_of s content i)
    send_chunks rest

  -- What is received of the content is in the file.
  pub record Going (t : UploadStatus) (w : World v) : Type 0 where
    pub current : Current v cfg now id t w
    pub writable : is_writable t.state ≡ true
    pub same : SameFile s t
    pub on_disk : v.temp.size s.temp_path w.fs ≡ some s.size
    pub bytes :
        (i k : ℕ)
        → i < s.total_chunks
        → includes t.received_indexes i ≡ true
        → k < expected_length s i
        → v.temp.byte s.temp_path (i * s.chunk_size + k) w.fs
          ≡ some (content (i * s.chunk_size + k))

  -- The session is not expired, a write within an existing file goes through, and the type found in the
  -- first chunk, if any, is not refused.
  pub record Works : Type 0 where
    pub named : same id "" ≡ false
    pub open_still : now ≤ s.expires_at
    pub formed : WellFormed s
    pub disk :
        (path : Text) (offset n : ℕ) (buf : List ℕ) (f : v.temp.Fs)
        → v.temp.size path f ≡ some n
        → offset + length buf ≤ n
        → (f' : v.temp.Fs) × (v.temp.write_at path offset buf f ≡ some f')
    pub welcome : IsWelcome v cfg now 0 (chunk_of s content 0)

  pub chunk_length : (i : ℕ) → length (chunk_of s content i) ≡ expected_length s i
  unfolding chunk_of
  chunk_length i = length-slice content (i * s.chunk_size) (expected_length s i)

  chunk_byte :
      (i k : ℕ)
      → k < expected_length s i
      → get_elem? (chunk_of s content i) (i * s.chunk_size + k - i * s.chunk_size)
        ≡ some (content (i * s.chunk_size + k))
  unfolding chunk_of
  chunk_byte i k h =
      let back : i * s.chunk_size + k - i * s.chunk_size ≡ k = omega arith in
      rw back (get_elem?-slice content (i * s.chunk_size) (expected_length s i) k h)

  abbrev pos : ℕ → ℕ → ℕ
  pos i k = i * s.chunk_size + k

  -- The place of a byte, as the law of the write tests it.
  inside : ℕ → ℕ → ℕ → Bool
  inside i j k =
      leb (i * s.chunk_size) (pos j k)
      && ltb (pos j k) (i * s.chunk_size + length (chunk_of s content i))

  inside_own : (i k : ℕ) → k < expected_length s i → inside i i k ≡ true
  unfolding inside
  inside_own i k h = let len = chunk_length i in ground arith

  inside_only :
      (i j k : ℕ)
      → WellFormed s
      → i < s.total_chunks
      → j < s.total_chunks
      → k < expected_length s j
      → inside i j k ≡ true
      → i ≡ j
  unfolding inside
  inside_only i j k w hi hj h e =
      let len = chunk_length i in
      covers_once s w i (pos j k) hi (ground arith) (ground arith)
      ∙ sym (covers_once s w j (pos j k) hj (omega arith) (omega arith))

  written_byte :
      (i j k : ℕ) (f f' : v.temp.Fs)
      → v.temp.write_at s.temp_path (i * s.chunk_size) (chunk_of s content i) f ≡ some f'
      → v.temp.byte s.temp_path (pos j k) f' ≡ (
          if inside i j k
          then get_elem? (chunk_of s content i) (pos j k - i * s.chunk_size)
          else v.temp.byte s.temp_path (pos j k) f)
  unfolding inside
  written_byte i j k f f' e =
      v.temp.byte-write_at s.temp_path s.temp_path (i * s.chunk_size) (pos j k)
        (chunk_of s content i) f f' e
      ∙ rw (text_eq_refl s.temp_path)

  module _ (ok_ : Works) where
    -- The bytes of the chunks received stay, and those of the new chunk are there.
    pub new_bytes :
        (i : ℕ) (xs : List ℕ) (f f' : v.temp.Fs)
        → i < s.total_chunks
        → includes xs i ≡ false
        → v.temp.write_at s.temp_path (i * s.chunk_size) (chunk_of s content i) f ≡ some f'
        → ((j k : ℕ)
            → j < s.total_chunks
            → includes xs j ≡ true
            → k < expected_length s j
            → v.temp.byte s.temp_path (pos j k) f ≡ some (content (pos j k)))
        → (j k : ℕ) → j < s.total_chunks
        → includes (indexes_with i xs) j ≡ true
        → k < expected_length s j
        → v.temp.byte s.temp_path (pos j k) f' ≡ some (content (pos j k))
    new_bytes i xs f f' hi new e old j k hj m h = elim (Bool-cases (inside i j k)) [
      | inl here ↦
          let own : i ≡ j = inside_only i j k ok_.formed hi hj h here in
          written_byte i j k f f' e ∙ rw here (rw own (chunk_byte j k h))
      | inr there ↦ elim (Bool-cases (includes xs j)) [
        | inl before ↦ written_byte i j k f f' e ∙ rw there (old j k hj before h)
        | inr fresh ↦
            let own : i ≡ j = includes-indexes_with_inv j i xs m fresh in
            absurd (cc (there, ap (λ (n : ℕ). inside i n k) own, inside_own i k (rw own h)))
      ]
    ]

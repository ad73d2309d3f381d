-- ===== src/Upload/Disk.antt =====
-- The interface of the temporary files is met by files in memory.
use mathlib.Core.Option.{some-injective}
use negare_api.Base.{
  ℕ, ◌+◌, ◌-◌, ◌≤◌, ◌≡◌, sym, ◌∙◌, ap, subst, ◌&&◌, List, Option, none, some, if◌then◌else◌, ltb,
  leb, max, length, get_elem?, arith, Bool-cases, Option-cases, inl, inr,
}
use negare_api.Base.Text.{Text, text_eq, text_eq-eq, text_eq_refl}
use negare_api.Upload.Services.{TempFs}

-- The size of a file and its bytes.
abbrev pub Disk : Type 0
Disk = Text → Option (ℕ × (ℕ → Option ℕ))

abbrev pub put : Text → ℕ × (ℕ → Option ℕ) → Disk → Disk
put path file f q = if text_eq path q then some file else f q

abbrev pub written : ℕ → List ℕ → (ℕ → Option ℕ) → ℕ → Option ℕ
written offset buf g j =
    if leb offset j && ltb j (offset + length buf) then get_elem? buf (j - offset) else g j

abbrev pub write_file : Text → ℕ → List ℕ → Disk → Option Disk
write_file path offset buf f = elim (f path) [
  | none ↦ none
  | some (n, g) ↦ some (put path (max n (offset + length buf), written offset buf g) f)
]

abbrev pub file_size : Option (ℕ × (ℕ → Option ℕ)) → Option ℕ
file_size none = none
file_size (some (n, g)) = some n

abbrev pub file_byte : ℕ → Option (ℕ × (ℕ → Option ℕ)) → Option ℕ
file_byte j none = none
file_byte j (some (n, g)) = g j

abbrev pub drop : Text → Disk → Disk
drop path f q = if text_eq path q then none else f q

pub byte-write_file :
    (path other : Text) (offset j : ℕ) (buf : List ℕ) (f f' : Disk)
    → write_file path offset buf f ≡ some f'
    → file_byte j (f' other) ≡ (
        if text_eq path other && (leb offset j && ltb j (offset + length buf))
        then get_elem? buf (j - offset)
        else file_byte j (f other))
byte-write_file path other offset j buf f f' h = elim (Option-cases (f path)) [
  | inl missing ↦ absurd (cc (rw (missing, write_file) at h))
  | inr ((n, g), there) ↦
      let wrote = some-injective _ _ (rw (there, write_file) at h) in
      subst
        (λ (u : Disk). file_byte j (u other) ≡ (
          if text_eq path other && (leb offset j && ltb j (offset + length buf))
          then get_elem? buf (j - offset)
          else file_byte j (f other)))
        wrote
        (elim (Bool-cases (text_eq path other)) [
          | inl here ↦ rw (here, sym (text_eq-eq path other here), there)
          | inr elsewhere ↦ rw elsewhere
        ])
]

pub size-write_file :
    (path other : Text) (offset n : ℕ) (buf : List ℕ) (f f' : Disk)
    → write_file path offset buf f ≡ some f'
    → file_size (f other) ≡ some n
    → offset + length buf ≤ n
    → file_size (f' other) ≡ some n
size-write_file path other offset n buf f f' h e fits = elim (Option-cases (f path)) [
  | inl missing ↦ absurd (cc (rw (missing, write_file) at h))
  | inr ((m, g), there) ↦
      let wrote = some-injective _ _ (rw (there, write_file) at h) in
      subst (λ (u : Disk). file_size (u other) ≡ some n) wrote
        (elim (Bool-cases (text_eq path other)) [
          | inl here ↦
              let known : file_size (f path) ≡ some n =
                ap (λ q. file_size (f q)) (text_eq-eq path other here) ∙ e in
              let same_size : m ≡ n = some-injective m n (rw there at known) in
              rw here (ap some (omega arith))
          | inr elsewhere ↦ rw elsewhere e
        ])
]

pub write_file_missing :
    (path : Text) (offset : ℕ) (buf : List ℕ) (f : Disk)
    → file_size (f path) ≡ none
    → write_file path offset buf f ≡ none
write_file_missing path offset buf f h = elim (Option-cases (f path)) [
  | inl missing ↦ rw (missing, write_file)
  | inr ((n, g), there) ↦ absurd (cc (rw there at h))
]

pub size-drop :
    (path : Text) (f f' : Disk) → some (drop path f) ≡ some f' → file_size (f' path) ≡ none
size-drop path f f' h =
    subst (λ (u : Disk). file_size (u path) ≡ none) (some-injective _ _ h) (rw (text_eq_refl path))

pub size-put :
    (path : Text) (n : ℕ) (f f' : Disk)
    → some (put path (n, λ _. some 0) f) ≡ some f'
    → file_size (f' path) ≡ some n
size-put path n f f' h =
    subst (λ (u : Disk). file_size (u path) ≡ some n) (some-injective _ _ h)
      (rw (text_eq_refl path))

abbrev pub memory_files : TempFs
memory_files = record {
  Fs = Disk;
  create_sparse = λ path n f. some (put path (n, λ _. some 0) f);
  write_at = write_file;
  remove = λ path f. some (drop path f);
  size = λ path f. file_size (f path);
  byte = λ path j f. file_byte j (f path);
  byte-write_at = byte-write_file;
  write_at_missing = write_file_missing;
  size-write_at = size-write_file;
  size-remove = size-drop;
  size-create_sparse = size-put;
}

-- A write to a file that is there goes through.
pub write_file_there :
    (path : Text) (offset n : ℕ) (buf : List ℕ) (f : Disk)
    → file_size (f path) ≡ some n
    → offset + length buf ≤ n
    → (f' : Disk) × (write_file path offset buf f ≡ some f')
write_file_there path offset n buf f h fits = elim (Option-cases (f path)) [
  | inl missing ↦ absurd (cc (rw missing at h))
  | inr ((m, g), there) ↦
      (put path (max m (offset + length buf), written offset buf g) f, rw (there, write_file))
]

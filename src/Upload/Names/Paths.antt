-- ===== src/Upload/Names/Paths.antt =====
-- The directory of a remote path stays below its root: `normalizeSubdir`.
use mathlib.Core.List.{reverse, reverse_aux}
use negare_api.Base.{
  ℕ, ◌≡◌, refl, Bool, true, false, ◌||◌, not, List, [], ◌∷◌, ◌++◌, map, if◌then◌else◌, ◌==◌, ==_iff,
  filter, all, includes, arith, Bool-cases, inl, inr,
}
use negare_api.Base.Text.{Text, codes, trim, trim_start, split, join, onto_first, is_space, text_eq}
use negare_api.Upload.Names.{
  is_empty, sanitize_path_segments, normalize_subdir, is_plain_segment, slash_unit,
}

abbrev is_free : ℕ → Text → Bool
is_free sep t = not (includes t sep)

onto_first-free :
    (sep c : ℕ) (ps : List Text)
    → c == sep ≡ false
    → all (is_free sep) ps ≡ true
    → all (is_free sep) (onto_first c ps) ≡ true
onto_first-free sep c [] ne h = ground arith
onto_first-free sep c (p ∷ ps) ne h = ground arith

split-free : (sep : ℕ) (t : Text) → all (is_free sep) (split sep t) ≡ true
unfolding split
split-free sep [] = refl
split-free sep (c ∷ t) = elim (Bool-cases (c == sep)) [
  | inl here ↦ rw here (split-free sep t)
  | inr other ↦ rw other (onto_first-free sep c (split sep t) other (split-free sep t))
]

includes-trim_start : (t : Text) (n : ℕ) → includes t n ≡ false → includes (trim_start t) n ≡ false
unfolding trim_start
includes-trim_start [] n h = refl
includes-trim_start (c ∷ t) n h = elim (Bool-cases (is_space c)) [
  | inl space ↦ rw (trim_start, space) (includes-trim_start t n (ground arith))
  | inr visible ↦ rw (trim_start, visible) h
]

includes-reverse_aux :
    (t r : Text) (n : ℕ) → includes (reverse_aux t r) n ≡ includes t n || includes r n
includes-reverse_aux [] r n = refl
includes-reverse_aux (c ∷ t) r n = ground (arith, includes-reverse_aux t (c ∷ r) n)

includes-reverse : (t : Text) (n : ℕ) → includes t n ≡ false → includes (reverse t) n ≡ false
includes-reverse t n h = ground (arith, includes-reverse_aux t [] n)

trim-free : (sep : ℕ) (t : Text) → is_free sep t ≡ true → is_free sep (trim t) ≡ true
unfolding trim
trim-free sep t h =
    let front = includes-reverse (trim_start t) sep (includes-trim_start t sep (ground arith)) in
    let back = includes-reverse _ sep (includes-trim_start (reverse (trim_start t)) sep front) in
    rw back

all_map-trim :
    (sep : ℕ) (ps : List Text)
    → all (is_free sep) ps ≡ true
    → all (is_free sep) (map trim ps) ≡ true
all_map-trim sep [] h = refl
all_map-trim sep (p ∷ ps) h =
    ground (arith, trim-free sep p (ground arith), all_map-trim sep ps (ground arith))

all_filter : (p q : Text → Bool) (ps : List Text) → all q ps ≡ true → all q (filter p ps) ≡ true
all_filter p q [] h = refl
all_filter p q (t ∷ ps) h = ground (arith, all_filter p q ps (ground arith))

filter-all : (p : Text → Bool) (ps : List Text) → all p (filter p ps) ≡ true
filter-all p [] = refl
filter-all p (t ∷ ps) = ground (arith, filter-all p ps)

split_single : (sep : ℕ) (p : Text) → is_free sep p ≡ true → split sep p ≡ p ∷ []
unfolding split
split_single sep [] h = refl
split_single sep (c ∷ p) h =
    let other : c == sep ≡ false = ground arith in rw (other, split_single sep p (ground arith))

split-append :
    (sep : ℕ) (p t : Text) → is_free sep p ≡ true → split sep (p ++ (sep ∷ t)) ≡ p ∷ split sep t
unfolding split
split-append sep [] t h = rw ((==_iff sep sep).1 refl)
split-append sep (c ∷ p) t h =
    let other : c == sep ≡ false = ground arith in rw (other, split-append sep p t (ground arith))

-- Parts without the separator come back from the text they are joined to.
split-join :
    (sep : ℕ) (p : Text) (ps : List Text)
    → all (is_free sep) (p ∷ ps) ≡ true
    → split sep (join (sep ∷ []) (p ∷ ps)) ≡ p ∷ ps
unfolding join
split-join sep p [] h = split_single sep p (ground arith)
split-join sep p (q ∷ ps) h = rw (
  split-append sep p (join (sep ∷ []) (q ∷ ps)) (ground arith),
  split-join sep q ps (ground arith),
)

segments-free : (input : Text) → all (is_free b'/') (sanitize_path_segments input) ≡ true
unfolding sanitize_path_segments
segments-free input =
    let parts = split b'/' (map slash_unit input) in
    all_filter is_plain_segment (is_free b'/') (map trim parts)
      (all_map-trim b'/' parts (split-free b'/' (map slash_unit input)))

segments_plain : (input : Text) → all is_plain_segment (sanitize_path_segments input) ≡ true
unfolding sanitize_path_segments
segments_plain input = filter-all is_plain_segment (map trim (split b'/' (map slash_unit input)))

subdir_parts :
    (ps : List Text)
    → all (is_free b'/') ps ≡ true
    → all is_plain_segment ps ≡ true
    → all is_plain_segment
        (split b'/' (if is_empty ps then codes "uploads" else join (codes "/") ps))
      ≡ true
unfolding split text_eq
subdir_parts [] free plain = refl
subdir_parts (p ∷ ps) free plain = rw (split-join b'/' p ps free) plain

-- Whatever directory the client asks for, the directory that is used has between its slashes no
-- empty name, no `.` and no `..`.
pub normalize_subdir_plain :
    (input : Text) → all is_plain_segment (split b'/' (normalize_subdir input)) ≡ true
unfolding normalize_subdir
normalize_subdir_plain input =
    subdir_parts (sanitize_path_segments input) (segments-free input) (segments_plain input)

-- ===== src/Catalog/Keyset/Complete.antt =====
-- Reading page after page shows each row once.
use negare_api.Base.{
  ℕ, zero, suc, ◌+◌, ◌<◌, ◌≡◌, refl, sym, ap, ◌∙◌, subst, Bool, true, false, List, [], ◌∷◌, ◌++◌,
  Option, none, some, String, ◌==◌, ==_iff, arith, Bool-cases, inl, inr, length, length-append,
  filter, take, last?,
}
use mathlib.Core.List.{append_assoc}
use negare_api.Catalog.Keyset.{
  Cursor, CursorCodec, fits, newest_first, page_size, decode, list_for_user, read_all,
}
use negare_api.Catalog.Keyset.Order.{
  Strict, Distinct, count, newest_first-Strict, count-newest_first, length-newest_first,
  filter_past,
}

module _ {A : Type 0} where
  abbrev rest : ℕ → List A → List A
  rest zero xs = xs
  rest (suc n) [] = []
  rest (suc n) (x ∷ xs) = rest n xs

  take-rest : (n : ℕ) (xs : List A) → take n xs ++ rest n xs ≡ xs
  take-rest zero xs = refl
  take-rest (suc n) [] = refl
  take-rest (suc n) (x ∷ xs) = ap (λ ys. x ∷ ys) (take-rest n xs)

  take_whole : (n : ℕ) (xs : List A) → (length (take n xs) == n) ≡ false → take n xs ≡ xs
  take_whole zero xs h = absurd (ground arith)
  take_whole (suc n) [] h = refl
  take_whole (suc n) (x ∷ xs) h = ap (λ ys. x ∷ ys) (take_whole n xs (ground arith))

  -- A list that is not empty, by its last entry.
  last_split :
      (x : A) (xs : List A)
      → (init : List A) × (l : A) × (x ∷ xs ≡ init ++ (l ∷ [])) × (last? (x ∷ xs) ≡ some l)
  last_split x [] = ([], x, refl, refl)
  last_split x (y ∷ ys) =
      let (init, l, e, h) = last_split y ys in (x ∷ init, l, ap (λ zs. x ∷ zs) e, h)

  nonempty_split :
      (xs : List A)
      → 0 < length xs
      → (init : List A) × (l : A) × (xs ≡ init ++ (l ∷ [])) × (last? xs ≡ some l)
  nonempty_split [] h = absurd (omega arith)
  nonempty_split (x ∷ xs) h = last_split x xs

module _ {A : Type 0} (codec : CursorCodec) (key : A → Cursor) (limit : Option ℕ)
    (rows : List A) where
  abbrev size : ℕ
  size = page_size key limit

  size_positive : 0 < size
  size_positive = ground arith

  -- What is read from a cursor on, with all that stands before it.
  record At (cursor : Option String) (done left : List A) : Type 0 where
    all_rows : newest_first key rows ≡ done ++ left
    past : filter (fits key (decode codec key cursor)) (newest_first key rows) ≡ left

  next-At :
      (cursor : Option String) (done left init : List A) (l : A)
      → Strict key (newest_first key rows)
      → At cursor done left
      → take size left ≡ init ++ (l ∷ [])
      → At (some (codec.encode_cursor (key l))) (done ++ take size left) (rest size left)
  next-At cursor done left init l s at e =
      let split : newest_first key rows ≡ (done ++ init) ++ (l ∷ rest size left) =
        at.all_rows
        ∙ ap (λ zs. done ++ zs)
            (sym (take-rest size left)
              ∙ ap (λ zs. zs ++ rest size left) e
              ∙ append_assoc init (l ∷ []) (rest size left))
        ∙ sym (append_assoc done init (l ∷ rest size left)) in
      record {
        all_rows =
            at.all_rows
            ∙ ap (λ zs. done ++ zs) (sym (take-rest size left))
            ∙ sym (append_assoc done (take size left) (rest size left));
        past = rw (codec.decode-encode (key l)) (
            subst (λ (zs : List A). filter (fits key (some (key l))) zs ≡ rest size left)
              (sym split)
              (filter_past key (done ++ init) l (rest size left) (subst (Strict key) split s)));
      }

  length-rest : (n : ℕ) (xs : List A) → length (take n xs) + length (rest n xs) ≡ length xs
  length-rest n xs = sym (length-append (take n xs) (rest n xs)) ∙ ap length (take-rest n xs)

  page_items :
      (cursor : Option String) (done left : List A)
      → At cursor done left
      → (list_for_user codec key limit cursor rows).items ≡ take size left
  unfolding list_for_user
  page_items cursor done left at = ap (λ zs. take size zs) at.past

  last_page :
      (cursor : Option String) (done left : List A)
      → At cursor done left
      → (length (take size left) == size) ≡ false
      → (list_for_user codec key limit cursor rows).next_cursor ≡ none
  unfolding list_for_user
  last_page cursor done left at h = rw (at.past, h) refl

  full_page :
      (cursor : Option String) (done left : List A) (l : A)
      → At cursor done left
      → (length (take size left) == size) ≡ true
      → last? (take size left) ≡ some l
      → (list_for_user codec key limit cursor rows).next_cursor ≡ some (codec.encode_cursor (key l))
  unfolding list_for_user
  full_page cursor done left l at h k = rw (at.past, h, k) refl

  read_all_left :
      (fuel : ℕ) (cursor : Option String) (done left : List A)
      → Strict key (newest_first key rows)
      → At cursor done left
      → length left < fuel
      → read_all codec key fuel limit cursor rows ≡ left
  unfolding read_all
  read_all_left zero cursor done left s at h = absurd (omega arith)
  read_all_left (suc fuel) cursor done left s at h =
      elim (Bool-cases (length (take size left) == size)) [
        | inr short ↦
            rw (last_page cursor done left at short, read_all, page_items cursor done left at)
              (take_whole size left short)
        | inl full ↦
            let length_page = (==_iff (length (take size left)) size).0 full in
            let (init, l, e, k) = nonempty_split (take size left) (omega (arith, size_positive)) in
            rw (full_page cursor done left l at full k, read_all, page_items cursor done left at)
              (ap (λ zs. take size left ++ zs)
                  (read_all_left fuel (some (codec.encode_cursor (key l))) (done ++ take size left)
                    (rest size left) s (next-At cursor done left init l s at e)
                    (omega (arith, size_positive, length-rest size left)))
                ∙ take-rest size left)
      ]

  filter_all : (xs : List A) → filter (fits key none) xs ≡ xs
  filter_all [] = refl
  filter_all (x ∷ xs) = ap (λ zs. x ∷ zs) (filter_all xs)

  pub read_all_complete :
      (fuel : ℕ)
      → Distinct key rows
      → length rows < fuel
      → Strict key (read_all codec key fuel limit none rows)
        × ((p : A → Bool)
            → count key p (read_all codec key fuel limit none rows) ≡ count key p rows)
  read_all_complete fuel d h =
      let s = newest_first-Strict key rows d in
      let start : At none [] (newest_first key rows) = record {
        all_rows = refl;
        past = filter_all (newest_first key rows);
      } in
      let whole =
        read_all_left fuel none [] (newest_first key rows) s start
          (omega (arith, length-newest_first key rows)) in
      (
        subst (Strict key) (sym whole) s,
        λ p. ap (count key p) whole ∙ count-newest_first key p rows,
      )

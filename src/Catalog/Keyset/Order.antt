-- ===== src/Catalog/Keyset/Order.antt =====
-- The order of the lists with a cursor, and what is past a row of them.
use negare_api.Base.{
  ℕ, suc, ◌≡◌, refl, ap, ◌∙◌, Bool, true, false, ◌&&◌, List, [], ◌∷◌, ◌++◌, some, ◌==◌, arith,
  Bool-cases, inl, inr, All, length, filter,
}
use negare_api.Catalog.Keyset.{Cursor, is_past, fits, insert_newest, newest_first}

abbrev pub same_cursor : Cursor → Cursor → Bool
same_cursor c d = c.created_at == d.created_at && c.number == d.number

module _ {A : Type 0} (key : A → Cursor) where
  -- `y` stands behind `x`.
  abbrev pub Behind : A → A → Type 0
  Behind x y = is_past key (key x) (key y) ≡ true

  abbrev pub Apart : A → A → Type 0
  Apart x y = same_cursor (key x) (key y) ≡ false

  abbrev pub Strict : List A → Type 0
  Strict [] = Unit
  Strict (x ∷ xs) = All (Behind x) xs × Strict xs

  abbrev pub Distinct : List A → Type 0
  Distinct [] = Unit
  Distinct (x ∷ xs) = All (Apart x) xs × Distinct xs

  past_trans : (x y z : A) → Behind x y → Behind y z → Behind x z
  past_trans x y z h k = ground arith

  past_asym : (x y : A) → Behind x y → is_past key (key y) (key x) ≡ false
  past_asym x y h = ground arith

  past_irrefl : (x : A) → is_past key (key x) (key x) ≡ false
  past_irrefl x = ground arith

  past_total : (x y : A) → Apart x y → is_past key (key x) (key y) ≡ false → Behind y x
  past_total x y h k = ground arith

  All-Behind : (x y : A) (zs : List A) → Behind x y → All (Behind y) zs → All (Behind x) zs
  All-Behind x y [] h hs = tt
  All-Behind x y (z ∷ zs) h (k, ks) = (past_trans x y z h k, All-Behind x y zs h ks)

  All-insert_newest :
      (P : A → Type 0) (x : A) (ys : List A) → P x → All P ys → All P (insert_newest key x ys)
  unfolding insert_newest
  All-insert_newest P x [] h hs = (h, tt)
  All-insert_newest P x (y ∷ ys) h (k, ks) = elim (Bool-cases (is_past key (key x) (key y))) [
    | inl front ↦ rw front (h, (k, ks))
    | inr later ↦ rw later (k, All-insert_newest P x ys h ks)
  ]

  insert_newest-Strict :
      (x : A) (ys : List A) → All (Apart x) ys → Strict ys → Strict (insert_newest key x ys)
  unfolding insert_newest
  insert_newest-Strict x [] h s = (tt, tt)
  insert_newest-Strict x (y ∷ ys) (h, hs) (s, ss) =
      elim (Bool-cases (is_past key (key x) (key y))) [
        | inl front ↦ rw front ((front, All-Behind x y ys front s), (s, ss))
        | inr later ↦ rw later (
          All-insert_newest (Behind y) x ys (past_total x y h later) s,
          insert_newest-Strict x ys hs ss,
        )
      ]

  All-newest_first : (P : A → Type 0) (xs : List A) → All P xs → All P (newest_first key xs)
  unfolding newest_first
  All-newest_first P [] hs = tt
  All-newest_first P (x ∷ xs) (h, hs) =
      All-insert_newest P x (newest_first key xs) h (All-newest_first P xs hs)

  pub newest_first-Strict : (xs : List A) → Distinct xs → Strict (newest_first key xs)
  unfolding newest_first
  newest_first-Strict [] d = tt
  newest_first-Strict (x ∷ xs) (d, ds) =
      insert_newest-Strict x (newest_first key xs) (All-newest_first (Apart x) xs d)
        (newest_first-Strict xs ds)

  abbrev pub count : (A → Bool) → List A → ℕ
  count p xs = length (filter p xs)

  count-insert_newest :
      (p : A → Bool) (x : A) (ys : List A) → count p (insert_newest key x ys) ≡ count p (x ∷ ys)
  unfolding insert_newest
  count-insert_newest p x [] = refl
  count-insert_newest p x (y ∷ ys) = elim (Bool-cases (is_past key (key x) (key y))) [
    | inl front ↦ rw front refl
    | inr later ↦ rw later (ground (arith, count-insert_newest p x ys))
  ]

  pub count-newest_first : (p : A → Bool) (xs : List A) → count p (newest_first key xs) ≡ count p xs
  unfolding newest_first
  count-newest_first p [] = refl
  count-newest_first p (x ∷ xs) =
      ground (arith, count-insert_newest p x (newest_first key xs), count-newest_first p xs)

  length-insert_newest : (x : A) (ys : List A) → length (insert_newest key x ys) ≡ suc (length ys)
  unfolding insert_newest
  length-insert_newest x [] = refl
  length-insert_newest x (y ∷ ys) = ground (arith, length-insert_newest x ys)

  pub length-newest_first : (xs : List A) → length (newest_first key xs) ≡ length xs
  unfolding newest_first
  length-newest_first [] = refl
  length-newest_first (x ∷ xs) =
      length-insert_newest x (newest_first key xs) ∙ ap suc (length-newest_first xs)

  All-middle : (P : A → Type 0) (xs : List A) (l : A) (ys : List A) → All P (xs ++ (l ∷ ys)) → P l
  All-middle P [] l ys (h, hs) = h
  All-middle P (x ∷ xs) l ys (h, hs) = All-middle P xs l ys hs

  filter-Behind :
      (l : A) (ys : List A) → All (Behind l) ys → filter (fits key (some (key l))) ys ≡ ys
  filter-Behind l [] hs = refl
  filter-Behind l (y ∷ ys) (h, hs) = rw h (ap (λ zs. y ∷ zs) (filter-Behind l ys hs))

  -- What is past the row `l` is what stands behind it.
  pub filter_past :
      (xs : List A) (l : A) (ys : List A)
      → Strict (xs ++ (l ∷ ys))
      → filter (fits key (some (key l))) (xs ++ (l ∷ ys)) ≡ ys
  filter_past [] l ys (h, s) = rw (past_irrefl l) (filter-Behind l ys h)
  filter_past (x ∷ xs) l ys (h, s) =
      rw (past_asym x l (All-middle (Behind x) xs l ys h)) (filter_past xs l ys s)

-- ===== src/Catalog/Counters/Sums.antt =====
-- catalog/counters/counters.service.ts: what a list of updates adds to one counter of one product.
use negare_api.Base.{
  ℕ, ◌≡◌, refl, sym, ap, ◌∙◌, subst, true, false, ◌&&◌, List, [], ◌∷◌, Option, none, some,
  if◌then◌else◌, ◌==◌, ==_iff, Bool-cases, Option-cases, inl, inr,
}
use mathlib.Core.Option.{some-injective}
use negare_api.Base.Integers.{
  ℤ, pos, ◌+ℤ◌, neg, is_zero, add_comm, add_assoc, add_zero, add-neg, is_zero-eq,
}
use negare_api.Catalog.Counters.{
  CounterKind, Counts, CounterUpdate, Counters, Products, same_kind, count_of, add_count, no_counts,
  incr_by, add_update, group_updates, added, increment, set_product, update_products, settle,
}

pub same_kind-eq : (k j : CounterKind) → same_kind k j ≡ true → k ≡ j
same_kind-eq CounterKind.views CounterKind.views h = refl
same_kind-eq CounterKind.views CounterKind.downloads h = absurd (cc h)
same_kind-eq CounterKind.views CounterKind.likes h = absurd (cc h)
same_kind-eq CounterKind.downloads CounterKind.views h = absurd (cc h)
same_kind-eq CounterKind.downloads CounterKind.downloads h = refl
same_kind-eq CounterKind.downloads CounterKind.likes h = absurd (cc h)
same_kind-eq CounterKind.likes CounterKind.views h = absurd (cc h)
same_kind-eq CounterKind.likes CounterKind.downloads h = absurd (cc h)
same_kind-eq CounterKind.likes CounterKind.likes h = refl

pub count-add_count :
    (k j : CounterKind) (n : ℤ) (g : Counts)
    → count_of k (add_count j n g) ≡ count_of k g +ℤ (if same_kind k j then n else pos 0)
count-add_count CounterKind.views CounterKind.views n g = refl
count-add_count CounterKind.views CounterKind.downloads n g = sym (add_zero g.views)
count-add_count CounterKind.views CounterKind.likes n g = sym (add_zero g.views)
count-add_count CounterKind.downloads CounterKind.views n g = sym (add_zero g.downloads)
count-add_count CounterKind.downloads CounterKind.downloads n g = refl
count-add_count CounterKind.downloads CounterKind.likes n g = sym (add_zero g.downloads)
count-add_count CounterKind.likes CounterKind.views n g = sym (add_zero g.likes)
count-add_count CounterKind.likes CounterKind.downloads n g = sym (add_zero g.likes)
count-add_count CounterKind.likes CounterKind.likes n g = refl

pub added-eq : (n c : ℤ) → added n c ≡ c +ℤ n
added-eq n c = elim (Bool-cases (is_zero n)) [
  | inl z ↦ rw (z, is_zero-eq n z) (sym (add_zero c))
  | inr nz ↦ rw nz refl
]

pub count-increment :
    (k : CounterKind) (g c : Counts) → count_of k (increment g c) ≡ count_of k c +ℤ count_of k g
count-increment CounterKind.views g c = added-eq g.views c.views
count-increment CounterKind.downloads g c = added-eq g.downloads c.downloads
count-increment CounterKind.likes g c = added-eq g.likes c.likes

pub count-no_counts : (k : CounterKind) → count_of k no_counts ≡ pos 0
count-no_counts CounterKind.views = refl
count-no_counts CounterKind.downloads = refl
count-no_counts CounterKind.likes = refl

pub add_swap : (x y z : ℤ) → (x +ℤ y) +ℤ z ≡ (x +ℤ z) +ℤ y
add_swap x y z = add_assoc x y z ∙ ap (λ w. x +ℤ w) (add_comm y z) ∙ sym (add_assoc x z y)

module _ (id : ℕ) (kind : CounterKind) where
  -- What an update adds to one counter of one product.
  abbrev pub part : CounterUpdate → ℤ
  part u = if id == u.product_id && same_kind kind u.kind then u.value else pos 0

  abbrev pub entry : ℕ → Counts → ℤ
  entry p g = if id == p then count_of kind g else pos 0

  unfoldable pub sum_updates : List CounterUpdate → ℤ
  sum_updates [] = pos 0
  sum_updates (u ∷ us) = part u +ℤ sum_updates us

  unfoldable pub sum_groups : List (ℕ × Counts) → ℤ
  sum_groups [] = pos 0
  sum_groups ((p, g) ∷ gs) = entry p g +ℤ sum_groups gs

  pub entry-add_count :
      (p : ℕ) (g : Counts) (u : CounterUpdate)
      → p ≡ u.product_id
      → entry p (add_count u.kind u.value g) ≡ entry p g +ℤ part u
  entry-add_count p g u e = elim (Bool-cases (id == p)) [
    | inl here ↦
        let there : (id == u.product_id) ≡ true = subst (λ (q : ℕ). (id == q) ≡ true) e here in
        rw (here, there) (count-add_count kind u.kind u.value g)
    | inr away ↦
        let there : (id == u.product_id) ≡ false = subst (λ (q : ℕ). (id == q) ≡ false) e away in
        rw (away, there) (sym (add_zero (pos 0)))
  ]

  pub entry-no_counts : (p : ℕ) → entry p no_counts ≡ pos 0
  entry-no_counts p = elim (Bool-cases (id == p)) [
    | inl here ↦ rw here (count-no_counts kind)
    | inr away ↦ rw away refl
  ]

  pub sum-add_update :
      (u : CounterUpdate) (gs : List (ℕ × Counts))
      → sum_groups (add_update u gs) ≡ sum_groups gs +ℤ part u
  unfolding sum_groups add_update
  sum-add_update u [] =
      add_zero (entry u.product_id (add_count u.kind u.value no_counts))
      ∙ entry-add_count u.product_id no_counts u refl
      ∙ ap (λ x. x +ℤ part u) (entry-no_counts u.product_id)
  sum-add_update u ((p, g) ∷ gs) = elim (Bool-cases (p == u.product_id)) [
    | inl here ↦ rw here (
        ap (λ x. x +ℤ sum_groups gs) (entry-add_count p g u ((==_iff p u.product_id).0 here))
        ∙ add_swap (entry p g) (part u) (sum_groups gs))
    | inr away ↦ rw away (
        ap (λ x. entry p g +ℤ x) (sum-add_update u gs)
        ∙ sym (add_assoc (entry p g) (sum_groups gs) (part u)))
  ]

  pub sum-group_updates :
      (us : List CounterUpdate) (gs : List (ℕ × Counts))
      → sum_groups (group_updates us gs) ≡ sum_groups gs +ℤ sum_updates us
  unfolding group_updates sum_updates
  sum-group_updates [] gs = sym (add_zero (sum_groups gs))
  sum-group_updates (u ∷ us) gs =
      sum-group_updates us (add_update u gs)
      ∙ ap (λ x. x +ℤ sum_updates us) (sum-add_update u gs)
      ∙ add_assoc (sum_groups gs) (part u) (sum_updates us)

  abbrev pub count_in : Option Counts → ℤ
  count_in none = pos 0
  count_in (some c) = count_of kind c

  pub set_product-count :
      (p : ℕ) (g c : Counts) (ps : Products)
      → ps p ≡ some c
      → count_in (set_product p (increment g c) ps id) ≡ count_in (ps id) +ℤ entry p g
  set_product-count p g c ps found = elim (Bool-cases (id == p)) [
    | inl here ↦
        let same : ps id ≡ some c = ap ps ((==_iff id p).0 here) ∙ found in
        rw (here, same) (count-increment kind g c)
    | inr away ↦ rw away (sym (add_zero (count_in (ps id))))
  ]

  pub update_products-count :
      (gs : List (ℕ × Counts)) (ps qs : Products)
      → update_products gs ps ≡ some qs
      → count_in (qs id) ≡ count_in (ps id) +ℤ sum_groups gs
  unfolding update_products sum_groups
  update_products-count [] ps qs h =
      ap (λ (f : Products). count_in (f id)) (sym (some-injective ps qs h))
      ∙ sym (add_zero (count_in (ps id)))
  update_products-count ((p, g) ∷ gs) ps qs h = elim (Option-cases (ps p)) [
    | inl missing ↦ absurd (cc (rw (missing, update_products) at h))
    | inr (c, found) ↦
        update_products-count gs (set_product p (increment g c) ps) qs
          (rw (found, update_products) at h)
        ∙ ap (λ x. x +ℤ sum_groups gs) (set_product-count p g c ps found)
        ∙ add_assoc (count_in (ps id)) (entry p g) (sum_groups gs)
  ]

  pub applied-count :
      (us : List CounterUpdate) (ps qs : Products)
      → update_products (group_updates us []) ps ≡ some qs
      → count_in (qs id) ≡ count_in (ps id) +ℤ sum_updates us
  unfolding sum_groups
  applied-count us ps qs h =
      update_products-count (group_updates us []) ps qs h
      ∙ ap (λ x. count_in (ps id) +ℤ x)
          (sum-group_updates us [] ∙ add_comm (pos 0) (sum_updates us) ∙ add_zero (sum_updates us))

  pub taken_off :
      (u : CounterUpdate) (c : Counters)
      → incr_by u.product_id u.kind (neg u.value) c id kind +ℤ part u ≡ c id kind
  taken_off u c = elim (Bool-cases (id == u.product_id && same_kind kind u.kind)) [
    | inl here ↦ rw here (add_swap (c id kind) (neg u.value) u.value ∙ add-neg (c id kind) u.value)
    | inr away ↦ rw away (add_zero (c id kind))
  ]

  pub settle-count :
      (us : List CounterUpdate) (c : Counters) → settle us c id kind +ℤ sum_updates us ≡ c id kind
  unfolding settle sum_updates
  settle-count [] c = add_zero (c id kind)
  settle-count (u ∷ us) c =
      let c' = incr_by u.product_id u.kind (neg u.value) c in
      ap (λ x. settle us c' id kind +ℤ x) (add_comm (part u) (sum_updates us))
      ∙ sym (add_assoc (settle us c' id kind) (sum_updates us) (part u))
      ∙ ap (λ x. x +ℤ part u) (settle-count us c')
      ∙ taken_off u c

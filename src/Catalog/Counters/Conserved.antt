-- ===== src/Catalog/Counters/Conserved.antt =====
-- catalog/counters/counters.service.ts: what is counted is counted once.
use negare_api.Base.{
  ℕ, ◌≡◌, refl, sym, ap, ◌∙◌, Bool, true, false, ◌&&◌, List, [], ◌∷◌, some, if◌then◌else◌, ◌==◌,
  Bool-cases, Option-cases, inl, inr,
}
use negare_api.Base.Integers.{ℤ, pos, ◌+ℤ◌, neg, add_comm, add_assoc, add_zero, add-neg}
use negare_api.Base.Exec.{Result, ok}
use negare_api.Catalog.Counters.{
  CounterKind, CounterUpdate, CountersState, Counters, Products, same_kind, incr_by, group_updates,
  update_products, apply_db_increment, bump, settle, settled, flush_batch, flush_updates,
  read_updates, CounterKey, CountersFailure,
}
use negare_api.Catalog.Counters.Sums.{
  add_swap, part, sum_updates, count_in, applied-count, settle-count,
}

unfoldable pub bumps : List CounterUpdate → CountersState → CountersState
bumps [] st = st
bumps (u ∷ us) st = bumps us (bump u.product_id u.kind u.value st).1

module _ (id : ℕ) (kind : CounterKind) where
  -- The count of the row, with what Redis still holds of it.
  abbrev pub total : CountersState → ℤ
  total st = count_in id kind (st.products id) +ℤ st.counters id kind

  moved : (a b c s : ℤ) → (a +ℤ s) +ℤ b ≡ a +ℤ (b +ℤ s)
  moved a b c s = add_assoc a s b ∙ ap (λ x. a +ℤ x) (add_comm s b)

  -- Applied to the rows and taken off in Redis, updates of any kind leave the total as it is.
  settled-total :
      (us : List CounterUpdate) (ps qs : Products) (c : Counters)
      → update_products (group_updates us []) ps ≡ some qs
      → count_in id kind (qs id) +ℤ settle us c id kind ≡ count_in id kind (ps id) +ℤ c id kind
  settled-total us ps qs c h =
      ap (λ x. x +ℤ settle us c id kind) (applied-count id kind us ps qs h)
      ∙ moved (count_in id kind (ps id)) (settle us c id kind) (pos 0) (sum_updates id kind us)
      ∙ ap (λ x. count_in id kind (ps id) +ℤ x) (settle-count id kind us c)

  flushed-total :
      (us : List CounterUpdate) (st : CountersState) → total (flush_updates us st).1 ≡ total st
  unfolding apply_db_increment
  flushed-total [] st = refl
  flushed-total (u ∷ us) st =
      elim (Option-cases (update_products (group_updates (u ∷ us) []) st.products)) [
        | inl missing ↦ rw missing refl
        | inr (qs, done) ↦ rw done (settled-total (u ∷ us) st.products qs st.counters done)
      ]

  -- A flush changes no total of a row's count and what Redis holds of it, whether it succeeds or fails, and
  -- whatever SCAN answered, keys that come twice or not at all included.
  pub flush_batch-total :
      (scans : List (List CounterKey)) (st : CountersState)
      → total (flush_batch scans st).1 ≡ total st
  unfolding flush_batch
  flush_batch-total scans st = keeps st.configured
    where
      keeps :
          (b : Bool)
          → total (if b then flush_updates (read_updates scans st.counters) st else (ok tt, st)).1
            ≡ total st
      keeps true = flushed-total (read_updates scans st.counters) st
      keeps false = refl

  put_on :
      (u : CounterUpdate) (c : Counters)
      → incr_by u.product_id u.kind u.value c id kind ≡ c id kind +ℤ part id kind u
  put_on u c = elim (Bool-cases (id == u.product_id && same_kind kind u.kind)) [
    | inl here ↦ rw here refl
    | inr away ↦ rw away (sym (add_zero (c id kind)))
  ]

  applied-total :
      (us : List CounterUpdate) (st st' : CountersState)
      → apply_db_increment us st ≡ (ok tt, st')
      → total st' ≡ total st +ℤ sum_updates id kind us
  unfolding apply_db_increment
  applied-total us st st' ran =
      elim (Option-cases (update_products (group_updates us []) st.products)) [
        | inl missing ↦ absurd (cc (rw missing at ran))
        | inr (qs, done) ↦
            ap (λ (q : Result CountersFailure (Unit {0}) × CountersState). total q.1)
              (sym (rw done at ran))
            ∙ ap (λ x. x +ℤ st.counters id kind) (applied-count id kind us st.products qs done)
            ∙ add_swap (count_in id kind (st.products id)) (sum_updates id kind us)
                (st.counters id kind)
      ]

  sum_one : (u : CounterUpdate) → sum_updates id kind (u ∷ []) ≡ part id kind u
  unfolding sum_updates
  sum_one u = add_zero (part id kind u)

  -- A bump that returns adds its delta to the total of its product and kind and to no other, with Redis
  -- or without.
  bump-total :
      (u : CounterUpdate) (st st' : CountersState)
      → bump u.product_id u.kind u.value st ≡ (ok tt, st')
      → total st' ≡ total st +ℤ part id kind u
  unfolding bump
  bump-total u st st' ran = counted st.configured ran
    where
      counted :
          (b : Bool)
          → (if b
              then (ok tt, record st { counters = incr_by u.product_id u.kind u.value st.counters })
              else apply_db_increment (u ∷ []) st)
            ≡ (ok tt, st')
          → total st' ≡ total st +ℤ part id kind u
      counted true h =
          ap (λ (q : Result CountersFailure (Unit {0}) × CountersState). total q.1) (sym h)
          ∙ ap (λ x. count_in id kind (st.products id) +ℤ x) (put_on u st.counters)
          ∙ sym
              (add_assoc (count_in id kind (st.products id)) (st.counters id kind) (part id kind u))
      counted false h = applied-total (u ∷ []) st st' h ∙ ap (λ x. total st +ℤ x) (sum_one u)

  bump_returns :
      (u : CounterUpdate) (st : CountersState)
      → st.configured ≡ true
      → (bump u.product_id u.kind u.value st ≡ (ok tt, (bump u.product_id u.kind u.value st).1))
        × ((bump u.product_id u.kind u.value st).1.configured ≡ true)
  unfolding bump
  bump_returns u st redis = (rw redis refl, rw redis refl)

  bumps-total :
      (us : List CounterUpdate) (st : CountersState)
      → st.configured ≡ true
      → total (bumps us st) ≡ total st +ℤ sum_updates id kind us
  unfolding bumps sum_updates
  bumps-total [] st redis = sym (add_zero (total st))
  bumps-total (u ∷ us) st redis =
      let (ran, still) = bump_returns u st redis in
      let next = (bump u.product_id u.kind u.value st).1 in
      bumps-total us next still
      ∙ ap (λ x. x +ℤ sum_updates id kind us) (bump-total u st next ran)
      ∙ add_assoc (total st) (part id kind u) (sum_updates id kind us)

  settled-off :
      (us : List CounterUpdate) (st : CountersState)
      → total (settled us st) +ℤ sum_updates id kind us ≡ total st
  settled-off us st =
      add_assoc (count_in id kind (st.products id)) (settle us st.counters id kind)
        (sum_updates id kind us)
      ∙ ap (λ x. count_in id kind (st.products id) +ℤ x) (settle-count id kind us st.counters)

  -- With Redis: bumps that come after a flush wrote to the rows and before it takes the values off in
  -- Redis are not lost: the total then is the one before the flush and what they add, whatever values
  -- the flush had read.
  pub late_bumps-total :
      (us bs : List CounterUpdate) (st st' : CountersState)
      → apply_db_increment us st ≡ (ok tt, st')
      → st'.configured ≡ true
      → total (settled us (bumps bs st')) ≡ total st +ℤ sum_updates id kind bs
  late_bumps-total us bs st st' ran redis =
      let s = sum_updates id kind us in
      sym (add-neg (total (settled us (bumps bs st'))) s)
      ∙ ap (λ x. x +ℤ neg s)
          (settled-off us (bumps bs st')
            ∙ bumps-total bs st' redis
            ∙ ap (λ x. x +ℤ sum_updates id kind bs) (applied-total us st st' ran)
            ∙ add_swap (total st) s (sum_updates id kind bs))
      ∙ add-neg (total st +ℤ sum_updates id kind bs) s

-- ===== src/Upload/RedisStore/Laws.antt =====
-- `RedisUploadStateStore` keeps the contract of `UploadStateStore`.
use negare_api.Base.{
  ℕ, suc, ◌*◌, ◌≤◌, ◌<◌, ◌≡◌, refl, sym, ap, ◌∙◌, true, false, List, [], ◌∷◌, ◌++◌, Option, none,
  some, String, same, if◌then◌else◌, ◌==◌, ==_iff, max, arith, Bool-cases, Option-cases, inl, inr,
  includes, same_refl,
}
use negare_api.Redis.{Redis, Codec}
use negare_api.Upload.Types.{UploadStatus, Patch, patched, merge_status, merge_indexes}
use negare_api.Upload.Services.{StateStore}
use negare_api.Upload.Indexes.{
  ensure_sorted_unique, includes-ensure_sorted_unique, ensure_sorted_unique-Rises,
}
use negare_api.Upload.Indexes.Complete.{Rises-ext, includes-append}
use negare_api.Upload.RedisStore.{
  create, get, patch_cas, touch, delete, normalised, is_nameless, parse_raw, next_ttl, exec_set,
}

above : List ℕ → ℕ
above [] = 0
above (x ∷ xs) = max (suc x) (above xs)

includes-above : (n : ℕ) (xs : List ℕ) → includes xs n ≡ true → n < above xs
unfolding above
includes-above n [] h = absurd (cc)
includes-above n (x ∷ xs) h = elim (Bool-cases (x == n)) [
  | inl here ↦ omega (arith, (==_iff x n).0 here)
  | inr there ↦ omega (arith, includes-above n xs (ground arith))
]

-- Sorting and thinning out depends on the members alone.
ensure-ext :
    (xs ys : List ℕ)
    → ((n : ℕ) → includes xs n ≡ includes ys n)
    → ensure_sorted_unique xs ≡ ensure_sorted_unique ys
ensure-ext xs ys same_members =
    Rises-ext 0 (above xs) _ _ (ensure_sorted_unique-Rises (above xs) xs (λ n. includes-above n xs))
      (ensure_sorted_unique-Rises (above xs) ys (λ n h. includes-above n xs (same_members n ∙ h)))
      λ n.
        includes-ensure_sorted_unique n xs
        ∙ same_members n
        ∙ sym (includes-ensure_sorted_unique n ys)

pub ensure_sorted_unique_idem :
    (xs : List ℕ) → ensure_sorted_unique (ensure_sorted_unique xs) ≡ ensure_sorted_unique xs
ensure_sorted_unique_idem xs = ensure-ext _ xs (λ n. includes-ensure_sorted_unique n xs)

merge_indexes-ensure :
    (xs : List ℕ) (o : Option (List ℕ))
    → ensure_sorted_unique (merge_indexes xs o) ≡ merge_indexes (ensure_sorted_unique xs) o
merge_indexes-ensure xs none = refl
merge_indexes-ensure xs (some ys) =
    ensure-ext (ensure_sorted_unique (xs ++ ys)) (ensure_sorted_unique xs ++ ys) λ n. ground (
      arith,
      includes-ensure_sorted_unique n (xs ++ ys),
      includes-append n xs ys,
      includes-append n (ensure_sorted_unique xs) ys,
      includes-ensure_sorted_unique n xs,
    )

normalised-patched :
    (s : UploadStatus) (p : Patch) → normalised (patched s p) ≡ patched (normalised s) p
unfolding patched merge_status
normalised-patched s p = cc (merge_indexes-ensure s.received_indexes p.received_indexes)

module _ (json : Codec UploadStatus) (r : Redis json.Json) (default_ttl : ℕ)
    (lasting : 0 < default_ttl) where
  -- What a read that finds a record found.
  pub get_found :
      (now : ℕ) (id : String) (st : r.St) (s : UploadStatus)
      → get json r default_ttl now id st ≡ some s
      → (raw : json.Json) × (cur : UploadStatus) × (r.get now id st ≡ some raw)
        × (json.parse raw ≡ some cur)
        × (is_nameless cur ≡ false)
        × (s ≡ normalised cur)
  unfolding get
  get_found now id st s h = elim (Option-cases (r.get now id st)) [
    | inl none_there ↦ absurd (cc (rw none_there at h))
    | inr (raw, there) ↦ elim (Option-cases (json.parse raw)) [
      | inl bad ↦ absurd (cc (rw (there, bad) at h))
      | inr (cur, good) ↦ elim (Bool-cases (is_nameless cur)) [
        | inl nameless ↦ absurd (cc (rw (there, good, nameless) at h))
        | inr named ↦ (raw, cur, there, good, named, cc (rw (there, good, named) at h))
      ]
    ]
  ]

  next_ttl_positive : (left : ℕ) → 0 < next_ttl json r default_ttl left
  next_ttl_positive left = ground (arith, lasting)

  get-exec_set :
      (now : ℕ) (id j : String) (merged : UploadStatus) (st : r.St)
      → is_nameless merged ≡ false
      → get json r default_ttl now j (exec_set json r default_ttl now id merged none st).1
        ≡ (if same id j then some (normalised merged) else get json r default_ttl now j st)
  unfolding get
  get-exec_set now id j merged st named =
      rw
        (r.get-set_ex now id j (json.stringify merged)
          (next_ttl json r default_ttl (r.ttl now id st)) st (next_ttl_positive (r.ttl now id st)))
        (elim (Bool-cases (same id j)) [
          | inl here ↦ rw (here, json.parse-stringify, named)
          | inr there ↦ rw there
        ])

  nameless-patched :
      (s : UploadStatus) (p : Patch) → p.user_id ≡ none → is_nameless (patched s p) ≡ is_nameless s
  unfolding patched merge_status
  nameless-patched s p none_given = rw none_given

  -- A patch of the version that was read, which names no user, is merged into the record and changes no
  -- other.
  pub get-patch_cas :
      (now : ℕ) (id j : String) (p : Patch) (st : r.St) (s : UploadStatus)
      → get json r default_ttl now id st ≡ some s
      → p.user_id ≡ none
      → get json r default_ttl now j (patch_cas json r default_ttl now id s.version p none st).1
        ≡ (if same id j then some (patched s p) else get json r default_ttl now j st)
  unfolding patch_cas
  get-patch_cas now id j p st s h none_given =
      let (raw, cur, there, good, named, norm) = get_found now id st s h in
      rw
        (
          patch_cas,
          there,
          good,
          (==_iff cur.version s.version).1 (sym (ap (λ (u : UploadStatus). u.version) norm)),
        )
        (get-exec_set now id j (patched cur p) st (nameless-patched cur p none_given ∙ named)
          ∙ rw (normalised-patched cur p, norm))

  pub patch_cas_current :
      (now : ℕ) (id : String) (p : Patch) (st : r.St) (s : UploadStatus)
      → get json r default_ttl now id st ≡ some s
      → (patch_cas json r default_ttl now id s.version p none st).0 ≡ true
  unfolding patch_cas
  patch_cas_current now id p st s h =
      let (raw, cur, there, good, named, norm) = get_found now id st s h in
      rw (
        patch_cas,
        there,
        good,
        (==_iff cur.version s.version).1 (sym (ap (λ (u : UploadStatus). u.version) norm)),
      )

  pub patch_cas_refused :
      (now : ℕ) (id : String) (v : ℕ) (p : Patch) (st : r.St)
      → (patch_cas json r default_ttl now id v p none st).0 ≡ false
      → (patch_cas json r default_ttl now id v p none st).1 ≡ st
  unfolding patch_cas
  patch_cas_refused now id v p st h =
      elim (Option-cases (parse_raw json r default_ttl (r.get now id st))) [
        | inl e ↦ rw (patch_cas, e)
        | inr (cur, e) ↦ elim (Bool-cases (cur.version == v)) [
          | inl current ↦ absurd (cc (rw (patch_cas, e, current) at h))
          | inr stale ↦ rw (patch_cas, e, stale)
        ]
      ]

  pub patch_cas-delete :
      (now : ℕ) (id : String) (v : ℕ) (p : Patch) (st : r.St)
      → (patch_cas json r default_ttl now id v p none (delete json r default_ttl id st)).0 ≡ false
  unfolding patch_cas delete
  patch_cas-delete now id v p st = rw (patch_cas, delete, r.get-del now id id st, same_refl id)

  pub get-touch :
      (now : ℕ) (id j : String) (ttl : ℕ) (st st' : r.St)
      → touch json r default_ttl now id ttl st ≡ some st'
      → get json r default_ttl now j st' ≡ get json r default_ttl now j st
  unfolding get touch
  get-touch now id j ttl st st' h = rw (r.get-expire now id j (max 1 ttl) st st' (omega arith) h)

  pub get-delete :
      (now : ℕ) (id j : String) (st : r.St)
      → get json r default_ttl now j (delete json r default_ttl id st)
        ≡ (if same id j then none else get json r default_ttl now j st)
  unfolding get delete
  get-delete now id j st =
      rw (r.get-del now id j st)
        (elim (Bool-cases (same id j)) [ inl here ↦ rw here | inr there ↦ rw there ])

  normalised_already :
      (s : UploadStatus)
      → ensure_sorted_unique s.received_indexes ≡ s.received_indexes
      → normalised s ≡ s
  normalised_already s in_order = cc in_order

  pub get-create :
      (now : ℕ) (j : String) (s : UploadStatus) (ttl : ℕ) (st st' : r.St)
      → 0 < ttl
      → ensure_sorted_unique s.received_indexes ≡ s.received_indexes
      → create json r default_ttl now s ttl st ≡ some st'
      → get json r default_ttl now j st'
        ≡ (if same s.upload_id j then some s else get json r default_ttl now j st)
  unfolding get create
  get-create now j s ttl st st' pos in_order h = elim (Bool-cases (is_nameless s)) [
    | inl nameless ↦ absurd (cc (rw nameless at h))
    | inr named ↦
        rw
          (r.get-set_nx now s.upload_id j (json.stringify (normalised s)) (ttl * 1000) st st'
            (omega (arith, pos)) (rw named at h))
          (elim (Bool-cases (same s.upload_id j)) [
            | inl here ↦
                rw (here, json.parse-stringify, named)
                  (ap some
                    (ap normalised (normalised_already s in_order) ∙ normalised_already s in_order))
            | inr there ↦ rw there
          ])
  ]

  pub create-delete :
      (now : ℕ) (id : String) (s t : UploadStatus) (ttl : ℕ) (st : r.St)
      → get json r default_ttl now id st ≡ some s
      → s.upload_id ≡ id
      → t.upload_id ≡ id
      → t.user_id ≡ s.user_id
      → (st' : r.St) × (create json r default_ttl now t ttl (delete json r default_ttl id st)
          ≡ some st')
  unfolding create delete
  create-delete now id s t ttl st h own own' user =
      let (raw, cur, there, good, named, norm) = get_found now id st s h in
      let named' : is_nameless t ≡ false = cc (ap is_nameless norm, named, own, own', user) in
      let gone : r.get now t.upload_id (r.del id st) ≡ none =
        r.get-del now id t.upload_id st ∙ rw own' (rw (same_refl id)) in
      let (st', made) =
        r.set_nx_free now t.upload_id (json.stringify (normalised t)) (ttl * 1000) (r.del id st)
          gone in
      (st', rw named' made)

  pub get_earlier :
      (now later : ℕ) (id : String) (st : r.St) (s : UploadStatus)
      → now ≤ later
      → get json r default_ttl later id st ≡ some s
      → get json r default_ttl now id st ≡ some s
  unfolding get
  get_earlier now later id st s le h =
      let (raw, cur, there, good, named, norm) = get_found later id st s h in
      rw (r.get_earlier now later id st raw le there, good, named, norm)

  -- No other client writes between WATCH and EXEC here: `Races` is about those.
  abbrev pub redis_state_store : StateStore
  redis_state_store = record {
    St = r.St;
    get = get json r default_ttl;
    create = create json r default_ttl;
    patch_cas = λ now id v p st. patch_cas json r default_ttl now id v p none st;
    touch = touch json r default_ttl;
    delete = delete json r default_ttl;
    get_earlier = get_earlier;
    get-patch_cas = get-patch_cas;
    patch_cas_current = patch_cas_current;
    patch_cas_refused = patch_cas_refused;
    patch_cas-delete = patch_cas-delete;
    get-touch = get-touch;
    get-delete = get-delete;
    get-create = get-create;
    create-delete = create-delete;
  }

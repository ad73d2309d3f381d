-- ===== src/Upload/RedisStore/Races.antt =====
-- Two clients at one key: the compare-and-set of the record and the lock.
use negare_api.Base.{
  ℕ, suc, ◌≤◌, ◌<◌, ◌≡◌, refl, sym, ◌∙◌, ap, true, false, none, some, String, same, List, [], ◌∷◌,
  ◌==◌, ==_iff, arith, Bool-cases, inl, inr, same_refl, includes,
}
use negare_api.Redis.{Redis, Codec}
use negare_api.Upload.Types.{UploadStatus, Patch, patched, merge_status}
use negare_api.Upload.RedisStore.{get, patch_cas, acquire, spin, release}
use negare_api.Upload.RedisStore.Laws.{get_found, get-patch_cas}

module _ (json : Codec UploadStatus) (r : Redis json.Json) (default_ttl : ℕ)
    (lasting : 0 < default_ttl) where
  patch_cas_stale :
      (now : ℕ) (id : String) (v : ℕ) (p : Patch) (st : r.St) (s : UploadStatus)
      → get json r default_ttl now id st ≡ some s
      → s.version ≡ suc v
      → patch_cas json r default_ttl now id v p none st ≡ (false, st)
  unfolding patch_cas
  patch_cas_stale now id v p st s h newer = elim (Bool-cases (s.version == v)) [
    | inl same_version ↦ absurd (omega (arith, newer, (==_iff s.version v).0 same_version))
    | inr stale ↦
        let (raw, cur, there, good, named, norm) =
          get_found json r default_ttl lasting now id st s h in
        rw (patch_cas, there, good, sym (ap (λ (u : UploadStatus). u.version) norm), stale)
  ]

  version-patched : (s : UploadStatus) (p : Patch) → (patched s p).version ≡ suc s.version
  unfolding patched merge_status
  version-patched s p = omega arith

  -- When two clients patch the version that both have read, the first takes effect, and the second
  -- is refused and changes nothing.
  pub patch_cas_once :
      (now : ℕ) (id : String) (p q : Patch) (st : r.St) (s : UploadStatus)
      → get json r default_ttl now id st ≡ some s
      → p.user_id ≡ none
      → (get json r default_ttl now id (patch_cas json r default_ttl now id s.version p none st).1
          ≡ some (patched s p))
        × (patch_cas json r default_ttl now id s.version q none
              (patch_cas json r default_ttl now id s.version p none st).1
            ≡ (false, (patch_cas json r default_ttl now id s.version p none st).1))
  patch_cas_once now id p q st s h none_given =
      let first =
        get-patch_cas json r default_ttl lasting now id id p st s h none_given
        ∙ rw (same_refl id) in
      (first, patch_cas_stale now id s.version q _ (patched s p) first (version-patched s p))

  -- When another client writes the watched key before EXEC, the patch is refused, whatever it is.
  patch_cas_aborted :
      (now : ℕ) (id : String) (v : ℕ) (p : Patch) (others : r.St → r.St) (st : r.St)
      → (patch_cas json r default_ttl now id v p (some others) st).0 ≡ false
  unfolding patch_cas
  patch_cas_aborted now id v p others st = ground arith

module _ (locks : Redis String) where
  -- While somebody's lock lives, nobody who polls for it gets it.
  spin_excluded :
      (polls : List ℕ) (deadline : ℕ) (id owner holder : String) (ttl_ms later : ℕ) (st : locks.St)
      → ((t : ℕ) → includes polls t ≡ true → t ≤ later)
      → locks.get later id st ≡ some holder
      → spin locks polls deadline id owner ttl_ms st ≡ none
  unfolding spin acquire
  spin_excluded [] deadline id owner holder ttl_ms later st before held = refl
  spin_excluded (t ∷ ts) deadline id owner holder ttl_ms later st before held =
      rw
        (
          spin,
          acquire,
          locks.set_nx_taken t id owner holder ttl_ms st
              (locks.get_earlier t later id st holder (before t (ground arith)) held),
          spin_excluded ts deadline id owner holder ttl_ms later st (λ u h. before u (ground arith))
              held,
        )
        (ground arith)

  release-other :
      (now : ℕ) (id owner holder : String) (st : locks.St)
      → locks.get now id st ≡ some holder
      → same holder owner ≡ false
      → release locks now id owner st ≡ st
  unfolding release
  release-other now id owner holder st held other = rw (held, other)

  acquire-release :
      (now : ℕ) (id owner next : String) (ttl_ms : ℕ) (st : locks.St)
      → locks.get now id st ≡ some owner
      → (st' : locks.St) × (acquire locks now id next ttl_ms (release locks now id owner st)
          ≡ some st')
  unfolding release acquire
  acquire-release now id owner next ttl_ms st held =
      rw (held, same_refl owner)
        (locks.set_nx_free now id next ttl_ms (locks.del id st)
          (locks.get-del now id id st ∙ rw (same_refl id)))

  -- A lock that lives at `later` keeps every client out who polls until then; a release by a client
  -- who does not own it changes nothing; once its owner has released it, the next client gets it.
  pub lock_excludes :
      (polls : List ℕ) (deadline : ℕ) (id owner holder : String) (ttl_ms later : ℕ) (st : locks.St)
      → ((t : ℕ) → includes polls t ≡ true → t ≤ later)
      → locks.get later id st ≡ some holder
      → same holder owner ≡ false
      → (spin locks polls deadline id owner ttl_ms st ≡ none)
        × (release locks later id owner st ≡ st)
        × ((st' : locks.St) × (acquire locks later id owner ttl_ms
                (release locks later id holder st)
              ≡ some st'))
  lock_excludes polls deadline id owner holder ttl_ms later st before held other = (
    spin_excluded polls deadline id owner holder ttl_ms later st before held,
    release-other later id owner holder st held other,
    acquire-release later id holder owner ttl_ms st held,
  )

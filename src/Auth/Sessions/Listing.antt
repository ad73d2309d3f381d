-- ===== src/Auth/Sessions/Listing.antt =====
-- `list` repairs the index of a user's sessions.
use negare_api.Base.{
  ℕ, ◌≡◌, ◌∙◌, refl, Bool, ◌&&◌, not, List, [], ◌∷◌, none, some, String, same, same-eq, subst,
  same_refl, is_some, Bool-cases, Option-cases, inl, inr, arith,
}
use negare_api.Redis.Sets.{has}
use negare_api.Auth.Sessions.{AuthRedis, AuthState, pair_key, stale_of, clean, list, get}

module _ (a : AuthRedis) (session_ttl now : ℕ) (user_id : String) where
  abbrev pub is_live : AuthState a → String → Bool
  is_live st sid = is_some (get a session_ttl now user_id sid st)

  members-clean :
      (stale : List String) (x : String) (st : AuthState a)
      → has (a.sets.members user_id (clean a session_ttl user_id stale st).index) x
        ≡ (has (a.sets.members user_id st.index) x && not (has stale x))
  unfolding clean
  members-clean [] x st = ground arith
  members-clean (sid ∷ stale) x st =
      let st' = record st {
        index = a.sets.remove user_id sid st.index;
        index_z = a.by_time.remove user_id sid st.index_z;
      } in
      ground (
        arith,
        members-clean stale x st',
        a.sets.members-remove user_id user_id sid x st.index,
        same_refl user_id,
      )

  has-stale_of :
      (sids : List String) (x : String) (st : AuthState a)
      → has (stale_of a session_ttl now user_id sids st) x ≡ (has sids x && not (is_live st x))
  unfolding stale_of get
  has-stale_of [] x st = refl
  has-stale_of (sid ∷ sids) x st =
      elim (Option-cases (a.records.get now (pair_key user_id sid) st.records)) [
        | inl gone ↦ elim (Bool-cases (same sid x)) [
          | inl here ↦
              let dead =
                subst (λ (u : String). a.records.get now (pair_key user_id u) st.records ≡ none)
                  (same-eq sid x here) gone in
              rw (stale_of, gone, here, dead)
          | inr there ↦ rw (stale_of, gone, there) (has-stale_of sids x st)
        ]
        | inr (rec, found) ↦ elim (Bool-cases (same sid x)) [
          | inl here ↦
              let alive =
                subst (λ (u : String). a.records.get now (pair_key user_id u) st.records ≡ some rec)
                  (same-eq sid x here) found in
              rw (stale_of, found, here) (has-stale_of sids x st ∙ rw alive (ground arith))
          | inr there ↦ rw (stale_of, found, there) (has-stale_of sids x st)
        ]
      ]

  -- After `list` the index holds exactly those of its sessions whose records are still there.
  pub list_heals :
      (x : String) (st : AuthState a)
      → has (a.sets.members user_id (list a session_ttl now user_id st).1.index) x
        ≡ (has (a.sets.members user_id st.index) x && is_live st x)
  unfolding list
  list_heals x st =
      let sids = a.sets.members user_id st.index in
      ground (
        arith,
        members-clean (stale_of a session_ttl now user_id sids st) x st,
        has-stale_of sids x st,
      )

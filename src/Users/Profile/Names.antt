-- ===== src/Users/Profile/Names.antt =====
-- core/users/profile/profile.service.ts: what is known of a name that was taken.
use negare_api.Base.{
  ◌≤◌, ◌≡◌, refl, sym, ap, subst, true, false, ◌||◌, List, [], ◌∷◌, Option, none, some, String, ltb,
  is_some, length, Bool-cases, Option-cases, inl, inr, arith, All,
}
use negare_api.Base.Text.{Text, lower, text_eq, text_eq-eq, text_eq_refl}
use negare_api.Base.Exec.{Result, ok, throws, lift, >>=-eq-ok}
use negare_api.Auth.Users.{User, citext_eq, holds, has_id, has_username, find_first, update_first}
use negare_api.Auth.Password.Types.{filled}
use negare_api.Users.Profile.{
  UsernameAvailability, ProfileFailure, available, empty, wrong_length, wrong_form, reserved, taken,
  username_min, username_max, matches_username_regex, is_reserved, normalize_username,
  check_username_availability, accepted, set_username, update_row, update_username,
  record_not_found,
}

-- What `checkUsernameAvailability` grants.
pub record Valid (username : Text) (us : List User) : Type 0 where
  pub long_enough : username_min ≤ length username
  pub short_enough : length username ≤ username_max
  pub well_formed : matches_username_regex username ≡ true
  pub unreserved : is_reserved username ≡ false
  pub free : find_first (has_username username) us ≡ none

checked :
    (raw : Text) (us : List User)
    → check_username_availability raw us ≡ available
    → Valid (normalize_username raw) us
unfolding check_username_availability
checked raw us h =
    let n = normalize_username raw in
    elim (Bool-cases (is_some (filled n))) [
      | inr blank ↦ absurd (cc (rw blank at h))
      | inl named ↦ elim (Bool-cases (ltb (length n) username_min || ltb username_max (length n))) [
        | inl long ↦ absurd (cc (rw (named, long) at h))
        | inr fits ↦ elim (Bool-cases (matches_username_regex n)) [
          | inr bad ↦ absurd (cc (rw (named, fits, bad) at h))
          | inl good ↦ elim (Bool-cases (is_reserved n)) [
            | inl kept ↦ absurd (cc (rw (named, fits, good, kept) at h))
            | inr unreserved ↦ elim (Option-cases (find_first (has_username n) us)) [
              | inr (u, there) ↦ absurd (cc (rw (named, fits, good, unreserved, there) at h))
              | inl free ↦ record {
                long_enough = ground arith;
                short_enough = ground arith;
                well_formed = good;
                unreserved = unreserved;
                free = free;
              }
            ]
          ]
        ]
      ]
    ]

-- Two rows have no name in common.
abbrev pub Differ : User → User → Type 0
Differ u v = holds citext_eq u.username v.username ≡ false

abbrev pub Unique : List User → Type 0
Unique [] = Unit
Unique (u ∷ us) = All (Differ u) us × Unique us

nobody_has :
    (n : Text) (us : List User)
    → find_first (has_username n) us ≡ none
    → All (λ v. has_username n v ≡ false) us
unfolding find_first
nobody_has n [] h = tt
nobody_has n (u ∷ us) h = elim (Bool-cases (has_username n u)) [
  | inl there ↦ absurd (cc (rw there at h))
  | inr away ↦ (away, nobody_has n us (rw away at h))
]

citext_sym : (s t : Text) → citext_eq s t ≡ false → citext_eq t s ≡ false
citext_sym s t h = elim (Bool-cases (citext_eq t s)) [
  | inr differ ↦ differ
  | inl eq ↦ absurd (
      cc (
        h,
        subst (λ (x : Text). text_eq x (lower t) ≡ true) (text_eq-eq (lower t) (lower s) eq)
            (text_eq_refl (lower t)),
      ))
]

holds_sym : (s t : Option Text) → holds citext_eq s t ≡ false → holds citext_eq t s ≡ false
holds_sym (some s) (some t) h = citext_sym s t h
holds_sym (some s) none h = refl
holds_sym none (some t) h = refl
holds_sym none none h = refl

Differ-update_first :
    (id : String) (n : Text) (u : User) (us : List User)
    → has_username n u ≡ false
    → All (Differ u) us
    → All (Differ u) (update_first (has_id id) (set_username n) us)
unfolding update_first
Differ-update_first id n u [] h hs = tt
Differ-update_first id n u (v ∷ us) h (k, ks) = elim (Bool-cases (has_id id v)) [
  | inl here ↦ rw here (holds_sym (some n) u.username h, ks)
  | inr away ↦ rw away (k, Differ-update_first id n u us h ks)
]

update_first-Unique :
    (id : String) (n : Text) (us : List User)
    → All (λ v. has_username n v ≡ false) us
    → Unique us
    → Unique (update_first (has_id id) (set_username n) us)
unfolding update_first
update_first-Unique id n [] hs s = tt
update_first-Unique id n (u ∷ us) (h, hs) (d, ds) = elim (Bool-cases (has_id id u)) [
  | inl here ↦ rw here (hs, ds)
  | inr away ↦ rw away (Differ-update_first id n u us h d, update_first-Unique id n us hs ds)
]

-- What `updateUsername` has checked when it returns, and the row and the table then.
pub record Renamed (raw : Text) (us : List User) (row : User) (vs : List User) : Type 0 where
  pub valid : Valid (normalize_username raw) us
  pub named : row.username ≡ some (normalize_username raw)
  pub unique : Unique us → Unique vs

updated_row :
    (id : String) (raw : Text) (us vs : List User) (row : User) (o : Option User)
    → find_first (has_id id) us ≡ o
    → update_row record_not_found id (set_username (normalize_username raw)) us ≡ (ok row, vs)
    → (row.username ≡ some (normalize_username raw))
      × (vs ≡ update_first (has_id id) (set_username (normalize_username raw)) us)
updated_row id raw us vs row none e ran = absurd (cc (rw (e, update_row) at ran))
updated_row id raw us vs row (some u) e ran =
    let both = rw (e, update_row) at ran in
    (
      ap (λ (q : Result ProfileFailure User × List User). name_of q.0) (sym both),
      ap (λ (q : Result ProfileFailure User × List User). q.1) (sym both),
    )
  where
    name_of : Result ProfileFailure User → Option Text
    name_of (ok v) = v.username
    name_of (throws x) = some (normalize_username raw)

granted : (c : UsernameAvailability) → accepted c ≡ ok tt → c ≡ available
granted available h = refl
granted empty h = absurd (cc h)
granted wrong_length h = absurd (cc h)
granted wrong_form h = absurd (cc h)
granted reserved h = absurd (cc h)
granted taken h = absurd (cc h)

-- When `updateUsername` returns, the row has the normalized name, which is 3 to 20 characters long, of the form that the rules
-- ask, not reserved, and was nobody's; names that were unique stay unique, case ignored.
pub update_username_renames :
    (id : String) (raw : Text) (us vs : List User) (row : User)
    → update_username id raw us ≡ (ok row, vs)
    → Renamed raw us row vs
unfolding update_username
update_username_renames id raw us vs row ran =
    let (tt, ws, granting, ran1) =
      >>=-eq-ok (lift (accepted (check_username_availability raw us))) _ us ran in
    let check =
      granted (check_username_availability raw us)
        (ap (λ (q : Result ProfileFailure (Unit {0}) × List User). q.0) granting) in
    let same_table : us ≡ ws =
      ap (λ (q : Result ProfileFailure (Unit {0}) × List User). q.1) granting in
    let valid = checked raw us check in
    let ran2 =
      subst
        (λ (x : List User).
          update_row record_not_found id (set_username (normalize_username raw)) x ≡ (ok row, vs))
        (sym same_table) ran1 in
    let (named, table) = updated_row id raw us vs row (find_first (has_id id) us) refl ran2 in
    record {
      valid = valid;
      named = named;
      unique = λ s. subst Unique (sym table) (
          update_first-Unique id (normalize_username raw) us
            (nobody_has (normalize_username raw) us valid.free) s);
    }

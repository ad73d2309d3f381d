-- ===== src/Auth/Tests.antt =====
-- The theorems at one user with one session, with Redis in memory.
use negare_api.Base.{
  ℕ, suc, ◌≡◌, ◌∙◌, sym, refl, Bool, true, false, ◌&&◌, not, List, [], ◌∷◌, Option, none, some,
  String, same, same-eq, same_refl, subst, if◌then◌else◌, filter, arith, Bool-cases, inl, inr,
}
use mathlib.Core.Option.{some-injective}
use negare_api.Base.Exec.{ok}
use negare_api.Redis.Memory.{memory, plain}
use negare_api.Redis.Sets.{Sets, SortedSets, has}
use negare_api.Auth.Sessions.{AuthRedis, AuthState, revoke_all, get}
use negare_api.Auth.Refresh.{
  Jwt, RefreshTokenPayload, UserWithRelations, TokenPair, unique_names, is_refresh_blacklisted,
  blacklist_refresh_jti, verify_refresh_token, atomic_get_del, parse_allow_record, check_record,
  build_pair, rotate, refresh,
}
use negare_api.Auth.Sessions.{link_refresh_jti, unlink_refresh_jti}
use negare_api.Auth.RateLimit.{Counters, RateConfig}
use negare_api.Auth.Refresh.Issued.{Issued, refresh_returns}
use negare_api.Base.Returns.{Returns}
use negare_api.Auth.Refresh.Single.{refresh_single_use, revoke_all_refuses, Refused}
use negare_api.Auth.Service.{logout}
use negare_api.Auth.Service.{rotate as rotate_session}
use negare_api.Auth.Service.Logout.{logout_refuses}

-- Sets as functions from keys to lists.
abbrev SetStore : Type 0
SetStore = String → List String

abbrev add_member : String → String → SetStore → SetStore
add_member k x f j = if same k j then x ∷ f j else f j

abbrev remove_member : String → String → SetStore → SetStore
remove_member k x f j = if same k j then filter (λ y. not (same x y)) (f j) else f j

abbrev del_key : String → SetStore → SetStore
del_key k f j = if same k j then [] else f j

pub has-add :
    (k j x y : String) (f : SetStore)
    → has (add_member k x f j) y ≡ (if same k j && same x y then true else has (f j) y)
has-add k j x y f = ground arith

has-filter :
    (x y : String) (ys : List String)
    → has (filter (λ z. not (same x z)) ys) y ≡ (if same x y then false else has ys y)
has-filter x y [] = ground arith
has-filter x y (z ∷ zs) = elim (Bool-cases (same x z)) [
  | inl dropped ↦
      subst
        (λ (u : String).
          has (filter (λ q. not (same x q)) (u ∷ zs)) y
          ≡ (if same x y then false else has (u ∷ zs) y))
        (same-eq x z dropped)
        (elim (Bool-cases (same x y)) [
          | inl eq ↦ rw (same_refl x, eq) (rw eq at (has-filter x y zs))
          | inr ne ↦ rw (same_refl x, ne) (rw ne at (has-filter x y zs))
        ])
  | inr kept ↦ elim (Bool-cases (same z y)) [
    | inl eq ↦
        let other : same x y ≡ false =
          subst (λ (u : String). same x u ≡ false) (same-eq z y eq) kept in
        rw (kept, eq, other)
    | inr ne ↦ rw (kept, ne) (has-filter x y zs)
  ]
]

pub has-remove :
    (k j x y : String) (f : SetStore)
    → has (remove_member k x f j) y ≡ (if same k j && same x y then false else has (f j) y)
has-remove k j x y f = elim (Bool-cases (same k j)) [
  | inl here ↦ rw here (has-filter x y (f j))
  | inr there ↦ rw there
]

pub has-del :
    (k j y : String) (f : SetStore)
    → has (del_key k f j) y ≡ (if same k j then false else has (f j) y)
has-del k j y f = ground arith

abbrev sets : Sets
sets = record {
  St = SetStore;
  members = λ k f. f k;
  add = add_member;
  remove = remove_member;
  del = del_key;
  members-add = has-add;
  members-remove = has-remove;
  members-del = has-del;
}

abbrev by_time : SortedSets
by_time = record {
  St = List (String × ℕ × String);
  add = λ k n x z. (k, n, x) ∷ z;
  remove = λ k x z. z;
  rev_range = λ k start stop z. [];
}

abbrev pub redis : AuthRedis
redis = record {
  records = memory;
  owners = memory;
  json = plain;
  allowed = memory;
  blacklist = memory;
  sets = sets;
  by_time = by_time;
}

-- The one token in use, of the session `s1` of the user `7`.
abbrev claims : RefreshTokenPayload
claims = record { sub = "7"; sid = "s1"; jti = "j1"; typ = "refresh" }

abbrev read_token : ℕ → Bool → String → Option RefreshTokenPayload
read_token now ignore token = if same token "t1" then some claims else none

verify_same :
    (now later : ℕ) (i j : Bool) (token : String) (c d : RefreshTokenPayload)
    → read_token now i token ≡ some c
    → read_token later j token ≡ some d
    → c ≡ d
verify_same now later i j token c d h k = some-injective c d (sym h ∙ k)

abbrev jwt : Jwt
jwt = record {
  verify = read_token;
  sign_refresh = λ now c. "t2";
  sign_access = λ now user_id roles. "access";
  verify_same = verify_same;
}

abbrev pub users : String → Option UserWithRelations
users id = some (record { id = id; roles = some "USER" ∷ [] })

abbrev signed_in : AuthState redis
signed_in = record {
  records = λ k. none;
  index = λ k. if same "7" k then "s1" ∷ [] else [];
  index_z = [];
  jtis = λ k. if same "7:s1" k then "j1" ∷ [] else [];
  owners = λ k. none;
  allowed = λ k.
      if same "j1" k then some (record { user_id = "7"; session_id = some "s1" }, 9000) else none;
  blacklist = λ k. none;
}

all_of_it : Unit {0}
unfolding unique_names is_refresh_blacklisted blacklist_refresh_jti verify_refresh_token
    atomic_get_del parse_allow_record check_record build_pair rotate refresh link_refresh_jti
    unlink_refresh_jti
all_of_it = tt

abbrev pair : TokenPair
pair = record { access_token = "access"; refresh_token = "t2" }

refreshed : (refresh redis jwt users 100 100 5 "j2" "t1" signed_in).0 ≡ ok pair
unfolding all_of_it
refreshed = refl

refresh_single_use_example :
    Refused
      (refresh redis jwt users 100 100 6 "j3" "t1"
        (refresh redis jwt users 100 100 5 "j2" "t1" signed_in).1).0
refresh_single_use_example =
    refresh_single_use redis jwt users 100 100 5 6 "j2" "j3" "t1" claims signed_in
      (refresh redis jwt users 100 100 5 "j2" "t1" signed_in).1 pair (omega arith) refl refl
      (rw refreshed)

revoke_all_refuses_example :
    Refused (refresh redis jwt users 100 100 6 "j2" "t1" (revoke_all redis 100 "7" signed_in)).0
revoke_all_refuses_example =
    revoke_all_refuses redis jwt users 100 100 5 6 "j2" "t1" "7" "s1" claims signed_in refl refl
      refl

logout_refuses_example :
    ((logout redis jwt users 100 100 (λ x. none) 5 "t1" signed_in).0 ≡ ok tt)
    × (get redis 100 6 "7" "s1" (logout redis jwt users 100 100 (λ x. none) 5 "t1" signed_in).1
        ≡ none)
    × Refused
        (rotate_session redis jwt users 100 100
          (λ x. none)
          6
          "j2"
          "t1"
          (logout redis jwt users 100 100 (λ x. none) 5 "t1" signed_in).1).0
logout_refuses_example =
    logout_refuses redis jwt users 100 100 (λ x. none) 5 "t1" claims 5 6 "j2" "t1" claims signed_in
      (record {
        reads = refl;
        given = refl;
        typed = refl;
        with_jti = refl;
        with_sid = refl;
        with_sub = refl;
      })
      refl refl

abbrev pub counters : Counters
counters = record {
  St = String → ℕ;
  count = λ k f. f k;
  incr = λ k f j. if same k j then suc (f j) else f j;
  expire = λ k n f. f;
  del = λ k f j. if same k j then 0 else f j;
  count-incr = λ k j f. refl;
  count-expire = λ k j n f h. refl;
  count-del = λ k j f. refl;
}

abbrev pub defaults : RateConfig
defaults = record {
  request_window = none;
  request_max = none;
  request_ip_max = none;
  verify_window = none;
  verify_max = none;
  verify_ip_max = none;
}

refresh_returns_example :
    Returns
      (refresh redis jwt users 100 100 5 "j2" "t1")
      signed_in
      (Issued redis jwt users 100 100 5 "7" "s1" "j2")
unfolding all_of_it
refresh_returns_example =
    refresh_returns redis jwt users 100 100 5 "j2" "t1" claims
      (record { user_id = "7"; session_id = some "s1" })
      (record { user_id = "7"; session_id = some "s1" })
      (record { id = "7"; roles = some "USER" ∷ [] }) signed_in refl refl refl refl refl refl refl
      refl

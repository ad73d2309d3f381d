-- ===== src/Auth/Sessions.antt =====
-- core/auth/session/session.service.ts: `SessionService`. The keys of each of its prefixes are one
-- part of the state: records, index of a user's sessions, index by time, refresh ids of a session,
-- session of a refresh id; and the allow list of refresh ids of auth.constants.ts, which `revoke`
-- clears, and the blacklist of token.service.ts. `now` is the time of the call; the random id of a new session is an argument.
pub mod Listing
pub mod Revocation
use negare_api.Base.{
  ℕ, ◌+◌, ◌-◌, max, or_else, leb, if◌then◌else◌, ◌≡◌, Bool, true, false, List, [], ◌∷◌, Option,
  none, some, String, ◌+++◌, same, if◌then◌else◌, max,
}
use negare_api.Redis.{Redis, Codec}
use negare_api.Redis.Sets.{Sets, SortedSets}

pub record SessionRecord : Type 0 where
  pub id : String
  pub user_id : String
  pub ip : Option String
  pub user_agent : Option String
  pub device : Option String
  pub created_at : ℕ
  pub last_used_at : ℕ
  pub revoked_at : Option ℕ

pub record CreateSessionInput : Type 0 where
  pub user_id : String
  pub ip : Option String
  pub user_agent : Option String
  pub device : Option String

-- `RefreshAllowRecord`
pub record RefreshAllowRecord : Type 0 where
  pub user_id : String
  pub session_id : Option String

-- The user and the session of a key.
abbrev pub Owner : Type 0
Owner = String × String

abbrev pub pair_key : (user_id session_id : String) → String
pair_key user_id session_id = user_id +++ (":" +++ session_id)

-- What the service is built on.
pub record AuthRedis : Type 1 where
  pub records : Redis SessionRecord
  pub owners : Redis Owner
  pub json : Codec RefreshAllowRecord
  pub allowed : Redis json.Json
  pub blacklist : Redis String
  pub sets : Sets
  pub by_time : SortedSets

pub record AuthState (a : AuthRedis) : Type 0 where
  pub records : a.records.St
  pub index : a.sets.St
  pub index_z : a.by_time.St
  pub jtis : a.sets.St
  pub owners : a.owners.St
  pub allowed : a.allowed.St
  pub blacklist : a.blacklist.St

-- The sort by the last use, the latest first; records of one time keep their order.
unfoldable pub insert_recent : SessionRecord → List SessionRecord → List SessionRecord
insert_recent x [] = x ∷ []
insert_recent x (y ∷ ys) =
    let rest = insert_recent x ys in
    if leb y.last_used_at x.last_used_at then x ∷ y ∷ ys else y ∷ rest

unfoldable pub sort_recent : List SessionRecord → List SessionRecord
sort_recent [] = []
sort_recent (x ∷ xs) = insert_recent x (sort_recent xs)

module _ (a : AuthRedis) (session_ttl : ℕ) where
  abbrev pub new_record : (now : ℕ) → String → CreateSessionInput → SessionRecord
  new_record now sid input = record {
    id = sid;
    user_id = input.user_id;
    ip = input.ip;
    user_agent = input.user_agent;
    device = input.device;
    created_at = now;
    last_used_at = now;
    revoked_at = none;
  }

  unfoldable pub create :
      (now : ℕ) → (sid : String) → CreateSessionInput → AuthState a → SessionRecord × AuthState a
  create now sid input st =
      let rec = new_record now sid input in
      (
        rec,
        record st {
          records = a.records.set_ex now (pair_key input.user_id sid) rec session_ttl st.records;
          index = a.sets.add input.user_id sid st.index;
          index_z = a.by_time.add input.user_id rec.last_used_at sid st.index_z;
        },
      )

  unfoldable pub get :
      (now : ℕ) → (user_id session_id : String) → AuthState a → Option SessionRecord
  get now user_id session_id st = a.records.get now (pair_key user_id session_id) st.records

  -- `none` is the error of a session that is not found.
  unfoldable pub touch :
      (now : ℕ) → (user_id session_id : String) → AuthState a → Option (SessionRecord × AuthState a)
  touch now user_id session_id st =
      elim (a.records.get now (pair_key user_id session_id) st.records) [
        | none ↦ none
        | some rec ↦
            let used = record rec { last_used_at = now } in
            some (
              used,
              record st {
                records =
                    a.records.set_ex now (pair_key user_id session_id) used session_ttl st.records;
                index_z = a.by_time.add user_id now session_id st.index_z;
              },
            )
      ]

  unfoldable pub link_refresh_jti :
      (now : ℕ) → (user_id session_id jti : String) → AuthState a → AuthState a
  link_refresh_jti now user_id session_id jti st = record st {
    jtis = a.sets.add (pair_key user_id session_id) jti st.jtis;
    owners = a.owners.set_ex now jti (user_id, session_id) session_ttl st.owners;
  }

  unfoldable pub unlink_refresh_jti : (user_id session_id jti : String) → AuthState a → AuthState a
  unlink_refresh_jti user_id session_id jti st = record st {
    jtis = a.sets.remove (pair_key user_id session_id) jti st.jtis;
    owners = a.owners.del jti st.owners;
  }

  unfoldable pub find_session_by_jti : (now : ℕ) → (jti : String) → AuthState a → Option Owner
  find_session_by_jti now jti st = a.owners.get now jti st.owners

  -- The loop that drops the refresh ids of a session.
  unfoldable pub forget_jtis : List String → AuthState a → AuthState a
  forget_jtis [] st = st
  forget_jtis (jti ∷ jtis) st =
      forget_jtis jtis
        (record st { owners = a.owners.del jti st.owners; allowed = a.allowed.del jti st.allowed })

  abbrev pub drop_session : (user_id session_id : String) → AuthState a → AuthState a
  drop_session user_id session_id st = record st {
    jtis = a.sets.del (pair_key user_id session_id) st.jtis;
    records = a.records.del (pair_key user_id session_id) st.records;
    index = a.sets.remove user_id session_id st.index;
    index_z = a.by_time.remove user_id session_id st.index_z;
  }

  unfoldable pub revoke : (user_id session_id : String) → AuthState a → AuthState a
  revoke user_id session_id st =
      drop_session user_id session_id
        (forget_jtis (a.sets.members (pair_key user_id session_id) st.jtis) st)

  -- The refresh ids of each session, read before anything is deleted.
  abbrev pub read_jtis :
      (user_id : String) → List String → AuthState a → List (String × List String)
  read_jtis user_id [] st = []
  read_jtis user_id (sid ∷ sids) st =
      (sid, a.sets.members (pair_key user_id sid) st.jtis) ∷ read_jtis user_id sids st

  unfoldable pub delete_all :
      (user_id : String) → List (String × List String) → AuthState a → AuthState a
  delete_all user_id [] st = st
  delete_all user_id ((sid, jtis) ∷ rest) st =
      delete_all user_id rest (drop_session user_id sid (forget_jtis jtis st))

  unfoldable pub revoke_all : (user_id : String) → AuthState a → AuthState a
  revoke_all user_id st =
      delete_all user_id (read_jtis user_id (a.sets.members user_id st.index) st) st

  -- The records that are still there, in the order of the ids, and the ids of the others.
  unfoldable pub live_of :
      (now : ℕ) → (user_id : String) → List String → AuthState a → List SessionRecord
  live_of now user_id [] st = []
  live_of now user_id (sid ∷ sids) st = elim (a.records.get now (pair_key user_id sid) st.records) [
    | none ↦ live_of now user_id sids st
    | some rec ↦ rec ∷ live_of now user_id sids st
  ]

  unfoldable pub stale_of : (now : ℕ) → (user_id : String) → List String → AuthState a → List String
  stale_of now user_id [] st = []
  stale_of now user_id (sid ∷ sids) st =
      elim (a.records.get now (pair_key user_id sid) st.records) [
        | none ↦ sid ∷ stale_of now user_id sids st
        | some rec ↦ stale_of now user_id sids st
      ]

  unfoldable pub clean : (user_id : String) → List String → AuthState a → AuthState a
  clean user_id [] st = st
  clean user_id (sid ∷ stale) st = clean user_id stale (record st {
    index = a.sets.remove user_id sid st.index;
    index_z = a.by_time.remove user_id sid st.index_z;
  })

  unfoldable pub list :
      (now : ℕ) → (user_id : String) → AuthState a → List SessionRecord × AuthState a
  list now user_id st =
      let sids = a.sets.members user_id st.index in
      (sort_recent (live_of now user_id sids st), clean user_id (stale_of now user_id sids st) st)

  unfoldable pub list_page :
      (now : ℕ)
      → (user_id : String) → (offset limit : Option ℕ) → AuthState a
      → List SessionRecord × AuthState a
  list_page now user_id offset limit st =
      let start = or_else offset 0 in
      let stop = start + max 1 (or_else limit 20) - 1 in
      let sids = a.by_time.rev_range user_id start stop st.index_z in
      (live_of now user_id sids st, clean user_id (stale_of now user_id sids st) st)

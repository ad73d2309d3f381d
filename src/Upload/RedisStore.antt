-- ===== src/Upload/RedisStore.antt =====
-- upload.state.redis.ts: `RedisUploadStateStore`. The keys `upload:<id>` are one `Redis`, the locks
-- `upload:lock:<id>` another. What other clients do to a watched key between WATCH and EXEC is the
-- argument `others`.
pub mod Laws
pub mod Races
use negare_api.Base.{
  ℕ, suc, ◌+◌, ◌*◌, ◌≤◌, ◌<◌, ◌≡◌, Bool, true, false, ◌||◌, not, List, [], ◌∷◌, Option, none, some,
  String, same, if◌then◌else◌, ltb, ◌==◌, max,
}
use negare_api.Redis.{Redis, Codec}
use negare_api.Upload.Types.{UploadStatus, Patch, patched}
use negare_api.Upload.Indexes.{ensure_sorted_unique}

abbrev pub is_nameless : UploadStatus → Bool
is_nameless s = same s.upload_id "" || same s.user_id ""

-- The record as it is handed out.
abbrev pub normalised : UploadStatus → UploadStatus
normalised s = record s { received_indexes = ensure_sorted_unique s.received_indexes }

abbrev pub read_parsed : Option UploadStatus → Option UploadStatus
read_parsed none = none
read_parsed (some s) = if is_nameless s then none else some (normalised s)

module _ (json : Codec UploadStatus) (r : Redis json.Json) (default_ttl_seconds : ℕ) where
  -- An error, of the arguments or because the key exists, is `none`.
  unfoldable pub create : (now : ℕ) → UploadStatus → (ttl : ℕ) → r.St → Option r.St
  create now s ttl st =
      if is_nameless s
      then none
      else r.set_nx now s.upload_id (json.stringify (normalised s)) (ttl * 1000) st

  abbrev pub parse_raw : Option json.Json → Option UploadStatus
  parse_raw none = none
  parse_raw (some raw) = json.parse raw

  unfoldable pub get : (now : ℕ) → String → r.St → Option UploadStatus
  get now id st = read_parsed (parse_raw (r.get now id st))

  -- The lifetime is kept, or set anew where there is none.
  abbrev pub next_ttl : ℕ → ℕ
  next_ttl left = if ltb 0 left then left else default_ttl_seconds

  -- EXEC runs the write only if nobody touched the key since WATCH.
  abbrev pub exec_set :
      (now : ℕ) → String → UploadStatus → Option (r.St → r.St) → r.St → Bool × r.St
  exec_set now id merged none st =
      (true, r.set_ex now id (json.stringify merged) (next_ttl (r.ttl now id st)) st)
  exec_set now id merged (some others) st = (false, others st)

  unfoldable pub patch_cas :
      (now : ℕ)
      → String
      → (expected : ℕ) → Patch
      → (others : Option (r.St → r.St)) → r.St
      → Bool × r.St
  patch_cas now id expected patch others st = elim (parse_raw (r.get now id st)) [
    | none ↦ (false, st)
    | some cur ↦
        if cur.version == expected
        then exec_set now id (patched cur patch) others st
        else (false, st)
  ]

  unfoldable pub touch : (now : ℕ) → String → (ttl : ℕ) → r.St → Option r.St
  touch now id ttl st = r.expire now id (max 1 ttl) st

  unfoldable pub delete : String → r.St → r.St
  delete id st = r.del id st

-- `withLock`: the lock holds the random name of its owner. The polls are made at the given times;
-- `none` is the failure to get the lock before the deadline.
module _ (locks : Redis String) where
  unfoldable pub acquire :
      (now : ℕ) → (id owner : String) → (ttl_ms : ℕ) → locks.St → Option locks.St
  acquire now id owner ttl_ms st = locks.set_nx now id owner ttl_ms st

  unfoldable pub spin :
      (polls : List ℕ) (deadline : ℕ)
      → (id owner : String) → (ttl_ms : ℕ) → locks.St
      → Option locks.St
  spin [] deadline id owner ttl_ms st = none
  spin (now ∷ later) deadline id owner ttl_ms st =
      let rest = spin later deadline id owner ttl_ms st in
      elim (acquire now id owner ttl_ms st) [
        | some st' ↦ some st'
        | none ↦ if ltb deadline now then none else rest
      ]

  abbrev pub is_owner : String → Option String → Bool
  is_owner owner none = false
  is_owner owner (some holder) = same holder owner

  -- Only the owner's lock is released.
  unfoldable pub release : (now : ℕ) → (id owner : String) → locks.St → locks.St
  release now id owner st = if is_owner owner (locks.get now id st) then locks.del id st else st

-- ===== src/Redis.antt =====
-- What the program relies on of Redis: string keys with a lifetime. One value of `Redis V` stands for
-- the keys of one prefix, each named by what follows the prefix; `now` is in milliseconds, a
-- lifetime in seconds, of SET NX in milliseconds. `Codec` is JSON on one type of records.
pub mod HashMemory
pub mod Hashes
pub mod Memory
pub mod Sets
use negare_api.Base.{ℕ, ◌≤◌, ◌<◌, ◌≡◌, Option, none, some, String, same, if◌then◌else◌}

pub record Redis (V : Type 0) : Type 1 where
  pub St : Type 0
  pub get : ℕ → String → St → Option V
  -- SET key value EX ttl
  pub set_ex : ℕ → String → V → ℕ → St → St
  -- SET key value PX ms NX, which EX s is with s * 1000; `none` when the key exists
  pub set_nx : ℕ → String → V → ℕ → St → Option St
  pub del : String → St → St
  -- the seconds left, rounded up; 0 stands for a missing key and for one with no lifetime
  pub ttl : ℕ → String → St → ℕ
  -- `none` when the key is missing
  pub expire : ℕ → String → ℕ → St → Option St
  pub get_earlier :
      (now later : ℕ) (k : String) (st : St) (x : V)
      → now ≤ later
      → get later k st ≡ some x
      → get now k st ≡ some x
  pub get-set_ex :
      (now : ℕ) (k j : String) (x : V) (n : ℕ) (st : St)
      → 0 < n
      → get now j (set_ex now k x n st) ≡ (if same k j then some x else get now j st)
  pub get-set_nx :
      (now : ℕ) (k j : String) (x : V) (n : ℕ) (st st' : St)
      → 0 < n
      → set_nx now k x n st ≡ some st'
      → get now j st' ≡ (if same k j then some x else get now j st)
  pub set_nx_taken :
      (now : ℕ) (k : String) (x y : V) (n : ℕ) (st : St)
      → get now k st ≡ some y
      → set_nx now k x n st ≡ none
  pub set_nx_free :
      (now : ℕ) (k : String) (x : V) (n : ℕ) (st : St)
      → get now k st ≡ none
      → (st' : St) × (set_nx now k x n st ≡ some st')
  pub get-del :
      (now : ℕ) (k j : String) (st : St)
      → get now j (del k st) ≡ (if same k j then none else get now j st)
  pub get-expire :
      (now : ℕ) (k j : String) (n : ℕ) (st st' : St)
      → 0 < n
      → expire now k n st ≡ some st'
      → get now j st' ≡ get now j st

pub record Codec (A : Type 0) : Type 1 where
  pub Json : Type 0
  pub stringify : A → Json
  pub parse : Json → Option A
  pub parse-stringify : (a : A) → parse (stringify a) ≡ some a

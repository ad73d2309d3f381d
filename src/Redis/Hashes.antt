-- ===== src/Redis/Hashes.antt =====
-- What the program relies on of the hashes of Redis, by key: `H` is the record of a hash's fields.
use negare_api.Base.{ℕ, ◌≤◌, ◌<◌, ◌≡◌, Option, none, some, String, same, if◌then◌else◌}

pub record Hashes (H : Type 0) : Type 1 where
  pub St : Type 0
  -- HGETALL; `none` when the key is missing
  pub hgetall : ℕ → String → St → Option H
  -- HSET and HINCRBY: the fields as they are become the new ones; the key keeps its lifetime
  pub change : ℕ → String → (Option H → H) → St → St
  pub expire : ℕ → String → ℕ → St → St
  pub del : String → St → St
  pub hgetall_earlier :
      (now later : ℕ) (k : String) (st : St) (h : H)
      → now ≤ later
      → hgetall later k st ≡ some h
      → hgetall now k st ≡ some h
  pub hgetall-change :
      (now : ℕ) (k j : String) (f : Option H → H) (st : St)
      → hgetall now j (change now k f st)
        ≡ (if same k j then some (f (hgetall now k st)) else hgetall now j st)
  pub hgetall-expire :
      (now : ℕ) (k j : String) (n : ℕ) (st : St)
      → 0 < n
      → hgetall now j (expire now k n st) ≡ hgetall now j st
  pub hgetall-del :
      (now : ℕ) (k j : String) (st : St)
      → hgetall now j (del k st) ≡ (if same k j then none else hgetall now j st)

-- ===== src/Auth/RateLimit.antt =====
-- core/auth/otp/otp-rate-limit.service.ts and core/auth/refresh-rate-limit.service.ts: fixed windows.
-- A key of Redis that counts has no time here: its window is over when Redis drops the key, which
-- happens outside of these calls. `digest` is the hexadecimal SHA-256, cut off.
pub mod Windows
use negare_api.Base.{
  ℕ, suc, ◌+◌, ◌≤◌, ◌<◌, ◌≡◌, Bool, true, false, ◌&&◌, not, List, [], ◌∷◌, ◌++◌, Option, none, some,
  String, ◌+++◌, same, if◌then◌else◌, leb, ◌==◌, or_else, max,
}
use negare_api.Base.Exec.{Exec, Result, ok, throws, pure, ◌>>=◌, ◌>>◌}

-- INCR, EXPIRE, DEL and GET.
pub record Counters : Type 1 where
  pub St : Type 0
  pub count : String → St → ℕ
  pub incr : String → St → St
  pub expire : String → ℕ → St → St
  pub del : String → St → St
  pub count-incr :
      (k j : String) (st : St)
      → count j (incr k st) ≡ (if same k j then suc (count j st) else count j st)
  pub count-expire : (k j : String) (n : ℕ) (st : St) → 0 < n → count j (expire k n st) ≡ count j st
  pub count-del :
      (k j : String) (st : St) → count j (del k st) ≡ (if same k j then 0 else count j st)

pub data Scope : Type 0 where
  req ver : Scope

pub record RateConfig : Type 0 where
  pub request_window : Option ℕ
  pub request_max : Option ℕ
  pub request_ip_max : Option ℕ
  pub verify_window : Option ℕ
  pub verify_max : Option ℕ
  pub verify_ip_max : Option ℕ

-- The answer 429.
pub data TooMany : Type 0 where
  too_many_requests : TooMany

abbrev scope_name : Scope → String
scope_name Scope.req = "req"
scope_name Scope.ver = "ver"

abbrev part : Option String → String
part none = ""
part (some t) = if same t "" then "" else ":" +++ t

module _ (c : Counters) (digest : String → String) where
  unfoldable pub key : Scope → (subject value : String) → (channel purpose : Option String) → String
  key scope subject value channel purpose =
      "otp:rl:"
      +++ (scope_name scope
          +++ (":" +++ (subject +++ (":" +++ (digest value +++ (part channel +++ part purpose))))))

  -- The counter goes up; the first hit starts the window.
  unfoldable pub bump : String → (window : ℕ) → c.St → ℕ × c.St
  bump k window st =
      let st' = c.incr k st in
      (c.count k st', if c.count k st' == 1 then c.expire k window st' else st')

  -- One bucket: more than `limit` hits are refused.
  unfoldable pub consume_key : String → (window limit : ℕ) → Exec c.St TooMany (Unit {0})
  consume_key k window limit st =
      let (count, st') = bump k window st in
      (if leb count limit then ok tt else throws too_many_requests, st')

  unfoldable pub consume_ip :
      Scope
      → Option String
      → (channel purpose : Option String) → (window limit : ℕ) → Exec c.St TooMany (Unit {0})
  consume_ip scope none channel purpose window limit = pure tt
  consume_ip scope (some ip) channel purpose window limit =
      if same ip "" then pure tt else consume_key (key scope "ip" ip channel purpose) window limit

  unfoldable pub consume_bucket :
      Scope
      → (identifier : String) → (ip channel purpose : Option String) → (window max_id max_ip : ℕ)
      → Exec c.St TooMany (Unit {0})
  consume_bucket scope identifier ip channel purpose window max_id max_ip = do
    _ ← consume_key (key scope "id" identifier channel purpose) window max_id
    consume_ip scope ip channel purpose window max_ip

  unfoldable pub consume_request_bucket :
      RateConfig
      → (identifier : String) → (ip channel purpose : Option String) → Exec c.St TooMany (Unit {0})
  consume_request_bucket cfg identifier ip channel purpose =
      consume_bucket Scope.req identifier ip channel purpose (or_else cfg.request_window 60)
        (or_else cfg.request_max 3) (or_else cfg.request_ip_max 10)

  unfoldable pub consume_verify_bucket :
      RateConfig
      → (identifier : String) → (ip channel purpose : Option String) → Exec c.St TooMany (Unit {0})
  consume_verify_bucket cfg identifier ip channel purpose =
      consume_bucket Scope.ver identifier ip channel purpose (or_else cfg.verify_window 120)
        (or_else cfg.verify_max 5) (or_else cfg.verify_ip_max 30)

  -- `RefreshRateLimitService.consume`
  unfoldable pub consume :
      (window_sec max_hits : Option ℕ) → (identifier : String) → Exec c.St TooMany (Unit {0})
  consume window_sec max_hits identifier =
      consume_key
        ("auth:refresh:rl:" +++ digest (if same identifier "" then "anonymous" else identifier))
        (max 1 (or_else window_sec 10)) (max 1 (or_else max_hits 5))

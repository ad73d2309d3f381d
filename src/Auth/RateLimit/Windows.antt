-- ===== src/Auth/RateLimit/Windows.antt =====
-- How many calls pass within one window.
use negare_api.Base.{ℕ, ◌+◌, List, [], ◌∷◌, Option, String}
use negare_api.Base.Exec.{Exec, Result, ok, throws}
use negare_api.Auth.RateLimit.{Counters, RateConfig, consume_request_bucket}

abbrev pub passed_one {ℓ} : {E A : Type ℓ} → Result E A → ℕ
passed_one (ok a) = 1
passed_one (throws e) = 0

module _ (c : Counters) (digest : String → String) where
  -- The number of calls that pass, of calls for one identifier from several addresses.
  pub passes :
      RateConfig
      → (identifier : String) → (channel purpose : Option String) → List (Option String)
      → c.St
      → ℕ
  passes cfg identifier channel purpose [] st = 0
  passes cfg identifier channel purpose (ip ∷ ips) st =
      passed_one (consume_request_bucket c digest cfg identifier ip channel purpose st).0
      + passes cfg identifier channel purpose ips
          (consume_request_bucket c digest cfg identifier ip channel purpose st).1

-- ===== src/Redis/Sets.antt =====
-- What the program relies on of the sets and the sorted sets of Redis, by key. One value stands for
-- the keys of one prefix.
use negare_api.Base.{
  ℕ, ◌≡◌, Bool, true, false, ◌&&◌, ◌||◌, List, [], ◌∷◌, String, same, if◌then◌else◌,
}

abbrev pub has : List String → String → Bool
has [] x = false
has (y ∷ ys) x = same y x || has ys x

pub record Sets : Type 1 where
  pub St : Type 0
  pub members : String → St → List String
  pub add : String → String → St → St
  pub remove : String → String → St → St
  pub del : String → St → St
  pub members-add :
      (k j x y : String) (st : St)
      → has (members j (add k x st)) y
        ≡ (if same k j && same x y then true else has (members j st) y)
  pub members-remove :
      (k j x y : String) (st : St)
      → has (members j (remove k x st)) y
        ≡ (if same k j && same x y then false else has (members j st) y)
  pub members-del :
      (k j y : String) (st : St)
      → has (members j (del k st)) y ≡ (if same k j then false else has (members j st) y)

-- Members with a score.
pub record SortedSets : Type 1 where
  pub St : Type 0
  pub add : String → ℕ → String → St → St
  pub remove : String → String → St → St
  -- ZREVRANGE, both ends included: the highest score first
  pub rev_range : String → (start stop : ℕ) → St → List String

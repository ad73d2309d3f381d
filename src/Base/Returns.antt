-- ===== src/Base/Returns.antt =====
-- Total correctness: the method returns, with what holds of its value and of the state then.
use mathlib.Core.Path.{◌≡◌, refl, ap, ◌∙◌}
use mathlib.Core.Bool.{Bool, true, false}
use negare_api.Base.Exec.{Exec, Result, ok, pure, guard, continue, caught, catch, modify, ◌>>=◌}

module _ {S E A : Type 0} where
  pub record Returns (m : Exec S E A) (s : S) (Q : A → S → Type 0) : Type 0 where
    pub value : A
    pub after : S
    pub runs : m s ≡ (ok value, after)
    pub post : Q value after

  pub Returns-pure : {Q : A → S → Type 0} (a : A) (s : S) → Q a s → Returns (pure a) s Q
  Returns-pure a s q = record { value = a; after = s; runs = refl; post = q }

module _ {S E : Type 0} where
  pub Returns-guard :
      {Q : Unit {0} → S → Type 0} (b : Bool) (e : E) (s : S)
      → b ≡ true
      → Q tt s
      → Returns (guard b e) s Q
  Returns-guard b e s h q = record { value = tt; after = s; runs = rw h; post = q }

  pub Returns-modify :
      {Q : Unit {0} → S → Type 0} (f : S → S) (s : S) → Q tt (f s) → Returns (modify {E = E} f) s Q
  Returns-modify f s q = record { value = tt; after = f s; runs = refl; post = q }

module _ {S E A B : Type 0} where
  pub Returns-bind :
      (Q : A → S → Type 0) {T : B → S → Type 0} (m : Exec S E A) (f : A → Exec S E B) (s : S)
      → Returns m s Q
      → ((a : A) (t : S) → Q a t → Returns (f a) t T)
      → Returns (m >>= f) s T
  Returns-bind Q m f s r k =
      let next = k r.value r.after r.post in
      record {
        value = next.value;
        after = next.after;
        runs = ap (λ (p : Result E A × S). continue p.0 f p.1) r.runs ∙ next.runs;
        post = next.post;
      }

  pub Returns-step :
      {T : B → S → Type 0} (m : Exec S E A) (f : A → Exec S E B) (s : S) (a : A) (t : S)
      → m s ≡ (ok a, t)
      → Returns (f a) t T
      → Returns (m >>= f) s T
  Returns-step m f s a t e r = record {
    value = r.value;
    after = r.after;
    runs = ap (λ (p : Result E A × S). continue p.0 f p.1) e ∙ r.runs;
    post = r.post;
  }

module _ {S E A : Type 0} where
  pub Returns-catch :
      {Q : A → S → Type 0} (m : Exec S E A) (h : E → Exec S E A) (s : S)
      → Returns m s Q
      → Returns (catch m h) s Q
  Returns-catch m h s r = record {
    value = r.value;
    after = r.after;
    runs = ap (λ (p : Result E A × S). caught p.0 h p.1) r.runs;
    post = r.post;
  }

module _ {S E B : Type 0} where
  pub Returns-pass :
      {T : B → S → Type 0} (b : Bool) (e : E) (f : Unit {0} → Exec S E B) (s : S)
      → b ≡ true
      → Returns (f tt) s T
      → Returns (guard b e >>= f) s T
  Returns-pass true e f s h r = r
  Returns-pass false e f s h r = absurd (cc)

-- ===== src/Base/Triple.antt =====
-- What a method establishes: `Q` of its value and the state if it returns, `R` of the state if it
-- throws.
use negare_api.Base.Tests.{if◌then◌else◌}
use negare_api.Base.Exec.{Exec, Result, ok, throws, pure, throw, guard, lift, continue, ◌>>=◌}
use mathlib.Core.Path.{◌≡◌, refl}
use mathlib.Core.Bool.{Bool, true, false}

module _ {S E A : Type 0} where
  abbrev pub Ends : (A → S → Type 0) → (S → Type 0) → Result E A → S → Type 0
  Ends Q R (ok a) s = Q a s
  Ends Q R (throws e) s = R s

  pub record Triple (P : S → Type 0) (m : Exec S E A) (Q : A → S → Type 0) (R : S → Type 0)
      : Type 0 where
    pub run : (s : S) → P s → Ends Q R (m s).0 (m s).1

  pub Triple-pure :
      {P : S → Type 0} {Q : A → S → Type 0} {R : S → Type 0} (a : A)
      → ((s : S) → P s → Q a s)
      → Triple P (pure a) Q R
  Triple-pure a h = record { run = h }

  pub Triple-throw :
      {P : S → Type 0} {Q : A → S → Type 0} {R : S → Type 0} (e : E)
      → ((s : S) → P s → R s)
      → Triple P (throw e) Q R
  Triple-throw e h = record { run = h }

  pub Triple-if :
      {P : S → Type 0} {Q : A → S → Type 0} {R : S → Type 0} (b : Bool) (m n : Exec S E A)
      → (b ≡ true → Triple P m Q R)
      → (b ≡ false → Triple P n Q R)
      → Triple P (if b then m else n) Q R
  Triple-if true m n hm hn = hm refl
  Triple-if false m n hm hn = hn refl

  pub Triple-weaken :
      {P P' : S → Type 0} {Q Q' : A → S → Type 0} {R : S → Type 0} (m : Exec S E A)
      → ((s : S) → P' s → P s)
      → ((a : A) (s : S) → Q a s → Q' a s)
      → Triple P m Q R
      → Triple P' m Q' R
  Triple-weaken {Q} {Q'} {R} m pre post t = record {
    run = λ s p. widen (m s).0 (m s).1 (t.run s (pre s p));
  }
    where
      widen : (r : Result E A) (s : S) → Ends Q R r s → Ends Q' R r s
      widen (ok a) s q = post a s q
      widen (throws e) s q = q

module _ {S E : Type 0} where
  pub Triple-guard :
      {P : S → Type 0} {R : S → Type 0} (b : Bool) (e : E)
      → ((s : S) → P s → R s)
      → Triple P (guard b e) (λ _ s. P s × (b ≡ true)) R
  Triple-guard true e h = record { run = λ s p. (p, refl) }
  Triple-guard false e h = record { run = h }

module _ {S E A B : Type 0} where
  pub Triple-bind :
      {P : S → Type 0} {R : S → Type 0} (Q : A → S → Type 0) {T : B → S → Type 0} (m : Exec S E A)
      (f : A → Exec S E B)
      → Triple P m Q R
      → ((a : A) → Triple (Q a) (f a) T R)
      → Triple P (m >>= f) T R
  Triple-bind {R} Q {T} m f tm tf = record { run = λ s p. go (m s).0 (m s).1 (tm.run s p) }
    where
      go : (r : Result E A) (s : S) → Ends Q R r s → Ends T R (continue r f s).0 (continue r f s).1
      go (ok a) s q = (tf a).run s q
      go (throws e) s q = q

module _ {S E A : Type 0} where
  -- A fact in front of the method.
  pub Triple-given :
      {P : S → Type 0} {Q : A → S → Type 0} {R : S → Type 0} (F : Type 0) (m : Exec S E A)
      → (F → Triple P m Q R)
      → Triple (λ s. P s × F) m Q R
  Triple-given F m h = record { run = λ s p. (h p.1).run s p.0 }

ends_state : {S E A : Type 0} (P : S → Type 0) (r : Result E A) (s : S) → Ends (λ _. P) P r s → P s
ends_state P (ok a) s p = p
ends_state P (throws e) s p = p

pub state-Ends :
    {S E A : Type 0} (P : S → Type 0) (r : Result E A) (s : S) → P s → Ends (λ _. P) P r s
state-Ends P (ok a) s p = p
state-Ends P (throws e) s p = p

module _ {S E A : Type 0} {P : S → Type 0} where
  -- What holds whether the method returns or throws.
  pub Triple-state : (m : Exec S E A) → Triple P m (λ _. P) P → (s : S) → P s → P (m s).1
  Triple-state m t s p = ends_state P (m s).0 (m s).1 (t.run s p)

  pub Triple-lift : (r : Result E A) → Triple P (lift r) (λ _. P) P
  Triple-lift r = record { run = state-Ends P r }

module _ {S E : Type 0} {P : S → Type 0} where
  pub Triple-check : (b : Bool) (e : E) → Triple P (guard b e) (λ _. P) P
  Triple-check true e = record { run = λ s p. p }
  Triple-check false e = record { run = λ s p. p }

-- ===== src/Base/Caught.antt =====
-- Triples of methods of which nothing is said where they throw.
use negare_api.Base.Exec.{Exec, Result, ok, throws, catch, caught}
use negare_api.Base.Triple.{Triple, Ends}

abbrev pub Any {ℓ} : {S : Type ℓ} → S → Type 0
Any s = Unit {0}

module _ {S E A : Type 0} where
  pub Triple-loose :
      {P : S → Type 0} {Q : A → S → Type 0} {R : S → Type 0} (m : Exec S E A)
      → Triple P m Q R
      → Triple P m Q Any
  Triple-loose {Q} {R} m t = record { run = λ s p. loose (m s).0 (m s).1 (t.run s p) }
    where
      loose : (r : Result E A) (s : S) → Ends Q R r s → Ends Q Any r s
      loose (ok a) s q = q
      loose (throws e) s q = tt

  pub fact_kept : {F : Type 0} (r : Result E A) (s : S) → F → Ends (λ _ _. F) Any r s
  fact_kept (ok a) s f = f
  fact_kept (throws e) s f = tt

  -- A method that says nothing about its value.
  pub Triple-Any : {P : S → Type 0} (m : Exec S E A) → Triple P m (λ _. Any) Any
  Triple-Any m = record { run = λ s p. either (m s).0 (m s).1 }
    where
      either : (r : Result E A) (s : S) → Ends (λ _. Any) Any r s
      either (ok a) s = tt
      either (throws e) s = tt

  -- A handler that always throws: the method returned by itself.
  pub Triple-catch :
      {P : S → Type 0} {Q : A → S → Type 0} (m : Exec S E A) (h : E → Exec S E A)
      → ((e : E) (s : S) → Ends (λ _ _. ⊥) Any (h e s).0 (h e s).1)
      → Triple P m Q Any
      → Triple P (catch m h) Q Any
  Triple-catch {Q} m h thrown t = record { run = λ s p. go (m s).0 (m s).1 (t.run s p) }
    where
      weaken : (r : Result E A) (s : S) → Ends (λ _ _. ⊥) Any r s → Ends Q Any r s
      weaken (ok a) s bad = absurd bad
      weaken (throws e) s u = tt

      go : (r : Result E A) (s : S) → Ends Q Any r s → Ends Q Any (caught r h s).0 (caught r h s).1
      go (ok a) s q = q
      go (throws e) s q = weaken (h e s).0 (h e s).1 (thrown e s)

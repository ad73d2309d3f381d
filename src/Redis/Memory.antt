-- ===== src/Redis/Memory.antt =====
-- The interface is met by a store in memory: a function from keys to values with an end of life.
use negare_api.Base.{
  ℕ, ◌+◌, ◌-◌, ◌*◌, ◌/◌, ◌≤◌, ◌<◌, ◌≡◌, refl, subst, Option, none, some, String, same,
  if◌then◌else◌, ltb, arith, Bool-cases, inl, inr, Option-cases, same-eq,
}
use mathlib.Core.Option.{some-injective}
use negare_api.Redis.{Redis, Codec}

abbrev Memory : Type 0 → Type 0
Memory V = String → Option (V × ℕ)

module _ {V : Type 0} where
  abbrev alive : ℕ → Option (V × ℕ) → Option V
  alive now none = none
  alive now (some (x, end)) = if ltb now end then some x else none

  abbrev put : String → V × ℕ → Memory V → Memory V
  put k e m j = if same k j then some e else m j

  abbrev extend : ℕ → ℕ → Option (V × ℕ) → Option (V × ℕ)
  extend now n none = none
  extend now n (some (x, end)) = if ltb now end then some (x, now + n * 1000) else none

  abbrev lookup : ℕ → String → Memory V → Option V
  lookup now k m = alive now (m k)

  abbrev write_new : ℕ → String → V → ℕ → Memory V → Option (Memory V)
  write_new now k x n m = elim (alive now (m k)) [
    | none ↦ some (put k (x, now + n) m)
    | some y ↦ none
  ]

  abbrev prolong : ℕ → String → ℕ → Memory V → Option (Memory V)
  prolong now k n m = elim (extend now n (m k)) [ none ↦ none | some e ↦ some (put k e m) ]

  abbrev forget : String → Memory V → Memory V
  forget k m j = if same k j then none else m j

  abbrev seconds_left : ℕ → Option (V × ℕ) → ℕ
  seconds_left now none = 0
  seconds_left now (some (x, end)) = (end - now + 999) / 1000

  pub lookup_earlier :
      (now later : ℕ) (k : String) (m : Memory V) (x : V)
      → now ≤ later
      → lookup later k m ≡ some x
      → lookup now k m ≡ some x
  lookup_earlier now later k m x h e = ground arith

  pub lookup-put :
      (now : ℕ) (k j : String) (x : V) (end : ℕ) (m : Memory V)
      → now < end
      → lookup now j (put k (x, end) m) ≡ (if same k j then some x else lookup now j m)
  lookup-put now k j x end m h = elim (Bool-cases (same k j)) [
    | inl eq ↦ rw eq (ground arith)
    | inr ne ↦ rw ne
  ]

  pub lookup-write_new :
      (now : ℕ) (k j : String) (x : V) (n : ℕ) (m m' : Memory V)
      → 0 < n
      → write_new now k x n m ≡ some m'
      → lookup now j m' ≡ (if same k j then some x else lookup now j m)
  lookup-write_new now k j x n m m' h e = elim (Option-cases (alive now (m k))) [
    | inl free ↦
        subst (λ u. lookup now j u ≡ (if same k j then some x else lookup now j m))
          (some-injective _ _ (rw (free, write_new) at e))
          (lookup-put now k j x (now + n) m (omega arith))
    | inr (y, taken) ↦ absurd (cc (rw (taken, write_new) at e))
  ]

  pub write_new_taken :
      (now : ℕ) (k : String) (x y : V) (n : ℕ) (m : Memory V)
      → lookup now k m ≡ some y
      → write_new now k x n m ≡ none
  write_new_taken now k x y n m e = rw (e, write_new)

  pub write_new_free :
      (now : ℕ) (k : String) (x : V) (n : ℕ) (m : Memory V)
      → lookup now k m ≡ none
      → (m' : Memory V) × (write_new now k x n m ≡ some m')
  write_new_free now k x n m e = (put k (x, now + n) m, rw (e, write_new))

  pub lookup-forget :
      (now : ℕ) (k j : String) (m : Memory V)
      → lookup now j (forget k m) ≡ (if same k j then none else lookup now j m)
  lookup-forget now k j m = elim (Bool-cases (same k j)) [ inl eq ↦ rw eq | inr ne ↦ rw ne ]

  alive-extend :
      (now n : ℕ) (o : Option (V × ℕ)) (entry : V × ℕ)
      → 0 < n
      → extend now n o ≡ some entry
      → alive now (some entry) ≡ alive now o
  alive-extend now n none entry h e = cc
  alive-extend now n (some (x, end)) entry h e = ground arith

  pub lookup-prolong :
      (now : ℕ) (k j : String) (n : ℕ) (m m' : Memory V)
      → 0 < n
      → prolong now k n m ≡ some m'
      → lookup now j m' ≡ lookup now j m
  lookup-prolong now k j n m m' h e = elim (Option-cases (extend now n (m k))) [
    | inl dead ↦ absurd (cc (rw (dead, prolong) at e))
    | inr (entry, long) ↦
        subst (λ u. lookup now j u ≡ lookup now j m) (some-injective _ _ (rw (long, prolong) at e))
          (elim (Bool-cases (same k j)) [
            | inl eq ↦ rw eq (
                subst (λ i. alive now (some entry) ≡ alive now (m i)) (same-eq k j eq)
                  (alive-extend now n (m k) entry h long))
            | inr ne ↦ rw ne
          ])
  ]

  abbrev pub memory : Redis V
  memory = record {
    St = Memory V;
    get = lookup;
    set_ex = λ now k x n m. put k (x, now + n * 1000) m;
    set_nx = write_new;
    del = forget;
    ttl = λ now k m. seconds_left now (m k);
    expire = prolong;
    get_earlier = lookup_earlier;
    get-set_ex = λ now k j x n m h. lookup-put now k j x (now + n * 1000) m (omega arith);
    get-set_nx = lookup-write_new;
    set_nx_taken = write_new_taken;
    set_nx_free = write_new_free;
    get-del = lookup-forget;
    get-expire = lookup-prolong;
  }

-- Records kept as they are.
abbrev pub plain : {A : Type 0} → Codec A
plain {A} = record { Json = A; stringify = λ a. a; parse = some; parse-stringify = λ a. refl }

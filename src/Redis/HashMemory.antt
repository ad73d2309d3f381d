-- ===== src/Redis/HashMemory.antt =====
-- The interface of the hashes is met by a store in memory, where a key may have no end of life.
use negare_api.Base.{
  ℕ, ◌+◌, ◌*◌, ◌≤◌, ◌<◌, ◌≡◌, Bool, true, refl, ap, ◌∙◌, Option, none, some, String, same, same-eq,
  if◌then◌else◌, ltb, arith, Bool-cases, inl, inr,
}
use negare_api.Redis.Hashes.{Hashes}

abbrev HashMemory : Type 0 → Type 0
HashMemory H = String → Option (H × Option ℕ)

abbrev before : ℕ → Option ℕ → Bool
before now none = true
before now (some end) = ltb now end

module _ {H : Type 0} where
  abbrev alive : ℕ → Option (H × Option ℕ) → Option H
  alive now none = none
  alive now (some (h, end)) = if before now end then some h else none

  -- A dead key is written anew, with no end.
  abbrev changed : ℕ → (Option H → H) → Option (H × Option ℕ) → H × Option ℕ
  changed now f none = (f none, none)
  changed now f (some (h, end)) = if before now end then (f (some h), end) else (f none, none)

  abbrev prolonged : ℕ → ℕ → Option (H × Option ℕ) → Option (H × Option ℕ)
  prolonged now n none = none
  prolonged now n (some (h, end)) = if before now end then some (h, some (now + n * 1000)) else none

  abbrev set_at : String → Option (H × Option ℕ) → HashMemory H → HashMemory H
  set_at k o m j = if same k j then o else m j

  pub alive_earlier :
      (now later : ℕ) (o : Option (H × Option ℕ)) (h : H)
      → now ≤ later
      → alive later o ≡ some h
      → alive now o ≡ some h
  alive_earlier now later none h le e = e
  alive_earlier now later (some (x, none)) h le e = e
  alive_earlier now later (some (x, some end)) h le e = ground arith

  pub alive-changed :
      (now : ℕ) (f : Option H → H) (o : Option (H × Option ℕ))
      → alive now (some (changed now f o)) ≡ some (f (alive now o))
  alive-changed now f none = refl
  alive-changed now f (some (x, end)) = elim (Bool-cases (before now end)) [
    | inl live ↦ rw live (rw live refl)
    | inr dead ↦ rw dead refl
  ]

  alive-prolonged :
      (now n : ℕ) (o : Option (H × Option ℕ)) → 0 < n → alive now (prolonged now n o) ≡ alive now o
  alive-prolonged now n none h = refl
  alive-prolonged now n (some (x, end)) h = elim (Bool-cases (before now end)) [
    | inl live ↦
        rw live (let young : ltb now (now + n * 1000) ≡ true = ground arith in rw young refl)
    | inr dead ↦ rw dead refl
  ]

  pub at_key :
      (now : ℕ) (k j : String) (o : Option (H × Option ℕ)) (m : HashMemory H)
      → alive now (set_at k o m j) ≡ (if same k j then alive now o else alive now (m j))
  at_key now k j o m = elim (Bool-cases (same k j)) [ inl eq ↦ rw eq refl | inr ne ↦ rw ne refl ]

  pub prolonged_at :
      (now : ℕ) (k j : String) (n : ℕ) (m : HashMemory H)
      → 0 < n
      → alive now (set_at k (prolonged now n (m k)) m j) ≡ alive now (m j)
  prolonged_at now k j n m h = elim (Bool-cases (same k j)) [
    | inl eq ↦ rw eq (alive-prolonged now n (m k) h ∙ ap (λ i. alive now (m i)) (same-eq k j eq))
    | inr ne ↦ rw ne refl
  ]

  abbrev pub hash_memory : Hashes H
  hash_memory = record {
    St = HashMemory H;
    hgetall = λ now k m. alive now (m k);
    change = λ now k f m. set_at k (some (changed now f (m k))) m;
    expire = λ now k n m. set_at k (prolonged now n (m k)) m;
    del = λ k m. set_at k none m;
    hgetall_earlier = λ now later k m h le e. alive_earlier now later (m k) h le e;
    hgetall-change = λ now k j f m.
        at_key now k j (some (changed now f (m k))) m
        ∙ ap (λ o. if same k j then o else alive now (m j)) (alive-changed now f (m k));
    hgetall-expire = prolonged_at;
    hgetall-del = λ now k j m. at_key now k j none m;
  }

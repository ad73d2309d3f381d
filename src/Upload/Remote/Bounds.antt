-- ===== src/Upload/Remote/Bounds.antt =====
-- Bounds of the remote upload: attempts, waiting time and the rate of progress events.
use negare_api.Base.{
  ℕ, zero, suc, ◌+◌, ◌-◌, ◌*◌, ◌^◌, ◌≤◌, ◌<◌, ◌≡◌, ◌⊎◌, refl, List, [], ◌∷◌, Option, none, some,
  String, length, or_else, All, arith, Bool-cases, inl, inr, Option-cases,
}
use native.Mathlib.Nat.{pow-suc}
use negare_api.Base.Text.{Text}
use negare_api.Upload.Types.{UploadStatus, UploadConfig}
use negare_api.Upload.Services.{Services, Outcome, Report}
use negare_api.Upload.Session.{World, Event}
use negare_api.Upload.Remote.{
  Throttle, throttled, percent_of, on_progress, progress_events, attempt, upload_with_retry,
  is_transient, add_event,
}

-- The smallest percentage that passes by itself.
abbrev pub next_percent : Option ℕ → ℕ
next_percent none = 0
next_percent (some p) = p + 1

-- Reports within a tenth of a second from `start`.
abbrev pub InWindow : ℕ → Report → Type 0
InWindow start r = (start ≤ r.at) × (r.at < start + 100)

abbrev count : Option Event → ℕ
count none = 0
count (some e) = 1

-- Within the window an event raises the percentage.
throttled-window :
    (id : String) (start total percent : ℕ) (r : Report) (t : Throttle)
    → InWindow start r
    → start ≤ t.last_emit_at
    → percent ≤ 100
    → (start ≤ (throttled id r total percent t).0.last_emit_at)
      × (count (throttled id r total percent t).1
            + (101 - next_percent (throttled id r total percent t).0.last_percent)
          ≤ 101 - next_percent t.last_percent)
unfolding throttled
throttled-window id start total percent r t win late small = elim (Option-cases t.last_percent) [
  | inl never ↦ rw never (ground arith)
  | inr (p, last) ↦ rw last (ground arith)
]

length-add_event :
    (e : Option Event) (es : List Event) → length (add_event e es) ≡ count e + length es
length-add_event none es = omega arith
length-add_event (some e) es = omega arith

Outcome-cases : (o : Outcome) → (o ≡ Outcome.sent) ⊎ ((m : Text) × (o ≡ Outcome.broke m))
Outcome-cases Outcome.sent = inl refl
Outcome-cases (Outcome.broke m) = inr (m, refl)

module _ (v : Services) (cfg : UploadConfig) where
  percent_of_le : (sent total : ℕ) → percent_of v cfg sent total ≤ 100
  unfolding percent_of
  percent_of_le sent total = ground arith

  window_events :
      (id : String) (size start : ℕ) (rs : List Report) (t : Throttle)
      → All (InWindow start) rs
      → start ≤ t.last_emit_at
      → length (progress_events v cfg id size rs t) ≤ 101 - next_percent t.last_percent
  unfolding progress_events on_progress
  window_events id size start [] t win late = omega arith
  window_events id size start (r ∷ rs) t win late =
      let total = or_else r.total_bytes size in
      let percent = percent_of v cfg r.sent_bytes total in
      let step =
        throttled-window id start total percent r t win.0 late (percent_of_le r.sent_bytes total) in
      let next = throttled id r total percent t in
      omega (
        arith,
        step.1,
        length-add_event next.1 (progress_events v cfg id size rs next.0),
        window_events id size start rs next.0 win.1 step.0,
      )

  -- After an event that reported `last` percent, the reports of the next tenth of a second bring at
  -- most `100 - last` events, however many reports there are.
  progress_rate :
      (id : String) (size at last : ℕ) (rs : List Report)
      → All (InWindow at) rs
      → length (
          progress_events v cfg id size rs (record { last_emit_at = at; last_percent = some last }))
        ≤ 100 - last
  progress_rate id size at last rs win = omega (
    arith,
    window_events id size at rs (record { last_emit_at = at; last_percent = some last }) win
        (omega arith),
  )

  sub_one : (i : ℕ) → suc i - 1 ≡ i
  sub_one i = omega arith

  doubled :
      (w base e p : ℕ)
      → 0 < p
      → w + base * e + base * (e * 2) * (p - 1) ≡ w + base * e * (p * 2 - 1)
  doubled w base e zero h = absurd (omega (arith, h))
  doubled w base e (suc q) h =
      let odd : suc q * 2 - 1 ≡ q * 2 + 1 = omega arith in rw (sub_one q, odd) (ground arith)

  pow_pos : (n : ℕ) → 0 < 2 ^ n
  pow_pos zero = omega arith
  pow_pos (suc n) = omega (arith, pow-suc 2 n, pow_pos n)

  step_waits :
      (w base i left : ℕ)
      → w + base * 2 ^ (suc i - 1) + base * 2 ^ suc i * (2 ^ left - 1)
        ≤ w + base * 2 ^ i * (2 ^ suc left - 1)
  step_waits w base i left =
      rw (pow-suc 2 i, pow-suc 2 left, (sub_one i))
        (omega (arith, doubled w base (2 ^ i) (2 ^ left) (pow_pos left)))

  -- From attempt `i + 1` on, with `left` attempts left after it, the loop waits at most
  -- `base * 2 ^ i * (2 ^ left - 1)` milliseconds, however the attempts end.
  pub retry_waits :
      (i left base : ℕ) (id : String) (s : UploadStatus) (path : Text) (w : World v)
      → (upload_with_retry v cfg (suc i) left base id s path w).1.slept_ms
        ≤ w.slept_ms + base * 2 ^ i * (2 ^ left - 1)
  unfolding upload_with_retry attempt
  retry_waits i zero base id s path w =
      elim (Outcome-cases (v.upload_file (suc i) s.temp_path path w.fs w.remote).0) [
        | inl done ↦ rw (upload_with_retry, attempt, done) (omega arith)
        | inr (m, broken) ↦ rw (upload_with_retry, attempt, broken) (omega arith)
      ]
  retry_waits i (suc left) base id s path w =
      elim (Outcome-cases (v.upload_file (suc i) s.temp_path path w.fs w.remote).0) [
        | inl done ↦ rw (upload_with_retry, attempt, done) (omega arith)
        | inr (m, broken) ↦ elim (Bool-cases (is_transient m)) [
          | inl again ↦
              let w' = (attempt v cfg (suc i) id s path w).1 in
              let slept = record w' { slept_ms = w'.slept_ms + base * 2 ^ (suc i - 1) } in
              rw (upload_with_retry, attempt, broken, again)
                (omega (
                  arith,
                  step_waits w.slept_ms base i left,
                  retry_waits (suc i) left base id s path slept,
                ))
          | inr fatal ↦ rw (upload_with_retry, attempt, broken, fatal) (omega arith)
        ]
      ]

-- ===== src/Upload/Remote.antt =====
-- upload.service.ts: `uploadWithRetry`, `isTransient` and the progress callback of `finish`.
pub mod Bounds
use mathlib.Core.List.{filter_map}
use negare_api.Base.{
  ℕ, zero, suc, ◌+◌, ◌-◌, ◌*◌, ◌^◌, ◌≡◌, Bool, true, false, ◌&&◌, ◌||◌, not, List, [], ◌∷◌, ◌++◌,
  Option, none, some, String, if◌then◌else◌, ltb, leb, ◌==◌, length, or_else, min, max, same,
  is_some,
}
use negare_api.Base.Exec.{
  Exec, Result, ok, throws, pure, throw, guard, lift, catch, modify, gets, ◌>>=◌, ◌>>◌,
}
use negare_api.Base.Text.{Text, codes, text_eq, lower}
use negare_api.Upload.Types.{
  UploadStatus, UploadState, Patch, no_change, Failure, UploadConfig, FinishResult,
}
use negare_api.Upload.Types.{
  upload_id_required, temp_not_found, already_finished, bad_finish_state, detected_mime_not_allowed,
  temp_not_ready, ensure_dir_failed, upload_failed, remote_failed, persist_failed,
}
use negare_api.Upload.Services.{Services, StateStore, TempFs, Outcome, Report, MediaInput}
use negare_api.Upload.Names.{is_empty, is_allowed_mime, final_name, relative_dir, build_public_url}
use negare_api.Upload.Session.{
  World, Method, Event, remove_temp, delete_session, with_store_lock, must_get_active,
  patch_and_sync, assert_all_chunks_received,
}

-- The state of the progress throttle: when it last emitted, and which percentage, if any.
pub record Throttle : Type 0 where
  pub last_emit_at : ℕ
  pub last_percent : Option ℕ

abbrev pub fresh_throttle : Throttle
fresh_throttle = record { last_emit_at = 0; last_percent = none }

-- `percent >= lastPercent + 1`, where -1 stands for none.
abbrev pub passes : ℕ → Option ℕ → Bool
passes percent none = true
passes percent (some last) = leb (last + 1) percent

-- An event goes out when the percentage rose or a tenth of a second has passed.
unfoldable pub throttled :
    String → Report → (total percent : ℕ) → Throttle → Throttle × Option Event
throttled id r total percent t =
    if passes percent t.last_percent || leb 100 (r.at - t.last_emit_at)
    then (
      record { last_emit_at = r.at; last_percent = some percent },
      some (Event.progress id r.sent_bytes total percent),
    )
    else (t, none)

abbrev starts_with : Text → Text → Bool
starts_with [] t = true
starts_with (a ∷ p) [] = false
starts_with (a ∷ p) (b ∷ t) = a == b && starts_with p t

abbrev contains : Text → Text → Bool
contains p [] = is_empty p
contains p (c ∷ t) = starts_with p (c ∷ t) || contains p t

-- `/ECONN|ETIMEDOUT|EPIPE|ENOTFOUND|ECONNRESET|Timeout/i`
unfoldable pub is_transient : (message : Text) → Bool
is_transient message =
    let m = lower message in
    contains (codes "econn") m
    || contains (codes "etimedout") m
    || contains (codes "epipe") m
    || contains (codes "enotfound") m
    || contains (codes "econnreset") m
    || contains (codes "timeout") m

abbrev pub add_event : Option Event → List Event → List Event
add_event none es = es
add_event (some e) es = e ∷ es

module _ (v : Services) (cfg : UploadConfig) where
  unfoldable pub percent_of : (sent total : ℕ) → ℕ
  percent_of sent total = if total == 0 then 0 else min 100 (v.floor_percent sent total)

  -- One call of the progress callback.
  unfoldable pub on_progress : String → (size : ℕ) → Report → Throttle → Throttle × Option Event
  on_progress id size r t =
      let total = or_else r.total_bytes size in
      throttled id r total (percent_of r.sent_bytes total) t

  -- The events of one attempt, oldest first.
  unfoldable pub progress_events : String → (size : ℕ) → List Report → Throttle → List Event
  progress_events id size [] t = []
  progress_events id size (r ∷ rs) t =
      let (t', e) = on_progress id size r t in add_event e (progress_events id size rs t')

  -- One attempt to send the file; it leaves its events, also when it breaks off.
  unfoldable pub attempt : ℕ → String → UploadStatus → (path : Text) → World v → Outcome × World v
  attempt i id s path w =
      let (outcome, reports, r) = v.upload_file i s.temp_path path w.fs w.remote in
      (
        outcome,
        record w {
          remote = r;
          events = w.events ++ progress_events id s.size reports fresh_throttle;
        },
      )

  -- The loop of `uploadWithRetry` from attempt `i` on, with `left` attempts left after it.
  unfoldable pub upload_with_retry :
      (i left base_delay : ℕ) → String → UploadStatus → (path : Text) → Method v (Unit {0})
  upload_with_retry i zero base_delay id s path w =
      let (outcome, w') = attempt i id s path w in
      elim outcome [
        | Outcome.sent ↦ (ok tt, w')
        | Outcome.broke message ↦ (throws upload_failed, w')
      ]
  upload_with_retry i (suc left) base_delay id s path w =
      let (outcome, w') = attempt i id s path w in
      elim outcome [
        | Outcome.sent ↦ (ok tt, w')
        | Outcome.broke message ↦ elim (is_transient message) [
          | false ↦ (throws upload_failed, w')
          | true ↦
              upload_with_retry (suc i) left base_delay id s path
                (record w' { slept_ms = w'.slept_ms + base_delay * 2 ^ (i - 1) })
        ]
      ]

  -- `Math.max(1, retries ?? 3)` attempts, `Math.max(100, minDelayMs ?? 800)` milliseconds.
  unfoldable pub upload_attempts : String → UploadStatus → (path : Text) → Method v (Unit {0})
  upload_attempts id s path =
      upload_with_retry 1 (max 1 (or_else cfg.retries 3) - 1)
        (max 100 (or_else cfg.min_delay_ms 800)) id s path

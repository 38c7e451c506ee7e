-- ===== src/Worker/Calls/Stamps.antt =====
-- The stamps of a round of internal/worker/worker.go, and the writes that leave the queue alone.
use mxlrcgo_svc.Common.{
  ℕ, ◌≡◌, refl, ap, subst, String, not, ◌||◌, Option, none, some, inl, inr, List, [], ◌∷◌, ◌==◌,
  length, str_eq, if◌then◌else◌, Bool-cases,
}
use mxlrcgo_svc.Models.{Song, OutputPath}
use mxlrcgo_svc.Queue.{InstrumentalTelemetry, DbQueue, update, by_id}
use mxlrcgo_svc.Queue.Calls.{sets_provider_lane, sets_instrumental, sets_outcome, step}
use mxlrcgo_svc.Worker.{Worker}
use mxlrcgo_svc.Worker.Services.{
  Services, Round, record_hit, record_attempts, record_misses, or_stop, write_outputs,
}
use mxlrcgo_svc.Worker.Misses.{stamp_result, stamp_outcome}
use mxlrcgo_svc.Worker.Calls.Frees.{stamp-Held}
use mxlrcgo_svc.Worker.Calls.{itself, Reaches, by_call, Stamped, not-Stamped}
use mxlrcgo_svc.Queue.Stamps.{set_provider_lane, set_instrumental_result, set_outcome_type}

pub record_attempts-queue :
    (w : Worker) (r : Round) (i : ℕ) (song : Song) (s : Services)
    → (record_attempts w r i song.lane_attempts s).queue ≡ s.queue
unfolding record_attempts
record_attempts-queue w r i song s =
    elim (Bool-cases
      (not w.provider_recorder || (length song.lane_attempts == 0) || r.lost.attempts)) [
        | inl skipped ↦ rw skipped
        | inr done ↦ rw done
      ]

pub record_misses-queue :
    (w : Worker) (r : Round) (s : Services) → (record_misses w r s).queue ≡ s.queue
unfolding record_misses
record_misses-queue w r s = elim (Bool-cases w.provider_recorder) [
  | inl recorded ↦ rw recorded
  | inr skipped ↦ rw skipped
]

or_stop-queue :
    (fault : Option String) (s : Services) (rest : Option String × Services)
    → rest.1.queue ≡ s.queue
    → (or_stop fault s rest).1.queue ≡ s.queue
or_stop-queue none s rest h = h
or_stop-queue (some m) s rest h = refl

pub write_outputs-queue :
    (r : Round) (song : Song) (paths : List OutputPath) (s : Services)
    → (write_outputs r song paths s).1.queue ≡ s.queue
unfolding write_outputs
write_outputs-queue r song [] s = refl
write_outputs-queue r song (p ∷ paths) s =
    or_stop-queue (r.write_fault p) s _
      (write_outputs-queue r song paths (record s { written = (song, p) ∷ s.written }))

module _ (normalize_key : String → String) (q : DbQueue) where
  pub record_hit-Stamped :
      (w : Worker) (r : Round) (i : ℕ) (lane : String) (s : Services)
      → Stamped normalize_key q i s.queue (record_hit w r i lane s).queue
  unfolding record_hit step set_provider_lane
  record_hit-Stamped w r i lane s = elim (Bool-cases (str_eq lane "")) [
    | inl unnamed ↦ rw unnamed (not-Stamped normalize_key q i s.queue)
    | inr named ↦ elim (Bool-cases r.lost.lane) [
      | inl lost ↦ rw named (rw lost (not-Stamped normalize_key q i s.queue))
      | inr stamped ↦ rw named (
          rw stamped (record {
            reach =
                subst (Reaches normalize_key q i s.queue)
                  (ap
                    (λ b. if b then s.queue else record s.queue {
                      rows =
                          update (by_id i) (λ x. record x { provider_lane = some lane })
                            s.queue.rows;
                    })
                    named)
                  (by_call normalize_key q i s.queue (sets_provider_lane i lane) (itself i));
            holds =
                stamp-Held i i (λ x. record x { provider_lane = some lane }) s.queue.rows
                  (λ x. (refl, refl));
          }))
    ]
  ]

  pub stamp_result-Stamped :
      (r : Round) (i result : ℕ) (tel : InstrumentalTelemetry) (s : Services)
      → Stamped normalize_key q i s.queue (stamp_result r i result tel s).queue
  unfolding step set_instrumental_result
  stamp_result-Stamped r i result tel s = elim (Bool-cases r.lost.instrumental) [
    | inl lost ↦ rw lost (not-Stamped normalize_key q i s.queue)
    | inr stamped ↦ rw stamped (record {
      reach = by_call normalize_key q i s.queue (sets_instrumental i result tel) (itself i);
      holds =
          stamp-Held i i (λ x. record x { instrumental_result = some result; telemetry = some tel })
            s.queue.rows (λ x. (refl, refl));
    })
  ]

  pub stamp_outcome-Stamped :
      (r : Round) (i : ℕ) (outcome : String) (s : Services)
      → Stamped normalize_key q i s.queue (stamp_outcome r i outcome s).queue
  unfolding step set_outcome_type
  stamp_outcome-Stamped r i outcome s = elim (Bool-cases r.lost.outcome) [
    | inl lost ↦ rw lost (not-Stamped normalize_key q i s.queue)
    | inr stamped ↦ rw stamped (record {
      reach = by_call normalize_key q i s.queue (sets_outcome i outcome) (itself i);
      holds =
          stamp-Held i i (λ x. record x { outcome_type = some outcome }) s.queue.rows
            (λ x. (refl, refl));
    })
  ]

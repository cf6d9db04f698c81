-- ===== src/Access/Progress/Attempts.antt =====
-- What bestAttemptProgress computes: the most work that one attempt shows, over the attempts that have
-- started.
use archivon.Prelude.{
  ℕ, zero, suc, ◌+◌, ◌≤◌, ◌<◌, ◌≡◌, refl, List, pos, ltb, arith, Bool-cases, ◌⊎◌, inl, inr, ◌↔◌,
}
use native.Mathlib.Decide.{ℕ_discrete}
use archivon.Store.{ShareRow}
use archivon.Access.Policy.{
  normalize_positive_int, default_proof_window_seconds, default_max_proof_attempts,
}
use archivon.Access.Progress.{
  Best, attempt_start, better, attempts_from, valid_share_progress, no_attempt,
  best_attempt_progress,
}

abbrev pub window_of : ℕ → ℕ
window_of window = normalize_positive_int (pos window) default_proof_window_seconds

module _ (tenant job started window now : ℕ) (shares : List ShareRow) where
  -- The work of one attempt.
  abbrev pub work_in : ℕ → ℕ
  work_in attempt =
      (valid_share_progress tenant job (attempt_start started window attempt) window shares).0

  -- Attempt `k` counts: it has started.
  abbrev pub HasStarted : ℕ → Type 0
  HasStarted k = attempt_start started window k ≤ now

  loop : ℕ → ℕ → Best → Best
  loop = attempts_from tenant job started window now shares

  attempt_start_mono :
      (i k : ℕ) → i ≤ k → attempt_start started window i ≤ attempt_start started window k
  attempt_start_mono i k h = grind arith

  loop_stops :
      (rounds attempt : ℕ) (best : Best)
      → now < attempt_start started window attempt
      → loop (suc rounds) attempt best ≡ best
  unfolding loop attempts_from
  loop_stops rounds attempt best h = ground arith

  loop_goes_on :
      (rounds attempt : ℕ) (best : Best)
      → HasStarted attempt
      → loop (suc rounds) attempt best
        ≡ loop rounds (suc attempt) (
            better
              (valid_share_progress tenant job (attempt_start started window attempt) window shares)
              attempt
              best)
  unfolding loop attempts_from
  loop_goes_on rounds attempt best h = ground arith

  -- What the loop gives is at least what it had, and at least each attempt that it still sees.
  loop-le : (rounds attempt : ℕ) (best : Best) → best.work ≤ (loop rounds attempt best).work
  unfolding loop attempts_from
  loop-le zero attempt best = omega arith
  loop-le (suc rounds) attempt best = ground (
    arith,
    loop-le rounds (suc attempt) (
        better
          (valid_share_progress tenant job (attempt_start started window attempt) window shares)
          attempt best),
  )

  loop_sees :
      (rounds attempt k : ℕ) (best : Best)
      → attempt ≤ k
      → k < attempt + rounds
      → HasStarted k
      → work_in k ≤ (loop rounds attempt best).work
  loop_sees zero attempt k best lo hi h = absurd (omega arith)
  loop_sees (suc rounds) attempt k best lo hi h =
      let on : HasStarted attempt = omega (arith, attempt_start_mono attempt k lo) in
      let next =
        better
          (valid_share_progress tenant job (attempt_start started window attempt) window shares)
          attempt best in
      rw (loop_goes_on rounds attempt best on) (elim (ℕ_discrete attempt k) [
        | yes same ↦ ground (arith, same, loop-le rounds (suc attempt) next)
        | no other ↦ loop_sees rounds (suc attempt) k next (omega arith) (omega arith) h
      ])

  -- And it is one of those.
  abbrev Comes : ℕ → ℕ → ℕ → ℕ → Type 0
  Comes rounds attempt had got =
      (got ≡ had)
      ⊎ ((k : ℕ) × (attempt ≤ k) × (k < attempt + rounds) × HasStarted k × (got ≡ work_in k))

  loop-Comes :
      (rounds attempt : ℕ) (best : Best)
      → Comes rounds attempt best.work (loop rounds attempt best).work
  unfolding loop attempts_from
  loop-Comes zero attempt best = inl refl
  loop-Comes (suc rounds) attempt best =
      elim (Bool-cases (ltb now (attempt_start started window attempt))) [
        | inl later ↦ rw (later, attempts_from) (inl refl)
        | inr on ↦
            rw (on, attempts_from)
              (widen
                (loop-Comes rounds (suc attempt) (
                  better
                    (valid_share_progress tenant job (attempt_start started window attempt) window
                      shares)
                    attempt best))
                (ground (arith, on)))
      ]
    where
      widen :
          {got : ℕ}
          → Comes rounds
              (suc attempt)
              (better
                (valid_share_progress tenant job
                  (attempt_start started window attempt)
                  window
                  shares)
                attempt
                best).work
              got
          → HasStarted attempt
          → Comes (suc rounds) attempt best.work got
      widen {got} (inl e) h = elim (Bool-cases (ltb best.work (work_in attempt))) [
        | inl more ↦ inr (attempt, omega arith, omega arith, h, ground (arith, e, more))
        | inr less ↦ inl (ground (arith, e, less))
      ]
      widen {got} (inr (k, lo, hi, on, e)) h = inr (k, omega arith, omega arith, on, e)

-- bestAttemptProgress reaches a positive bound exactly when one of the attempts from 1 to the maximum
-- has started and its window holds that much valid work.
pub best_attempt_reaches :
    (tenant job started window attempts now : ℕ) (shares : List ShareRow) (required : ℕ)
    → 0 < required
    → (required ≤ (best_attempt_progress tenant job started window attempts now shares).work) ↔ (
        (k : ℕ) × (1 ≤ k)
        × (k ≤ normalize_positive_int (pos attempts) default_max_proof_attempts)
        × HasStarted tenant job started (window_of window) now shares k
        × (required ≤ work_in tenant job started (window_of window) now shares k))
unfolding best_attempt_progress loop
best_attempt_reaches tenant job started window attempts now shares required h = (
  from_best (loop-Comes tenant job started (window_of window) now shares rounds 1 no_attempt),
  λ (k, lo, hi, on, enough). omega (
    arith,
    enough,
    loop_sees tenant job started (window_of window) now shares rounds 1 k no_attempt lo
        (omega arith) on,
  ),
)
  where
    rounds : ℕ
    rounds = normalize_positive_int (pos attempts) default_max_proof_attempts

    got : ℕ
    got = (best_attempt_progress tenant job started window attempts now shares).work

    from_best :
        Comes tenant job started (window_of window) now shares rounds 1 0 got
        → required ≤ got
        → (k : ℕ) × (1 ≤ k)
          × (k ≤ rounds)
          × HasStarted tenant job started (window_of window) now shares k
          × (required ≤ work_in tenant job started (window_of window) now shares k)
    from_best (inl e) r = absurd (omega arith)
    from_best (inr (k, lo, hi, on, e)) r = (k, lo, omega arith, on, omega arith)

-- ===== src/Access/Progress.antt =====
-- The work that a running job has collected: validShareProgress and bestAttemptProgress of
-- internal/access. internal/compute has the same loop, without the number of the best attempt.
pub mod Attempts
use archivon.Prelude.{
  ℕ, zero, suc, ◌+◌, ◌-◌, ◌*◌, Bool, not, ◌&&◌, none, some, List, [], ◌∷◌, pos, ltb, leb, ◌==◌,
  if◌then◌else◌, any,
}
use archivon.Store.{ShareRow, seconds}
use archivon.Access.Policy.{
  default_proof_window_seconds, default_max_proof_attempts, normalize_positive_int,
}

-- Valid shares of the job from `start` to the end of the window, both ends included.
abbrev pub in_window : (tenant job start window : ℕ) → ShareRow → Bool
in_window tenant job start window s =
    s.tenant == tenant
    && (s.job == job
        && (s.is_valid
            && (leb start s.submitted_at && leb s.submitted_at (start + seconds window))))

-- coalesce(sum(work_th), 0)
unfoldable pub work_of : (ShareRow → Bool) → List ShareRow → ℕ
work_of p [] = 0
work_of p (s ∷ ss) = (if p s then s.work else 0) + work_of p ss

-- count(DISTINCT compute_worker_id): a row counts at the last share of its worker.
unfoldable pub workers_of : (ShareRow → Bool) → List ShareRow → ℕ
workers_of p [] = 0
workers_of p (s ∷ ss) =
    (if p s && not (any (λ (u : ShareRow). p u && u.worker == s.worker) ss) then 1 else 0)
    + workers_of p ss

-- What one attempt shows: validShareProgress.
unfoldable pub valid_share_progress : (tenant job start window : ℕ) → List ShareRow → ℕ × ℕ
unfolding work_of workers_of
valid_share_progress tenant job start window shares =
    let p =
      in_window tenant job start
        (normalize_positive_int (pos window) default_proof_window_seconds) in
    (work_of p shares, workers_of p shares)

pub record Best : Type 0 where
  pub work : ℕ
  pub workers : ℕ
  pub attempt : ℕ

-- startedAt.Add((attempt - 1) * proofWindowSeconds * time.Second)
abbrev pub attempt_start : (started window attempt : ℕ) → ℕ
attempt_start started window attempt = started + seconds ((attempt - 1) * window)

-- `if validWork > bestWork { ... }`
abbrev pub better : ℕ × ℕ → ℕ → Best → Best
better (work, workers) attempt best =
    if ltb best.work work
    then record { work = work; workers = workers; attempt = attempt }
    else best

-- The rounds that are left of the loop over the attempts, from `attempt` on.
module _ (tenant job started window now : ℕ) (shares : List ShareRow) where
  unfoldable pub attempts_from : ℕ → ℕ → Best → Best
  attempts_from zero attempt best = best
  attempts_from (suc rounds) attempt best =
      let start = attempt_start started window attempt in
      let rest =
        attempts_from rounds (suc attempt)
          (better (valid_share_progress tenant job start window shares) attempt best) in
      if ltb now start then best else rest

abbrev pub no_attempt : Best
no_attempt = record { work = 0; workers = 0; attempt = 1 }

unfoldable pub best_attempt_progress :
    (tenant job started window attempts now : ℕ) → List ShareRow → Best
unfolding attempts_from
best_attempt_progress tenant job started window attempts now shares =
    attempts_from tenant job started
      (normalize_positive_int (pos window) default_proof_window_seconds) now shares
      (normalize_positive_int (pos attempts) default_max_proof_attempts) 1 no_attempt

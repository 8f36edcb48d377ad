-- ===== src/Ssh/Retry/Causes.antt =====
-- Why a round of `run` is followed by another, and how the call may end.
use thunder_sandbox.Prelude.{ℕ, ◌+◌, ◌*◌, ◌≡◌, refl, false, Option, none, some, min, arith}
use thunder_sandbox.Ssh.Manager.{Manager, Reply, returned, raised}
use thunder_sandbox.Ssh.Retry.{
  retry_max, Round, Loop, running, attempt, discard_used, charge, is_late, cut_pause, jitter_high,
  back_off, settle, round,
}

-- A round goes on to the next with these values.
pub record Continued {ℓ} {A : Type ℓ} (deadline : Option ℕ) (r : Round A) (l l' : Loop)
    : Type 0 where
  pub since : ℕ
  pub charged : charge l.failing_since l.now (l.now + r.duration) ≡ some since
  pub in_time : is_late deadline (l.now + r.duration) ≡ false
  pub failing : l'.failing_since ≡ some since
  pub slower : l'.delay ≡ min retry_max (l.delay * 2)
  pub later :
      l'.now
      ≡ l.now
        + r.duration
        + cut_pause deadline (l.now + r.duration) (l.delay + r.jitter (jitter_high l.delay))
        + r.oversleep

module _ {ℓ} {A : Type ℓ} (deadline : Option ℕ) (r : Round A) (l : Loop) {l' : Loop} where
  back_off_running :
      (o : Option ℕ) (m : Manager)
      → charge l.failing_since l.now (l.now + r.duration) ≡ o
      → back_off deadline r (l.now + r.duration) l.delay o m ≡ running l'
      → Continued deadline r l l'
  unfolding back_off
  back_off_running none m c h = ground arith
  back_off_running (some s) m c h = record {
    since = s;
    charged = c;
    in_time = ground arith;
    failing = ground arith;
    slower = ground arith;
    later = ground arith;
  }

  settle_running :
      (t : Option ℕ × Reply A × Manager)
      → settle deadline r l t ≡ running l'
      → Continued deadline r l l'
  unfolding settle
  settle_running (used, returned a, m) h = ground arith
  settle_running (used, raised e, m) h =
      back_off_running (charge l.failing_since l.now (l.now + r.duration)) (discard_used used m)
        refl (ground arith)

  pub round_running : round deadline r l ≡ running l' → Continued deadline r l l'
  unfolding round
  round_running h = settle_running (attempt r l.manager) h

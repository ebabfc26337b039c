-- ===== src/Jobs/Numbered.antt =====
-- The jobs of a machine have ids of their own, and a result reaches the job that it is for.
use lnst.Prelude.{
  ℕ, ◌+◌, ◌<◌, ◌≡◌, ◌≢◌, ◌↔◌, refl, Bool, true, false, Option, none, some, arith, nat_eq, ==_iff,
}
use lnst.Prelude.Dict.{get, put, get-put, get-put_self}
use lnst.Prelude.Exc.{Result, ok}
use lnst.Evaluation.{ResultType, pass}
use lnst.Jobs.{Job, Jobs, passed, finished, run_job, job_finished}

-- A stored job has the id that it is stored under, and the ids to come are not in use.
abbrev pub IsNumbered : Jobs → Type 0
IsNumbered s =
    (id : ℕ) (job : Job) → get s.jobs id ≡ some job → (job.id ≡ some id) × (id < s.job_id_seq)

-- The jobs after `job` was run and its result `p` came.
pub record Reported (s : Jobs) (job : Job) (p : Bool) (t : Jobs) : Type 0 where
  pub numbered : IsNumbered t
  pub others : (id : ℕ) → id ≢ s.job_id_seq → get t.jobs id ≡ get s.jobs id
  pub done :
      (j : Job) × (get t.jobs s.job_id_seq ≡ some j)
      × (finished j ≡ true)
      × ((passed j ≡ pass) ↔ (p ≡ job.expect))

passed_iff :
    (id : Option ℕ) (expect p : Bool)
    → (passed (record { id = id; expect = expect; res = some p }) ≡ pass) ↔ (p ≡ expect)
unfolding passed
passed_iff id true true = ((λ h. refl), (λ h. refl))
passed_iff id true false = ((λ h. cc), (λ h. cc))
passed_iff id false true = ((λ h. cc), (λ h. cc))
passed_iff id false false = ((λ h. refl), (λ h. refl))

-- In a machine whose jobs are numbered, a new job that is run and whose result comes is finished,
-- passes exactly if the result is the one it expects, and leaves every other job as it was.
pub run_job-Reported :
    (s : Jobs) (expect p : Bool) (answer : Result ResultType)
    → IsNumbered s
    → (t : Jobs) × (job_finished
          (run_job s (record { id = none; expect = expect; res = none }) answer).0
          s.job_id_seq
          p
        ≡ ok t)
      × Reported s (record { id = none; expect = expect; res = none }) p t
unfolding run_job job_finished finished
run_job-Reported s expect p answer numbered =
    let n = s.job_id_seq in
    let started : Job = record { id = some n; expect = expect; res = none } in
    let ended : Job = record { id = some n; expect = expect; res = some p } in
    let running = put s.jobs n started in
    (
      record { job_id_seq = n + 1; jobs = put running n ended },
      rw (job_finished, get-put_self s.jobs n started) refl,
      record {
        numbered = λ id job h. ground (
          arith,
          ==_iff n id,
          get-put s.jobs n id started,
          get-put running n id ended,
          numbered id job,
        );
        others = λ id differs.
            ground (arith, ==_iff n id, get-put s.jobs n id started, get-put running n id ended);
        done = (ended, get-put_self running n ended, refl, passed_iff (some n) expect p);
      },
    )

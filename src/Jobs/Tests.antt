-- ===== src/Jobs/Tests.antt =====
-- The jobs of a machine at concrete inputs.
use lnst.Prelude.{◌≡◌, refl, true, false, none, some, nat_eq}
use lnst.Prelude.Dict.{get, has}
use lnst.Prelude.Exc.{ok, err, type_error}
use lnst.Evaluation.{pass}
use lnst.Jobs.{Jobs, new_jobs, run_job, job_finished, kill, stored, finished}
use lnst.Jobs.Numbered.{IsNumbered, Reported, run_job-Reported}

new_jobs-IsNumbered : IsNumbered new_jobs
unfolding get
new_jobs-IsNumbered id job h = cc

run_job-Reported_example :
    (t : Jobs) × (job_finished
        (run_job new_jobs (record { id = none; expect = false; res = none }) (ok pass)).0
        0
        false
      ≡ ok t)
    × Reported new_jobs (record { id = none; expect = false; res = none }) false t
run_job-Reported_example = run_job-Reported new_jobs false false (ok pass) new_jobs-IsNumbered

kill_unknown :
    kill new_jobs (record { id = some 3; expect = true; res = none }) (ok true) ≡ err type_error
unfolding kill finished stored get has
kill_unknown = refl

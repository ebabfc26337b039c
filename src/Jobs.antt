-- ===== src/Jobs.antt =====
-- lnst/Controller/Job.py and the jobs of lnst/Controller/Machine.py. A job is the object that the
-- tester and the machine share: it is known by its id once it runs. What the agent answers to a
-- remote call, and whether a wait was in time, are arguments.
pub mod Numbered
pub mod Tests
use lnst.Prelude.{ℕ, ◌+◌, Bool, true, false, Option, none, some, List, [], nat_eq, if◌then◌else◌}
use lnst.Prelude.Dict.{Dict, get, has, put}
use lnst.Prelude.Exc.{Result, ok, err, key_error, type_error, job_error, lnst_error}
use lnst.Evaluation.{ResultType, fail, pass}

-- `_id`, `_expect`, and of `_res` whether it says that the job passed.
pub record Job : Type 0 where
  pub id : Option ℕ
  pub expect : Bool
  pub res : Option Bool

-- `_job_id_seq` and `_jobs` of a Machine
pub record Jobs : Type 0 where
  pub job_id_seq : ℕ
  pub jobs : Dict ℕ Job

abbrev pub new_jobs : Jobs
new_jobs = record { job_id_seq = 0; jobs = [] }

abbrev pub agree : Bool → Bool → Bool
agree true b = b
agree false true = false
agree false false = true

-- Job.passed, of a job without a result too
unfoldable pub passed : Job → ResultType
passed job = elim job.res [ none ↦ fail | some p ↦ if agree p job.expect then pass else fail ]

unfoldable pub finished : Job → Bool
finished job = elim job.res [ none ↦ false | some p ↦ true ]

-- Machine.run_job: a job that has an id raises an exception (a plain `Exception`, `job_error` here);
-- the job is stored before the agent is
-- called.
unfoldable pub run_job : Jobs → Job → Result ResultType → Jobs × Result ResultType
run_job s job answer = elim job.id [
  | some id ↦ (s, err job_error)
  | none ↦ (
    record {
      job_id_seq = s.job_id_seq + 1;
      jobs = put s.jobs s.job_id_seq (record job { id = some s.job_id_seq });
    },
    answer,
  )
]

-- Machine.job_finished
unfoldable pub job_finished : Jobs → ℕ → Bool → Result Jobs
job_finished s id p = elim (get s.jobs id) [
  | none ↦ err key_error
  | some job ↦ ok (record s { jobs = put s.jobs id (record job { res = some p }) })
]

-- `job.id in self._jobs`
unfoldable pub stored : Jobs → Job → Bool
stored s job = elim job.id [ none ↦ false | some id ↦ has s.jobs id ]

-- Job.wait and Machine.wait_for_job: the third argument says that the timeout is negative.
unfoldable pub wait : Jobs → Job → Bool → Result Bool → Result Bool
wait s job negative answer =
    if finished job
    then ok true
    else if negative
    then err job_error
    else if stored s job
    then answer
    else err lnst_error

-- Job.kill and Machine.kill: for a job that is not stored, the message calls `job.id()`, a TypeError.
unfoldable pub kill : Jobs → Job → Result Bool → Result Bool
kill s job answer =
    if finished job then ok true else if stored s job then answer else err type_error

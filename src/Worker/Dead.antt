-- ===== src/Worker/Dead.antt =====
-- Dead jobs and the transitions of worker.py.
use lode.Prelude.{ℕ, ◌≡◌, ◌≢◌, List, some}
use lode.Jobs.{dead, JobRow, find_job}
use lode.Worker.{succeeds}
use lode.Worker.Queue.{Event, finishes}

abbrev pub IsDead : ℕ → JobRow → List JobRow → Type 0
IsDead k j js = (find_job k js ≡ some j) × (j.status ≡ dead)

-- The event is not the success of a handler of the job `k`.
abbrev pub NotSuccess : ℕ → Event → Type 0
NotSuccess k (finishes clock row (succeeds text)) = row.id ≢ k
NotSuccess k _ = Unit

-- ===== src/Listener.antt =====
-- cmd/gokd-mcp/proxy.go: the job that runs the remote listener. The agent's calls are arguments: the jobs
-- that it lists, what it sends on the stream of an execution, and what each round of the wait for the
-- listener sees until its deadline. Log lines and process kills are left out.
pub mod Stale
use go_kd.Prelude.{
  ℕ, Bool, true, false, ◌||◌, Option, none, some, List, [], ◌∷◌, ◌++◌, ◌==◌, if◌then◌else◌,
}
use go_kd.Text.{Text, codes, is_empty, contains, trim_right, is_newline}
use go_kd.Errors.{GoError, other, Result, ok, err}

abbrev pub listener_job_marker : Text
listener_job_marker = codes "gokd-mcp.exe -listen 127.0.0.1:8765"

abbrev pub remote_install_dir : Text
remote_install_dir = codes "C:\\gokd"

abbrev pub remote_log_path : Text
remote_log_path = codes "C:\\gokd\\gokd-mcp.log"

-- the command of the job that `startRemoteListener` starts
unfoldable pub listener_command : Text → Text
listener_command auth_token =
    codes "& '"
    ++ remote_install_dir
    ++ codes "\\gokd-mcp.exe' -listen 127.0.0.1:8765 -log '"
    ++ remote_log_path
    ++ codes "' -auth-token "
    ++ auth_token

pub record Job : Type 0 where
  pub job_id : Text
  pub command : Text

-- the jobs that `cancelStaleListeners` cancels, of those that the agent lists as running
unfoldable pub cancel_stale_listeners : Result (List Job) → List Text
cancel_stale_listeners (err e) = []
cancel_stale_listeners (ok []) = []
cancel_stale_listeners (ok (j ∷ jobs)) =
    let rest = cancel_stale_listeners (ok jobs) in
    if contains j.command listener_job_marker then j.job_id ∷ rest else rest

pub data Received : Type 0 where
  message : (job_id : Text) (is_done : Bool) → Received
  broken : GoError → Received

-- The job id behind the stream of an execution, and the error that broke it. The stream ends with the
-- list.
unfoldable pub receive : Text → List Received → Text × Option GoError
receive job_id [] = (job_id, none)
receive job_id (broken e ∷ rest) = (job_id, some e)
receive job_id (message given is_done ∷ rest) =
    let known = if is_empty given then job_id else given in
    let later = receive known rest in if is_done then (known, none) else later

-- The statuses that the code names, and the others.
pub data JobStatus : Type 0 where
  running : JobStatus
  unnamed : JobStatus
  exited : JobStatus
  canceled : JobStatus
  orphaned : JobStatus

unfoldable pub is_terminal_status : JobStatus → Bool
is_terminal_status exited = true
is_terminal_status canceled = true
is_terminal_status orphaned = true
is_terminal_status running = false
is_terminal_status unnamed = false

-- one round of the wait: whether the probe got through, and the job's status if there was an answer
pub record Round : Type 0 where
  pub accepted : Bool
  pub status : Option JobStatus

abbrev pub has_ended : Option JobStatus → Bool
has_ended none = false
has_ended (some s) = is_terminal_status s

-- the rounds until the deadline
unfoldable pub wait_for_listener : List Round → Option GoError
wait_for_listener [] = some (other (codes "remote engine did not come up within 15s"))
wait_for_listener (r ∷ rounds) =
    let later = wait_for_listener rounds in
    if r.accepted
    then none
    else if has_ended r.status
    then some (other (codes "terminated before accepting"))
    else later

-- behind the stream: without a job id there is nothing to wait for
unfoldable pub await_job : List Round → Text × Option GoError → Text × Option GoError
await_job rounds (job_id, some e) = (job_id, some e)
await_job rounds (job_id, none) =
    if is_empty job_id
    then ([], some (other (codes "agent did not return a job_id for detached gokd-mcp")))
    else (job_id, wait_for_listener rounds)

unfoldable pub start_remote_listener : Result (List Received) → List Round → Text × Option GoError
start_remote_listener (err e) rounds = ([], some e)
start_remote_listener (ok stream) rounds = await_job rounds (receive [] stream)

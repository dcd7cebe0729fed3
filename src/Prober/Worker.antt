-- ===== src/Prober/Worker.antt =====
-- ami/native/prober/worker.go: the worker that probes one process and restarts it.
pub mod Laws
pub mod Runs
use mathlib.Core.Option
use baetyl.Base.{
  ℕ, suc, String, Bool, true, false, not, ◌||◌, ◌&&◌, Option, none, some, List, [], ◌∷◌, ltb, ◌+◌,
  ◌==◌, string_eq, nat_eq, if◌then◌else◌,
}
use baetyl.Prober.Probe.{
  ProbeResult, success, warning, failure, unknown, unset, ProbeSpec, Lib, Run, returns, panics,
  probe,
}

pub data ProbeType : Type 0 where
  liveness startup : ProbeType

pub record ProbeKey : Type 0 where
  pub name : String
  pub version : String
  pub probe_type : ProbeType

-- `service.Status`
pub data ServiceStatus : Type 0 where
  status_unknown status_running status_stopped : ServiceStatus

-- `worker`. `stop_ch` says that the channel's one place is taken. A nil probe is `none`.
pub record Worker : Type 0 where
  pub stop_ch : Bool
  pub spec : Option ProbeSpec
  pub probe_type : ProbeType
  pub last_result : ProbeResult
  pub result_run : ℕ

-- The probes of the one service of an application.
pub record Probes : Type 0 where
  pub liveness_probe : Option ProbeSpec
  pub startup_probe : Option ProbeSpec

unfoldable pub new_worker : ProbeType → Probes → Worker
new_worker t probes = record {
  stop_ch = false;
  spec = probes.liveness_probe;
  probe_type = t;
  last_result = unset;
  result_run = 0;
}

-- A send that does not wait.
unfoldable pub stop : Worker → Worker
stop w = record w { stop_ch = true }

-- `time.NewTicker(probeTickerPeriod)` wants a period above 0, and `w.spec.PeriodSeconds` a probe.
unfoldable pub starts : Worker → Run ℕ
starts w = elim (w.spec) [
  | none ↦ panics
  | some spec ↦ if spec.period_seconds == 0 then panics else returns spec.period_seconds
]

-- What one round finds outside: the status of the process, `none` for an error, and the seconds
-- since the worker was made; and the network that the probe meets.
pub record Round : Type 0 where
  pub status : Option ServiceStatus
  pub elapsed : ℕ
  pub net : Lib

-- What `doProbe` gives: whether to go on, the worker, and whether the process was told to restart.
pub record Done : Type 0 where
  pub keep_going : Bool
  pub worker : Worker
  pub restarted : Bool

abbrev pub idle : Bool → Worker → Done
idle going w = record { keep_going = going; worker = w; restarted = false }

abbrev pub is_same : ProbeResult → ProbeResult → Bool
is_same success success = true
is_same warning warning = true
is_same failure failure = true
is_same unknown unknown = true
is_same unset unset = true
is_same _ _ = false

-- `if w.lastResult == result { w.resultRun++ } else { ... }`
unfoldable pub note_result : ProbeResult → Worker → Worker
note_result r w =
    if is_same w.last_result r
    then record w { result_run = suc w.result_run }
    else record w { last_result = r; result_run = 1 }

-- The thresholds, and the restart.
unfoldable pub act : ProbeSpec → ProbeResult → Worker → Done
act spec r w =
    if (is_same r failure && ltb w.result_run spec.failure_threshold)
      || (is_same r success && ltb w.result_run spec.success_threshold)
    then idle true w
    else if is_same r failure
    then record { keep_going = true; worker = record w { result_run = 0 }; restarted = true }
    else idle true w

-- The part of `doProbe` after the tests of the status. A panic is caught, and the worker goes on.
unfoldable pub probe_round : Round → Worker → Done
unfolding note_result act
probe_round round w = elim (w.spec) [
  | none ↦ idle true w
  | some spec ↦
      if ltb round.elapsed spec.initial_delay_seconds
      then idle true w
      else elim (probe round.net spec) [
        | panics ↦ idle true w
        | returns answer ↦
            let (r, err) = answer in
            elim err [ some _ ↦ idle true w | none ↦ act spec r (note_result r w) ]
      ]
]

unfoldable pub do_probe : Round → Worker → Done
unfolding probe_round
do_probe round w = elim (round.status) [
  | none ↦ idle true w
  | some s ↦ elim s [
    | status_stopped ↦ idle false w
    | status_unknown ↦ elim (w.probe_type) [
      | liveness ↦ idle true w
      | startup ↦ probe_round round w
    ]
    | status_running ↦ elim (w.probe_type) [
      | startup ↦ idle true w
      | liveness ↦ probe_round round w
    ]
  ]
]

-- How `run` ends: the rounds it had, with the worker and the number of restarts.
pub record Ended : Type 0 where
  pub worker : Worker
  pub restarts : ℕ
  pub going : Bool

-- `for w.doProbe() { select { ... } }`, on the rounds to come and whether a stop came after each.
-- A stop that was sent before is taken after the first round, at the latest when both are ready.
unfoldable pub run : List (Round × Bool) → Worker → Ended
unfolding do_probe
run [] w = record { worker = w; restarts = 0; going = true }
run ((round, stopped) ∷ rest) w =
    let d = do_probe round w in
    let more = run rest d.worker in
    let now : ℕ = if d.restarted then 1 else 0 in
    if d.keep_going && not stopped
    then record more { restarts = now + more.restarts }
    else record { worker = d.worker; restarts = now; going = false }

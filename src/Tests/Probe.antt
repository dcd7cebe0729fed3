-- ===== src/Tests/Probe.antt =====
-- ami/native/prober on a network whose first request has no answer, and on one that always fails.
use baetyl.Base.{
  ℕ, zero, suc, String, false, Option, none, some, [], ◌∷◌, ◌≡◌, ◌≤◌, ◌<◌, refl, arith, string_eq,
  nat_eq,
}
use baetyl.Base.Dict
use baetyl.Base.Range.{insertion_order}
use baetyl.Prober.Probe.{
  ProbeResult, success, failure, unknown, Answer, ProbeSpec, Lib, returns, panics, run_probe,
  format_url, build_header, retry, probe, no_handler,
}
use baetyl.Prober.Probe.Laws.{Fails, probe_first, probe_errors}
use baetyl.Prober.Worker.{
  liveness, startup, status_running, ProbeKey, Worker, Round, new_worker, note_result, act,
  probe_round, do_probe, run, starts, stop,
}
use baetyl.Prober.Worker.Laws.{observed, level}
use baetyl.Prober.Worker.Runs.{
  Counted, run-Counted, restarts_at_threshold, restart_needs_failures, told, failures,
}
use baetyl.Prober.Manager.{
  App, Manager, probe_key_eq, probe_type_eq, probe_type_of, add_app, cleanup_apps,
}
use baetyl.Prober.Manager.Laws.{IsCounted, is_missing, third_miss_stops}
use baetyl.Prober.Manager.Reach.{made, added, cleaned, reached-IsCounted, startup_worker_panics}

abbrev answer : ProbeResult → Option String → Answer
answer r e = record { result = r; output = ""; error = e }

-- The first request has no answer, each later one has.
abbrev late : ℕ → Answer
late zero = answer unknown (some "no answer")
late (suc i) = answer success none

abbrev net : (ℕ → Answer) → Lib
net f = record {
  to_lower = λ s. s;
  join_host_port = λ host port. host;
  parse_url = λ s. none;
  http_probe = λ i url headers timeout. f i;
  tcp_probe = λ i host port timeout. f i;
}

abbrev health : ProbeSpec
health = record {
  http_get = some (record {
    scheme = "http";
    host = "";
    port = record { text = "80"; number = 80 };
    path = "/";
    headers = [];
  });
  tcp_socket = none;
  timeout_seconds = 1;
  initial_delay_seconds = 0;
  period_seconds = 10;
  failure_threshold = 2;
  success_threshold = 1;
}

first-Fails : (j : ℕ) → j < 1 → Fails (net late) health j
unfolding run_probe format_url build_header string_eq
first-Fails zero h = (answer unknown (some "no answer"), "no answer", refl, refl)
first-Fails (suc j) h = absurd (omega arith)

probe_first_example : probe (net late) health ≡ returns (success, none)
unfolding run_probe format_url build_header string_eq
probe_first_example =
    probe_first (net late) health 1 (answer success none) (omega arith) first-Fails refl refl

abbrev mute : ProbeSpec
mute = record health { http_get = none }

probe_errors_example : (e : String) × (probe (net late) mute ≡ returns (failure, some e))
unfolding run_probe
probe_errors_example =
    probe_errors (net late) mute (λ j h. (no_handler, "missing probe handler", refl, refl))

abbrev down : Round
down = record { status = some status_running; elapsed = 30; net = net (λ i. answer failure none) }

abbrev fresh : Worker
fresh = new_worker liveness (record { liveness_probe = some health; startup_probe = none })

run-Counted_example :
    Counted health
      ((down, false) ∷ (down, false) ∷ [])
      0
      liveness
      (run ((down, false) ∷ (down, false) ∷ []) fresh)
unfolding run do_probe probe_round note_result act new_worker level observed probe retry run_probe
    format_url build_header string_eq
run-Counted_example = run-Counted health ((down, false) ∷ (down, false) ∷ []) fresh refl refl

restarts_at_threshold_example :
    ((run ((down, false) ∷ (down, false) ∷ []) fresh).restarts ≡ 1)
    × (level (run ((down, false) ∷ (down, false) ∷ []) fresh).worker ≡ 0)
unfolding run do_probe probe_round note_result act new_worker level observed probe retry run_probe
    format_url build_header string_eq
restarts_at_threshold_example =
    restarts_at_threshold health ((down, false) ∷ (down, false) ∷ []) fresh refl refl refl
      (refl, (refl, tt)) (omega arith) refl

restart_needs_failures_example :
    (observed liveness health down ≡ some failure)
    × (2 ≤ suc (failures (told liveness health ((down, false) ∷ [])) 0))
unfolding run do_probe probe_round note_result act new_worker level observed probe retry run_probe
    format_url build_header string_eq
restart_needs_failures_example =
    restart_needs_failures health ((down, false) ∷ []) down fresh refl refl refl refl

abbrev key : ProbeKey
key = record { name = "app"; version = "v1"; probe_type = liveness }

abbrev one_app : Manager
one_app = record { workers = (key, fresh) ∷ []; status = (key, 0) ∷ [] }

third_miss_stops_example :
    let m1 = cleanup_apps insertion_order "application" [] one_app in
    let m2 = cleanup_apps insertion_order "application" [] m1 in
    (Dict.lookup key m1.workers ≡ some fresh)
    × (Dict.lookup key m2.workers ≡ some fresh)
    × (Dict.lookup key (cleanup_apps insertion_order "application" [] m2).workers
        ≡ some (stop fresh))
unfolding Dict.lookup Dict.has is_missing string_eq probe_key_eq probe_type_eq
third_miss_stops_example =
    third_miss_stops insertion_order (λ d u. u) "application" [] [] [] one_app key fresh (refl, tt)
      refl refl refl refl refl

abbrev app : App
app = record {
  name = "app";
  version = "v1";
  services = record { liveness_probe = none; startup_probe = some health } ∷ [];
}

abbrev empty_manager : Manager
empty_manager = record { workers = []; status = [] }

reached-IsCounted_example :
    let m = cleanup_apps insertion_order "application" [] (add_app (some app) empty_manager).0 in
    Dict.NodupKeys m.workers × IsCounted m
reached-IsCounted_example =
    reached-IsCounted insertion_order (λ d u. u) "application"
      (cleanup_apps insertion_order "application" [] (add_app (some app) empty_manager).0)
      (cleaned [] _ (added (some app) _ made))

startup_worker_panics_example :
    starts (new_worker startup (record { liveness_probe = none; startup_probe = some health }))
    ≡ panics
unfolding add_app probe_type_of Dict.has
startup_worker_panics_example = startup_worker_panics app empty_manager _ refl refl

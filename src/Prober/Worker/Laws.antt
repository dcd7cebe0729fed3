-- ===== src/Prober/Worker/Laws.antt =====
-- When a worker restarts its process.
use baetyl.Base.{
  String, ◌⊎◌, inl, inr, ℕ, suc, Bool, true, false, ◌||◌, Option, none, some, ltb, ◌≡◌, nat_eq,
  refl, arith, if◌then◌else◌,
}
use baetyl.Prober.Probe.{ProbeResult, failure, ProbeSpec, Run, returns, panics, probe}
use baetyl.Prober.Worker.{
  ProbeType, liveness, startup, status_unknown, status_running, status_stopped, Worker, Round, Done,
  is_same, note_result, act, probe_round, do_probe,
}

-- What a round tells a worker of this kind: nothing, or the result of a probe.
abbrev pub waits : ProbeType → Round → Bool
waits t round = elim (round.status) [
  | none ↦ true
  | some s ↦ elim s [
    | status_stopped ↦ true
    | status_unknown ↦ elim t [ liveness ↦ true | startup ↦ false ]
    | status_running ↦ elim t [ liveness ↦ false | startup ↦ true ]
  ]
]

unfoldable pub observed : ProbeType → ProbeSpec → Round → Option ProbeResult
observed t spec round =
    if waits t round || ltb round.elapsed spec.initial_delay_seconds
    then none
    else elim (probe round.net spec) [
      | panics ↦ none
      | returns answer ↦ let (r, err) = answer in elim err [ some _ ↦ none | none ↦ some r ]
    ]

-- The failures that the worker has in a row.
unfoldable pub level : Worker → ℕ
level w = if is_same w.last_result failure then w.result_run else 0

-- The abstract worker: `n` failures in a row, a restart when there are `threshold` of them.
abbrev pub counts : ℕ → Option ProbeResult → ℕ → ℕ × Bool
counts threshold none n = (n, false)
counts threshold (some r) n =
    if is_same r failure
    then (if ltb (suc n) threshold then (suc n, false) else (0, true))
    else (0, false)

act-level :
    (spec : ProbeSpec) (r : ProbeResult) (w : Worker)
    → let d = act spec r (note_result r w) in
      (d.keep_going ≡ true)
      × (d.worker.spec ≡ w.spec)
      × (d.worker.probe_type ≡ w.probe_type)
      × ((level d.worker, d.restarted) ≡ counts spec.failure_threshold (some r) (level w))
unfolding act note_result level
act-level spec r w = ground arith

Probe-cases :
    (m : Run (ProbeResult × Option String))
    → (m ≡ panics)
      ⊎ ((r : ProbeResult) × (m ≡ returns (r, none)))
      ⊎ ((r : ProbeResult) × (e : String) × (m ≡ returns (r, some e)))
Probe-cases panics = inl refl
Probe-cases (returns (r, none)) = inr (inl (r, refl))
Probe-cases (returns (r, some e)) = inr (inr (r, e, refl))

-- The worker keeps its probe and its kind, and takes the abstract step for what the round tells.
abbrev Steps : ProbeSpec → Worker → Option ProbeResult → Done → Type 0
Steps spec w told d =
    (d.worker.spec ≡ some spec)
    × (d.worker.probe_type ≡ w.probe_type)
    × ((level d.worker, d.restarted) ≡ counts spec.failure_threshold told (level w))

unfoldable told : ProbeSpec → Round → Option ProbeResult
told spec round =
    if ltb round.elapsed spec.initial_delay_seconds then none else elim (probe round.net spec) [
      | panics ↦ none
      | returns answer ↦ let (r, err) = answer in elim err [ some _ ↦ none | none ↦ some r ]
    ]

probe_round-counts :
    (spec : ProbeSpec) (round : Round) (w : Worker)
    → w.spec ≡ some spec
    → Steps spec w (told spec round) (probe_round round w)
unfolding probe_round told
probe_round-counts spec round w h = elim (Probe-cases (probe round.net spec)) [
  | inl p ↦ ground arith
  | inr (inl (r, p)) ↦ let (k, a, b, c) = act-level spec r w in ground arith
  | inr (inr (r, e, p)) ↦ ground arith
]

pub do_probe-counts :
    (spec : ProbeSpec) (round : Round) (w : Worker)
    → w.spec ≡ some spec
    → Steps spec w (observed w.probe_type spec round) (do_probe round w)
unfolding do_probe observed told
do_probe-counts spec round w h = let s = probe_round-counts spec round w h in ground arith

-- ===== src/Prober/Worker/Runs.antt =====
-- A worker over many rounds: how often it restarts its process, and why.
use baetyl.Base.{
  ℕ, suc, Bool, true, not, ◌&&◌, Option, none, some, List, [], ◌∷◌, ◌+◌, ◌≤◌, ◌<◌, ◌≡◌, nat_eq,
  refl, sym, ap, ◌∙◌, subst, arith, if◌then◌else◌, length, Bool-cases, inl, inr,
}
use baetyl.Prober.Probe.{ProbeResult, failure, ProbeSpec}
use baetyl.Prober.Worker.{ProbeType, Worker, Round, is_same, do_probe, Ended, run}
use baetyl.Prober.Worker.Laws.{observed, level, counts, do_probe-counts}

-- What the rounds told, in their order.
abbrev pub told : ProbeType → ProbeSpec → List (Round × Bool) → List (Option ProbeResult)
told t spec [] = []
told t spec ((round, _) ∷ rest) = observed t spec round ∷ told t spec rest

-- The abstract worker over many rounds: the failures in a row at the end, and the restarts.
abbrev pub counted : ℕ → List (Option ProbeResult) → ℕ → ℕ × ℕ
counted threshold [] n = (n, 0)
counted threshold (o ∷ os) n =
    let (n', restarted) = counts threshold o n in
    let (m, k) = counted threshold os n' in (m, (if restarted then 1 else 0) + k)

abbrev pub Counted : ProbeSpec → List (Round × Bool) → ℕ → ProbeType → Ended → Type 0
Counted spec rounds n t e =
    (e.worker.spec ≡ some spec)
    × (e.worker.probe_type ≡ t)
    × ((level e.worker, e.restarts) ≡ counted spec.failure_threshold (told t spec rounds) n)

-- While a worker is still going, its level and the number of its restarts are those of a
-- counter that steps by what the rounds told.
pub run-Counted :
    (spec : ProbeSpec) (rounds : List (Round × Bool)) (w : Worker)
    → w.spec ≡ some spec
    → (run rounds w).going ≡ true
    → Counted spec rounds (level w) w.probe_type (run rounds w)
unfolding run
run-Counted spec [] w h g = (h, refl, refl)
run-Counted spec ((round, stopped) ∷ rest) w h g =
    let (a, b, c) = do_probe-counts spec round w h in
    elim (Bool-cases ((do_probe round w).keep_going && not stopped)) [
      | inr e ↦ ground arith
      | inl e ↦
          let next = run-Counted spec rest (do_probe round w).worker a (ground arith) in
          let (x, y, z) =
            subst
              (λ t.
                Counted spec rest (level (do_probe round w).worker) t
                  (run rest (do_probe round w).worker))
              b next in
          ground arith
    ]

-- Every round told a failure.
abbrev pub AllFailed : List (Option ProbeResult) → Type 0
AllFailed [] = Unit
AllFailed (o ∷ os) = (o ≡ some failure) × AllFailed os

counted-AllFailed :
    (threshold n : ℕ) (os : List (Option ProbeResult))
    → AllFailed os
    → n < threshold
    → length os + n ≡ threshold
    → counted threshold os n ≡ (0, 1)
counted-AllFailed threshold n [] h less e = absurd (omega arith)
counted-AllFailed threshold n (o ∷ []) (h, _) less e = ground arith
counted-AllFailed threshold n (o ∷ p ∷ os) (h, hs) less e =
    let next = counted-AllFailed threshold (suc n) (p ∷ os) hs (omega arith) (omega arith) in
    ground arith

-- The failures since the last round that told something else.
abbrev pub failures : List (Option ProbeResult) → ℕ → ℕ
failures [] n = n
failures (none ∷ os) n = failures os n
failures (some r ∷ os) n = if is_same r failure then failures os (suc n) else failures os 0

failures_mono : (os : List (Option ProbeResult)) (m n : ℕ) → m ≤ n → failures os m ≤ failures os n
failures_mono [] m n h = h
failures_mono (none ∷ os) m n h = failures_mono os m n h
failures_mono (some r ∷ os) m n h =
    let a = failures_mono os (suc m) (suc n) (omega arith) in
    let b = failures_mono os 0 0 (omega arith) in ground arith

counted-failures :
    (threshold : ℕ) (os : List (Option ProbeResult)) (n : ℕ)
    → (counted threshold os n).0 ≤ failures os n
counted-failures threshold [] n = omega arith
counted-failures threshold (none ∷ os) n = counted-failures threshold os n
counted-failures threshold (some r ∷ os) n =
    let a = counted-failures threshold os (suc n) in
    let b = counted-failures threshold os 0 in
    let c = failures_mono os 0 (suc n) (omega arith) in ground arith

length-told :
    (t : ProbeType) (spec : ProbeSpec) (rounds : List (Round × Bool))
    → length (told t spec rounds) ≡ length rounds
length-told t spec [] = refl
length-told t spec (_ ∷ rest) = ap (λ n. suc n) (length-told t spec rest)

counts-restart :
    (threshold : ℕ) (o : Option ProbeResult) (n : ℕ)
    → (counts threshold o n).1 ≡ true
    → (o ≡ some failure) × (threshold ≤ suc n)
counts-restart threshold none n h = ground arith
counts-restart threshold (some r) n h = ground arith

-- A worker with no failures in a row, whose rounds all tell a failure, as many as the
-- threshold, which is above 0, and that is still going, has restarted its process once and has
-- no failures in a row.
pub restarts_at_threshold :
    (spec : ProbeSpec) (rounds : List (Round × Bool)) (w : Worker)
    → w.spec ≡ some spec
    → level w ≡ 0
    → (run rounds w).going ≡ true
    → AllFailed (told w.probe_type spec rounds)
    → 0 < spec.failure_threshold
    → length rounds ≡ spec.failure_threshold
    → ((run rounds w).restarts ≡ 1) × (level (run rounds w).worker ≡ 0)
restarts_at_threshold spec rounds w h fresh g failed pos e =
    let (_, _, c) = run-Counted spec rounds w h g in
    let n =
      counted-AllFailed spec.failure_threshold 0 (told w.probe_type spec rounds) failed pos
        (let k = length-told w.probe_type spec rounds in omega arith) in
    ground arith

-- If a worker that began with no failures in a row restarts its process in a round, that round
-- tells a failure and the failures since the last other result, with it, are at least the
-- threshold.
pub restart_needs_failures :
    (spec : ProbeSpec) (rounds : List (Round × Bool)) (round : Round) (w : Worker)
    → w.spec ≡ some spec
    → level w ≡ 0
    → (run rounds w).going ≡ true
    → (do_probe round (run rounds w).worker).restarted ≡ true
    → (observed w.probe_type spec round ≡ some failure)
      × (spec.failure_threshold ≤ suc (failures (told w.probe_type spec rounds) 0))
restart_needs_failures spec rounds round w h fresh g restarted =
    let (a, b, c) = run-Counted spec rounds w h g in
    let (_, _, d) = do_probe-counts spec round (run rounds w).worker a in
    let e = counted-failures spec.failure_threshold (told w.probe_type spec rounds) 0 in
    let (x, y) =
      counts-restart spec.failure_threshold (observed (run rounds w).worker.probe_type spec round)
        (level (run rounds w).worker) (sym (ap (λ (p : ℕ × Bool). p.1) d) ∙ restarted) in
    let small =
      ap (λ (p : ℕ × ℕ). p.0) c
      ∙ ap (λ n. (counted spec.failure_threshold (told w.probe_type spec rounds) n).0) fresh in
    (subst (λ t. observed t spec round ≡ some failure) b x, omega arith)

-- ===== src/Prober/Probe/Laws.antt =====
-- A probe is decided by the first of three attempts that has no error.
use baetyl.Base.{
  subst, ◌∙◌, if◌then◌else◌, ℕ, zero, suc, String, none, some, ◌≡◌, refl, arith, ◌<◌, ◌+◌,
}
use baetyl.Prober.Probe.{
  success, failure, ProbeSpec, Answer, Lib, returns, panics, run_probe, retry, is_good, probe,
  TcpSocket, unknown,
}

-- Attempt `i` of the probe has this answer.
abbrev pub Answers : Lib → ProbeSpec → ℕ → Answer → Type 0
Answers lib p i a = run_probe lib i p ≡ returns a

abbrev nothing : Answer
nothing = record { result = unknown; output = ""; error = none }

abbrev pub Fails : Lib → ProbeSpec → ℕ → Type 0
Fails lib p i = (a : Answer) × (e : String) × Answers lib p i a × (a.error ≡ some e)

module _ (lib : Lib) where
  retry_done :
      (left i : ℕ) (p : ProbeSpec) (last a : Answer)
      → Answers lib p i a
      → a.error ≡ none
      → retry lib (suc left) i p last ≡ returns a
  unfolding retry
  retry_done left i p last a h e = ground arith

  retry_again :
      (left i : ℕ) (p : ProbeSpec) (last a : Answer) (e : String)
      → Answers lib p i a
      → a.error ≡ some e
      → retry lib (suc left) i p last ≡ retry lib left (suc i) p a
  unfolding retry
  retry_again left i p last a e h q = ground arith

  shift : (j i : ℕ) (P : ℕ → Type 0) → P (suc j + i) → P (j + suc i)
  shift j i P h = subst P (omega arith) h

  here : (i : ℕ) (P : ℕ → Type 0) → P (0 + i) → P i
  here i P h = subst P (omega arith) h

  unshift : (j : ℕ) (P : ℕ → Type 0) → P j → P (j + 0)
  unshift j P h = subst P (omega arith) h

  retry_none : (i : ℕ) (p : ProbeSpec) (a : Answer) → retry lib 0 i p a ≡ returns a
  unfolding retry
  retry_none i p a = refl

  pub retry_first :
      (left i k : ℕ) (p : ProbeSpec) (last a : Answer)
      → k < left
      → ((j : ℕ) → j < k → Fails lib p (j + i))
      → Answers lib p (k + i) a
      → a.error ≡ none
      → retry lib left i p last ≡ returns a
  retry_first zero i k p last a small failed h e = absurd (omega arith)
  retry_first (suc left) i zero p last a small failed h e =
      retry_done left i p last a (here i (λ n. Answers lib p n a) h) e
  retry_first (suc left) i (suc k) p last a small failed h e =
      let (a0, e0, ran, q) = here i (Fails lib p) (failed 0 (omega arith)) in
      retry_again left i p last a0 e0 ran q
      ∙ retry_first left (suc i) k p a0 a (omega arith)
          (λ j less. shift j i (Fails lib p) (failed (suc j) (omega arith)))
          (shift k i (λ n. Answers lib p n a) h) e

  pub retry_all_fail :
      (left i : ℕ) (p : ProbeSpec) (last : Answer)
      → ((j : ℕ) → j < suc left → Fails lib p (j + i))
      → (a : Answer) × (e : String) × (retry lib (suc left) i p last ≡ returns a)
        × (a.error ≡ some e)
  retry_all_fail zero i p last failed =
      let (a, e, ran, q) = here i (Fails lib p) (failed 0 (omega arith)) in
      (a, e, retry_again 0 i p last a e ran q ∙ retry_none (suc i) p a, q)
  retry_all_fail (suc left) i p last failed =
      let (a0, e0, ran, q) = here i (Fails lib p) (failed 0 (omega arith)) in
      let (a, e, h, r) =
        retry_all_fail left (suc i) p a0
          (λ j less. shift j i (Fails lib p) (failed (suc j) (omega arith))) in
      (a, e, retry_again (suc left) i p last a0 e0 ran q ∙ h, r)

  -- The probe has the verdict of the first of three attempts that has no error, if one of
  -- them has none.
  pub probe_first :
      (p : ProbeSpec) (k : ℕ) (a : Answer)
      → k < 3
      → ((j : ℕ) → j < k → Fails lib p j)
      → Answers lib p k a
      → a.error ≡ none
      → probe lib p ≡ returns (if is_good a.result then success else failure, none)
  unfolding probe
  probe_first p k a small failed h e =
      let r =
        retry_first 3 0 k p nothing a small (λ j less. unshift j (Fails lib p) (failed j less))
          (unshift k (λ n. Answers lib p n a) h) e in
      ground arith

  -- When all three attempts have errors, the probe has one.
  pub probe_errors :
      (p : ProbeSpec)
      → ((j : ℕ) → j < 3 → Fails lib p j)
      → (e : String) × (probe lib p ≡ returns (failure, some e))
  unfolding probe
  probe_errors p failed =
      let (a, e, h, q) =
        retry_all_fail 2 0 p nothing (λ j less. unshift j (Fails lib p) (failed j less)) in
      (e, ground arith)

  -- A TCP probe panics on its first attempt.
  pub probe_tcp :
      (p : ProbeSpec) (socket : TcpSocket)
      → p.http_get ≡ none
      → p.tcp_socket ≡ some socket
      → probe lib p ≡ panics
  unfolding probe retry run_probe
  probe_tcp p socket h q = ground arith

-- ===== src/Observability/Health.antt =====
-- What the health endpoints tell.
use mathlib.Core.Path.{subst}
use logateway.Prelude.{
  sym, ◌∙◌, Option, none, some, if◌then◌else◌, ◌≡◌, ◌≢◌, ◌↔◌, refl, true, false, List, [], ◌∷◌, All,
  arith, Bool-cases, inl, inr, ltb, length,
}
use logateway.Prelude.Bytes.{Bytes, codes, beq, beq_refl, beq→≡, beq_iff}
use logateway.Prelude.Maps.{lookup, put, lookup-put}
use logateway.Sink.Registry.{Sink}
use logateway.Observability.{
  Probed, returned_nil, returned_error, panicked, timed_out, Probe, sink_probe, gateway_probe,
  HealthChecker, new_health_checker, run_probe, check_probes, check_all, all_healthy, is_healthy,
  health_endpoint, ready_endpoint, register, register_sinks, register_sink_probes,
}

-- Every probe returns nil in time.
abbrev pub AllPass : (Bytes → Probe → Probed) → List (Bytes × Probe) → Type 0
AllPass ends ps = All (λ (e : Bytes × Probe). ends e.0 e.1 ≡ returned_nil) ps

run_probe_iff : (p : Probed) → (run_probe p ≡ true) ↔ (p ≡ returned_nil)
unfolding run_probe
run_probe_iff returned_nil = ground arith
run_probe_iff returned_error = ground arith
run_probe_iff panicked = ground arith
run_probe_iff timed_out = ground arith

check_probes-AllPass :
    (ends : Bytes → Probe → Probed) (ps : List (Bytes × Probe))
    → (all_healthy (check_probes ends ps) ≡ true) ↔ AllPass ends ps
unfolding all_healthy check_probes
check_probes-AllPass ends [] = (λ h. tt, λ h. refl)
check_probes-AllPass ends ((name, probe) ∷ ps) =
    let ih = check_probes-AllPass ends ps in
    let here = run_probe_iff (ends name probe) in
    (λ h. ground (arith, ih, here), λ h. ground (arith, ih, here))

put-ne-nil : (name : Bytes) (p : Probe) (m : List (Bytes × Probe)) → put name p m ≢ []
unfolding put
put-ne-nil name p [] = λ h. ground arith
put-ne-nil name p ((n, q) ∷ m) = λ h. ground arith

has_probe :
    (ends : Bytes → Probe → Probed) (ps : List (Bytes × Probe))
    → ps ≢ []
    → ltb 0 (length (check_probes ends ps)) ≡ true
unfolding check_probes
has_probe ends [] h = absurd (h refl)
has_probe ends ((name, probe) ∷ ps) h = ground arith

healthy_after_check :
    (ends : Bytes → Probe → Probed) (h : HealthChecker)
    → h.probes ≢ []
    → (is_healthy (check_all ends h) ≡ true) ↔ AllPass ends h.probes
unfolding is_healthy check_all
healthy_after_check ends h some_probe =
    let passes = check_probes-AllPass ends h.probes in
    let present = has_probe ends h.probes some_probe in
    (λ e. passes.0 (ground (arith, present)), λ e. ground (arith, present, passes.1 e))

-- the two endpoints by the health
endpoints :
    (h : HealthChecker)
    → ((is_healthy h ≡ true) ↔ ((health_endpoint h).0 ≡ 200))
      × (((health_endpoint h).0 ≡ 200) ↔ (ready_endpoint h ≡ (200, true)))
      × (((health_endpoint h).0 ≡ 503) ↔ (ready_endpoint h ≡ (503, false)))
unfolding health_endpoint ready_endpoint
endpoints h = elim (Bool-cases (is_healthy h)) [
  | inl good ↦ ground (arith, good)
  | inr bad ↦ ground (arith, bad)
]

-- the probe of a name among those of sinks: the last one
unfoldable pub last_sink : List (Bytes × Sink) → Bytes → Option Sink
unfolding beq
last_sink [] name = none
last_sink ((n, sink) ∷ infos) name = elim (last_sink infos name) [
  | some later ↦ some later
  | none ↦ if beq n name then some sink else none
]

-- The probe that answers for a name: that of the gateway for its own name, and else the health
-- check of the last sink of that name.
unfoldable pub probe_of : List (Bytes × Sink) → Bytes → Option Probe
unfolding last_sink
probe_of infos name =
    if beq (codes "gateway") name
    then some gateway_probe
    else elim (last_sink infos name) [ some sink ↦ some (sink_probe sink) | none ↦ none ]

lookup-register_sinks :
    (infos : List (Bytes × Sink)) (h : HealthChecker) (name : Bytes)
    → lookup name (register_sinks infos h).probes ≡ elim (last_sink infos name) [
      | some sink ↦ some (sink_probe sink)
      | none ↦ lookup name h.probes
    ]
unfolding register_sinks register last_sink
lookup-register_sinks [] h name = refl
lookup-register_sinks ((n, sink) ∷ infos) h name =
    let ih = lookup-register_sinks infos (register n (sink_probe sink) h) name in
    ground (arith, ih, lookup-put n name (sink_probe sink) h.probes)

lookup-probes :
    (infos : List (Bytes × Sink)) (name : Bytes)
    → lookup name (register_sink_probes infos new_health_checker).probes ≡ probe_of infos name
unfolding register_sink_probes register probe_of lookup
lookup-probes infos name =
    let h = register_sinks infos new_health_checker in
    ground (
      arith,
      lookup-put (codes "gateway") name gateway_probe h.probes,
      lookup-register_sinks infos new_health_checker name,
    )

-- no name twice
abbrev Distinct : List (Bytes × Probe) → Type 0
Distinct [] = Unit
Distinct ((n, p) ∷ ps) = (lookup n ps ≡ none) × Distinct ps

put-Distinct :
    (n : Bytes) (p : Probe) (ps : List (Bytes × Probe)) → Distinct ps → Distinct (put n p ps)
unfolding put lookup
put-Distinct n p [] h = (refl, tt)
put-Distinct n p ((m, q) ∷ ps) h = elim (Bool-cases (beq m n)) [
  | inl same ↦ rw (same, put) ((subst (λ k. lookup k ps ≡ none) (beq→≡ m n same) h.0, h.1))
  | inr other ↦
      rw (other, put)
        ((
          ground (arith, lookup-put n m p ps, beq_iff m n, beq_iff n m, h.0),
          put-Distinct n p ps h.1,
        ))
]

register_sinks-Distinct :
    (infos : List (Bytes × Sink)) (h : HealthChecker)
    → Distinct h.probes
    → Distinct (register_sinks infos h).probes
unfolding register_sinks register
register_sinks-Distinct [] h d = d
register_sinks-Distinct ((n, sink) ∷ infos) h d =
    register_sinks-Distinct infos (register n (sink_probe sink) h)
      (put-Distinct n (sink_probe sink) h.probes d)

-- Each probe that answers for a name returns nil in time.
abbrev pub PassByName : (Bytes → Probe → Probed) → (Bytes → Option Probe) → Type 0
PassByName ends named =
    (name : Bytes) (p : Probe) → named name ≡ some p → ends name p ≡ returned_nil

AllPass-PassByName :
    (ends : Bytes → Probe → Probed) (ps : List (Bytes × Probe))
    → Distinct ps
    → AllPass ends ps ↔ PassByName ends (λ name. lookup name ps)
unfolding lookup
AllPass-PassByName ends [] d = (λ h name p found. absurd (ground arith), λ h. tt)
AllPass-PassByName ends ((n, q) ∷ ps) d =
    let ih = AllPass-PassByName ends ps d.1 in
    (
      λ h name p found. elim (Bool-cases (beq n name)) [
        | inl same ↦
            let here : q ≡ p = ground (arith, same) in
            subst (λ k. ends k p ≡ returned_nil) (beq→≡ n name same)
              (subst (λ k. ends n k ≡ returned_nil) here h.0)
        | inr other ↦ ih.0 h.1 name p (ground (arith, other))
      ],
      λ h. (
        h n q (ground (arith, beq_refl n)),
        ih.1 (λ name p found. elim (Bool-cases (beq n name)) [
          | inl same ↦
              absurd
                (ground (arith, found, subst (λ k. lookup k ps ≡ none) (beq→≡ n name same) d.0))
          | inr other ↦ h name p (ground (arith, other, found))
        ]),
      ),
    )

unchecked :
    (infos : List (Bytes × Sink)) (h : HealthChecker)
    → h.statuses ≡ []
    → (register_sinks infos h).statuses ≡ []
unfolding register_sinks register
unchecked [] h e = e
unchecked ((name, sink) ∷ infos) h e = unchecked infos (register name (sink_probe sink) h) e

not_yet : (h : HealthChecker) → h.statuses ≡ [] → (health_endpoint h).0 ≡ 503
unfolding health_endpoint is_healthy all_healthy
not_yet h e = ground (arith, e)

-- With the probes of any sinks and that of the gateway registered: /health answers 503 until the
-- first check. After a check it answers 200 exactly if, for every name, the probe that answers for
-- it returned nil within its time, where a panic counts as a failure: the gateway's own for the
-- name `gateway`, and for any other name the health check of the last sink of that name. And
-- /health and /ready agree on 200 and on 503.
pub health_endpoint-PassByName :
    (infos : List (Bytes × Sink)) (ends : Bytes → Probe → Probed)
    → let h = register_sink_probes infos new_health_checker in
      let r = health_endpoint (check_all ends h) in
      ((health_endpoint h).0 ≡ 503)
      × ((r.0 ≡ 200) ↔ PassByName ends (probe_of infos))
      × ((r.0 ≡ 200) ↔ (ready_endpoint (check_all ends h) ≡ (200, true)))
      × ((r.0 ≡ 503) ↔ (ready_endpoint (check_all ends h) ≡ (503, false)))
unfolding register_sink_probes register
health_endpoint-PassByName infos ends =
    let h = register_sink_probes infos new_health_checker in
    let h' = check_all ends h in
    let some_probe = put-ne-nil (codes "gateway") gateway_probe _ in
    let healthy = healthy_after_check ends h some_probe in
    let distinct : Distinct h.probes =
      put-Distinct (codes "gateway") gateway_probe (register_sinks infos new_health_checker).probes
        (register_sinks-Distinct infos new_health_checker tt) in
    let named = AllPass-PassByName ends h.probes distinct in
    let e = endpoints h' in
    (
      not_yet h (unchecked infos new_health_checker refl),
      (
        λ k name p found. named.0 (healthy.0 (e.0.1 k)) name p (lookup-probes infos name ∙ found),
        λ k. e.0.0 (
            healthy.1
              (named.1 (λ name p found. k name p (sym (lookup-probes infos name) ∙ found)))),
      ),
      e.1,
      e.2,
    )

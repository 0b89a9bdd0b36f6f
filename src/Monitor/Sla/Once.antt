-- ===== src/Monitor/Sla/Once.antt =====
-- No execution is alerted twice with one severity while it runs.
use task_orchestrator_engine.Prelude.{
  ℕ, ◌+◌, ◌≤◌, ◌≡◌, ap, subst, inl, inr, ◌∙◌, Bool, true, false, not, ◌&&◌, Option, none, some,
  List, [], ◌∷◌, ◌++◌, map, elem, every, arith, ◌==◌, ==_iff, ==_refl, if◌then◌else◌, Bool-cases,
}
use task_orchestrator_engine.Types.{Ident, Instant, SlaConfig, Execution}
use task_orchestrator_engine.Monitor.Sla.{
  Severity, warning, critical, Alert, Alerted, SlaChecker, alerted_set, sla_of, Running,
  running_executions, alert_of, add, raise, is_over, is_near, check_sla, check_row, check_rows,
  cleanup_completed_executions, check,
}

abbrev same_severity : Severity → Severity → Bool
same_severity warning warning = true
same_severity critical critical = true
same_severity _ _ = false

-- How many alerts of a severity an execution has.
abbrev pub alerts_of : Ident → Severity → List Alert → ℕ
alerts_of x sev [] = 0
alerts_of x sev (a ∷ more) =
    (if a.execution_id == x && same_severity a.severity sev then 1 else 0) + alerts_of x sev more

alerts_of-append :
    (x : Ident) (sev : Severity) (more bs : List Alert)
    → alerts_of x sev (more ++ bs) ≡ alerts_of x sev more + alerts_of x sev bs
alerts_of-append x sev [] bs = omega arith
alerts_of-append x sev (a ∷ more) bs = omega (arith, alerts_of-append x sev more bs)

abbrev flag : Severity → Alerted → ℕ
flag warning set = if set.has_warning then 1 else 0
flag critical set = if set.has_critical then 1 else 0

apart : (a x : ℕ) → (x == a) ≡ false → (a == x) ≡ false
apart a x h = ground (arith, ==_iff a x, ==_iff x a)

-- At most one alert, and none without the flag.
abbrev Flagged : Ident → Severity → SlaChecker → Type 0
Flagged x sev s = alerts_of x sev s.alerts ≤ flag sev (alerted_set (s.alerted_executions x))

raise_count :
    (new sev : Severity) (set : Alerted) (n : ℕ)
    → flag new set ≡ 0
    → n ≤ flag sev set
    → n + (if same_severity new sev then 1 else 0) ≤ flag sev (add new set)
raise_count warning warning set n free h = omega (arith, free, h)
raise_count warning critical set n free h = omega (arith, h)
raise_count critical warning set n free h = omega (arith, h)
raise_count critical critical set n free h = omega (arith, free, h)

raise-Flagged :
    (x : Ident) (sev : Severity) (a : Alert) (s : SlaChecker)
    → flag a.severity (alerted_set (s.alerted_executions a.execution_id)) ≡ 0
    → Flagged x sev s
    → Flagged x sev (raise a (alerted_set (s.alerted_executions a.execution_id)) s)
raise-Flagged x sev a s free h =
    let grown = alerts_of-append x sev s.alerts (a ∷ []) in
    elim (Bool-cases (x == a.execution_id)) [
      | inl e ↦
          let same = (==_iff x a.execution_id).0 e in
          let set = alerted_set (s.alerted_executions a.execution_id) in
          let old =
            subst (λ y. alerts_of x sev s.alerts ≤ flag sev (alerted_set (s.alerted_executions y)))
              same h in
          let back = ap (λ y. a.execution_id == y) same ∙ ==_refl a.execution_id in
          rw (e, grown, back)
            (omega (arith, raise_count a.severity sev set (alerts_of x sev s.alerts) free old))
      | inr n ↦ let back = apart a.execution_id x n in rw (n, grown, back) (omega (arith, h))
    ]

check_sla-Flagged :
    (x : Ident) (sev : Severity) (now : Instant) (row : Running) (sla : SlaConfig) (s : SlaChecker)
    → Flagged x sev s
    → Flagged x sev (check_sla now row sla s)
unfolding check_sla
check_sla-Flagged x sev now row sla s h =
    let set = alerted_set (s.alerted_executions row.id) in
    elim (Bool-cases (is_over row sla now && not set.has_critical)) [
      | inl c ↦ rw c (raise-Flagged x sev (alert_of row sla critical now) s (ground arith) h)
      | inr c ↦ elim (Bool-cases (is_near row sla now && not set.has_warning)) [
        | inl w ↦ rw (c, w) (raise-Flagged x sev (alert_of row sla warning now) s (ground arith) h)
        | inr w ↦ rw (c, w) h
      ]
    ]

check_row-Flagged :
    (x : Ident) (sev : Severity) (now : Instant) (row : Running) (o : Option SlaConfig)
    (s : SlaChecker)
    → Flagged x sev s
    → Flagged x sev (check_row now row o s)
unfolding check_row
check_row-Flagged x sev now row none s h = h
check_row-Flagged x sev now row (some sla) s h = check_sla-Flagged x sev now row sla s h

check_rows-Flagged :
    (x : Ident) (sev : Severity) (now : Instant) (configs : List SlaConfig) (rows : List Running)
    (s : SlaChecker)
    → Flagged x sev s
    → Flagged x sev (check_rows now configs rows s)
unfolding check_rows
check_rows-Flagged x sev now configs [] s h = h
check_rows-Flagged x sev now configs (r ∷ rs) s h =
    check_rows-Flagged x sev now configs rs (check_row now r (sla_of r.workflow_id configs) s)
      (check_row-Flagged x sev now r (sla_of r.workflow_id configs) s h)

cleanup-Flagged :
    (x : Ident) (sev : Severity) (active : List Ident) (s : SlaChecker)
    → elem x active ≡ true
    → Flagged x sev s
    → Flagged x sev (cleanup_completed_executions active s)
unfolding cleanup_completed_executions
cleanup-Flagged x sev active s m h = rw m h

-- What one call of `check` reads: the clock and the two tables.
pub record Reading : Type 0 where
  pub now : Instant
  pub configs : List SlaConfig
  pub executions : List Execution

-- The execution is among the running ones that the call looks at; without configurations it looks
-- at none and forgets none.
abbrev pub remembers : Ident → Instant → List SlaConfig → List Execution → Bool
remembers x now [] executions = true
remembers x now (c ∷ cs) executions =
    elem x (map (λ r. r.id) (running_executions (c ∷ cs) executions))

check-Flagged :
    (x : Ident) (sev : Severity) (now : Instant) (configs : List SlaConfig)
    (executions : List Execution) (s : SlaChecker)
    → remembers x now configs executions ≡ true
    → Flagged x sev s
    → Flagged x sev (check now configs executions s)
unfolding check
check-Flagged x sev now [] executions s m h = h
check-Flagged x sev now (c ∷ cs) executions s m h =
    let rows = running_executions (c ∷ cs) executions in
    cleanup-Flagged x sev (map (λ r. r.id) rows) (check_rows now (c ∷ cs) rows s) m
      (check_rows-Flagged x sev now (c ∷ cs) rows s h)

-- The calls of the timer, from a fresh checker.
unfoldable pub checks : List Reading → SlaChecker → SlaChecker
checks [] s = s
checks (r ∷ rs) s = checks rs (check r.now r.configs r.executions s)

abbrev pub fresh : SlaChecker
fresh = record { alerted_executions = λ _. none; alerts = [] }

checks-Flagged :
    (x : Ident) (sev : Severity) (rs : List Reading) (s : SlaChecker)
    → every (λ r. remembers x r.now r.configs r.executions) rs ≡ true
    → Flagged x sev s
    → Flagged x sev (checks rs s)
unfolding checks
checks-Flagged x sev [] s m h = h
checks-Flagged x sev (r ∷ rs) s m h =
    checks-Flagged x sev rs (check r.now r.configs r.executions s) (ground arith)
      (check-Flagged x sev r.now r.configs r.executions s (ground arith) h)

flag-le : (sev : Severity) (set : Alerted) → flag sev set ≤ 1
flag-le warning set = ground arith
flag-le critical set = ground arith

-- From a fresh checker, and as long as each call of `check` still finds the execution running, the
-- execution gets at most one alert of each severity, whatever the readings of the clock and the
-- tables are.
pub checks-alerts_of :
    (x : Ident) (sev : Severity) (rs : List Reading)
    → every (λ r. remembers x r.now r.configs r.executions) rs ≡ true
    → alerts_of x sev (checks rs fresh).alerts ≤ 1
checks-alerts_of x sev rs m =
    let h = checks-Flagged x sev rs fresh m (omega arith) in
    omega (arith, h, flag-le sev (alerted_set ((checks rs fresh).alerted_executions x)))

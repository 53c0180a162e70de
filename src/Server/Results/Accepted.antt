-- ===== src/Server/Results/Accepted.antt =====
-- What a response that is accepted of a worker satisfies.
use blast_radius.Base.{
  ◌-ℤ◌, int_eq, ◌≡◌, ◌≢◌, refl, sym, ap, String, Bool, true, false, not, ◌&&◌, ◌==◌, ==_iff,
  string_eq, Option, some, none, List, Bool-cases, Option-cases, inl, inr, arith,
}
use blast_radius.Python.{
  Value, Fields, null, bool, int, float, list, dict, end, field, str, policy_str, text_of,
}
use blast_radius.Policies.{mapping_of}
use blast_radius.Decision.{Decision, is_block}
use blast_radius.Server.Results.{
  Report, Response, failed, succeeded, decision_of, is_safe, both_complete, some_truncated,
  is_consistent, same, markdown_agrees, sarif_agrees, validate_result, of_error, of_result,
  of_field, worker_response,
}

same-eq : (a b : Bool) → same a b ≡ true → a ≡ b
same-eq true true h = refl
same-eq false false h = refl
same-eq true false h = sym h
same-eq false true h = h

false_true : {A : Type 0} → false ≡ true → A
false_true h = absurd (ground arith)

abbrev reported : String
reported = "invalid_worker_result"

not_empty : reported ≢ ""
not_empty k = false_true ((==_iff reported "").1 k)

mapping-dict : (v : Value) (fs : Fields) → mapping_of v ≡ some fs → v ≡ dict fs
mapping-dict (dict gs) fs h = ground arith
mapping-dict null fs h = absurd (ground arith)
mapping-dict (bool _) fs h = absurd (ground arith)
mapping-dict (int _) fs h = absurd (ground arith)
mapping-dict (float _ _ _) fs h = absurd (ground arith)
mapping-dict (str _) fs h = absurd (ground arith)
mapping-dict (policy_str _ _) fs h = absurd (ground arith)
mapping-dict (list _) fs h = absurd (ground arith)

module _ (parse : Fields → Option Report) (splitlines : String → List String) where
  -- What a result states of itself.
  pub record IsAccepted (result : Fields) : Type 0 where
    pub report : Report
    pub decision : Decision
    pub parsed : parse result ≡ some report
    pub decided : decision_of report.decision ≡ some decision
    pub complete : report.analysis_complete ≡ both_complete report
    pub exact : both_complete report ≡ true → some_truncated report ≡ false
    pub safety : is_safe decision ≡ true → both_complete report ≡ true
    pub passed : report.passed ≡ not (is_block decision)
    pub delta : report.score.delta ≡ report.after.score -ℤ report.before.score

  pub record Accepts (v : Value) (result : Fields) : Type 0 where
    pub raw : v ≡ dict (field "result" (dict result) end)
    pub accepted : IsAccepted result

  validated :
      (result : Fields) (p : Report) (d : Decision)
      → parse result ≡ some p
      → decision_of p.decision ≡ some d
      → is_consistent p d ≡ true
      → IsAccepted result
  unfolding is_consistent
  validated result p d e f h = record {
    report = p;
    decision = d;
    parsed = e;
    decided = f;
    complete = same-eq p.analysis_complete (both_complete p) (ground arith);
    exact = λ c. ground arith;
    safety = λ c. ground arith;
    passed = same-eq p.passed (not (is_block d)) (ground arith);
    delta = ground (
      arith,
      ==_iff p.score.delta (p.after.score -ℤ p.before.score),
      ==_iff p.score.after p.after.score,
      ==_iff p.score.before p.before.score,
    );
  }

  first : (a b c : Bool) → (a && b && c) ≡ true → a ≡ true
  first a b c h = ground arith

  validate_result-IsAccepted :
      (result : Fields) → validate_result parse splitlines result ≡ true → IsAccepted result
  unfolding validate_result
  validate_result-IsAccepted result h = elim (Option-cases (parse result)) [
    | inl e ↦ absurd (ground arith)
    | inr (p, e) ↦ elim (Option-cases (decision_of p.decision)) [
      | inl f ↦ absurd (ground arith)
      | inr (d, f) ↦ validated result p d e f (
          first (is_consistent p d) (markdown_agrees parse splitlines p d) (sarif_agrees p d)
            (rw (e, f) at h))
    ]
  ]

  -- What a response to a worker's value means.
  abbrev pub Says : Value → Response → Type 0
  Says v (failed e) = e ≢ ""
  Says v (succeeded result) = Accepts v result

  error-Says : (v : Value) (o : Option String) → Says v (of_error parse splitlines o)
  error-Says v none = not_empty
  error-Says v (some s) = elim (Bool-cases (s == "")) [
    | inl e ↦ rw e not_empty
    | inr e ↦ rw e (λ k. absurd (ground (arith, ==_iff s "")))
  ]

  result-Says :
      (value : Value) (o : Option Fields)
      → mapping_of value ≡ o
      → Says (dict (field "result" value end)) (of_result parse splitlines o)
  result-Says value none e = not_empty
  result-Says value (some result) e = elim (Bool-cases (validate_result parse splitlines result)) [
    | inl h ↦ rw h (record {
      raw = ap (λ v. dict (field "result" v end)) (mapping-dict value result e);
      accepted = validate_result-IsAccepted result h;
    })
    | inr h ↦ rw h not_empty
  ]

  field-Says :
      (key : String) (value : Value)
      → Says (dict (field key value end)) (of_field parse splitlines key value)
  unfolding of_field
  field-Says key value = elim (Bool-cases (key == "error")) [
    | inl e ↦ rw e (error-Says (dict (field key value end)) (text_of value))
    | inr e ↦ elim (Bool-cases (key == "result")) [
      | inl f ↦ rw (e, f, (==_iff key "result").0 f) (result-Says value (mapping_of value) refl)
      | inr f ↦ rw (e, f) not_empty
    ]
  ]

  -- Of a worker's response, a result is accepted only where the response holds it alone and the result
  -- agrees with itself: it is complete exactly where both snapshots are, a complete result is not
  -- truncated, a safe decision is complete, it has passed exactly where the decision does not block,
  -- and its change of the score is the difference of the scores. The text of an error is not empty.
  pub worker_response-Says : (v : Value) → Says v (worker_response parse splitlines v)
  unfolding worker_response
  worker_response-Says (dict (field key value end)) = field-Says key value
  worker_response-Says null = not_empty
  worker_response-Says (bool _) = not_empty
  worker_response-Says (int _) = not_empty
  worker_response-Says (float _ _ _) = not_empty
  worker_response-Says (str _) = not_empty
  worker_response-Says (policy_str _ _) = not_empty
  worker_response-Says (list _) = not_empty
  worker_response-Says (dict end) = not_empty
  worker_response-Says (dict (field _ _ (field _ _ _))) = not_empty

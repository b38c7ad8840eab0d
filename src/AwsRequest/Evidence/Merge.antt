-- ===== src/AwsRequest/Evidence/Merge.antt =====
-- Evidence that is attached to an error extends what is there.
use kordn.Base.{
  Bool, true, false, Option, none, some, ◌≡◌, ◌⊎◌, refl, ap, ◌∙◌, arith, bytes_eq→eq, Bool-cases,
  Option-cases, inl, inr,
}
use kordn.AwsRequest.Protocol.{protocol_text}
use kordn.AwsRequest.Endpoint.{is_empty}
use kordn.AwsRequest.Evidence.{
  DecodeFailureEvidence, GoError, check_protocol_evidence, check_operation_evidence,
  validate_evidence, unknown_evidence, name_unknown, evidence_from_error, conflict, merge,
  attach_evidence,
}
use kordn.AwsRequest.Evidence.Valid.{is_valid, unknown_evidence-valid, evidence-new_valid}

-- `z` tells all that `x` tells.
pub record Extends (x z : DecodeFailureEvidence) : Type 0 where
  pub service : (is_empty x.service ≡ true) ⊎ (z.service ≡ x.service)
  pub protocol :
      x.protocol_available ≡ true
      → (z.protocol_available ≡ true) × (protocol_text z.protocol ≡ protocol_text x.protocol)
  pub operation :
      x.operation_available ≡ true → (z.operation_available ≡ true) × (z.operation ≡ x.operation)

merge-valid :
    (x y : DecodeFailureEvidence)
    → is_valid x ≡ true
    → is_valid y ≡ true
    → is_valid (merge x y) ≡ true
unfolding validate_evidence check_protocol_evidence check_operation_evidence merge
merge-valid x y hx hy = ground arith

merge-old : (x y : DecodeFailureEvidence) → Extends x (name_unknown (merge x y))
unfolding merge name_unknown
merge-old x y = record {
  service = elim (Bool-cases (is_empty x.service)) [ inl e ↦ inl e | inr e ↦ inr (ground arith) ];
  protocol = λ h. ground arith;
  operation = λ h. ground arith;
}

merge-new :
    (x y : DecodeFailureEvidence) → conflict x y ≡ false → Extends y (name_unknown (merge x y))
unfolding merge name_unknown conflict
merge-new x y agree = record {
  service = elim (Bool-cases (is_empty y.service)) [
    | inl e ↦ inl e
    | inr e ↦ inr (ground (arith, bytes_eq→eq x.service y.service))
  ];
  protocol = λ h. ground (arith, bytes_eq→eq (protocol_text x.protocol) (protocol_text y.protocol));
  operation = λ h. ground (arith, bytes_eq→eq x.operation y.operation);
}

abbrev pub conflicts : Option DecodeFailureEvidence → DecodeFailureEvidence → Bool
conflicts none y = false
conflicts (some x) y = conflict x y

-- What the error told before, if anything, is told by `z`.
abbrev pub ExtendsAny : Option DecodeFailureEvidence → DecodeFailureEvidence → Type 0
ExtendsAny none z = Unit
ExtendsAny (some x) z = Extends x z

evidence_from_error-valid :
    (e : GoError) (x : DecodeFailureEvidence)
    → evidence_from_error (some e) ≡ some x
    → is_valid x ≡ true
unfolding evidence_from_error
evidence_from_error-valid e x h = ground arith

name_unknown-Extends : (y : DecodeFailureEvidence) → Extends y (name_unknown y)
unfolding name_unknown
name_unknown-Extends y = record {
  service = inr refl;
  protocol = λ h. (h, refl);
  operation = λ h. (h, refl);
}

-- What the error that `attach_evidence` returns tells, in the three cases.
attach_new :
    (e : GoError) (y : DecodeFailureEvidence)
    → is_valid y ≡ true
    → evidence_from_error (some e) ≡ none
    → evidence_from_error (attach_evidence (some e) y) ≡ some (name_unknown y)
unfolding attach_evidence
attach_new e y h absent = rw (h, absent) (evidence-new_valid y e h)

attach_conflict :
    (e : GoError) (x y : DecodeFailureEvidence)
    → is_valid y ≡ true
    → evidence_from_error (some e) ≡ some x
    → conflict x y ≡ true
    → evidence_from_error (attach_evidence (some e) y) ≡ some (name_unknown unknown_evidence)
unfolding attach_evidence
attach_conflict e x y h present c =
    rw (h, present, c) (evidence-new_valid unknown_evidence e unknown_evidence-valid)

attach_merged :
    (e : GoError) (x y : DecodeFailureEvidence)
    → is_valid y ≡ true
    → evidence_from_error (some e) ≡ some x
    → conflict x y ≡ false
    → evidence_from_error (attach_evidence (some e) y) ≡ some (name_unknown (merge x y))
unfolding attach_evidence
attach_merged e x y h present c =
    rw (h, present, c)
      (evidence-new_valid (merge x y) e (merge-valid x y (evidence_from_error-valid e x present) h))

unknown_named : name_unknown unknown_evidence ≡ unknown_evidence
unfolding name_unknown
unknown_named = refl

-- Attaching valid evidence to an error gives an error that tells something valid: nothing at all where
-- the two contradict each other, and else what each of them tells.
pub attach_evidence-Extends :
    (e : GoError) (y : DecodeFailureEvidence)
    → is_valid y ≡ true
    → (z : DecodeFailureEvidence) × (evidence_from_error (attach_evidence (some e) y) ≡ some z)
      × (((conflicts (evidence_from_error (some e)) y ≡ true) × (z ≡ unknown_evidence))
          ⊎ (Extends y z × ExtendsAny (evidence_from_error (some e)) z))
attach_evidence-Extends e y h = elim (Option-cases (evidence_from_error (some e))) [
  | inl absent ↦
      (name_unknown y, attach_new e y h absent, inr (name_unknown-Extends y, rw absent tt))
  | inr (x, present) ↦ elim (Bool-cases (conflict x y)) [
    | inl c ↦ (
      unknown_evidence,
      attach_conflict e x y h present c ∙ ap some unknown_named,
      inl (rw present c, refl),
    )
    | inr agree ↦ (
      name_unknown (merge x y),
      attach_merged e x y h present agree,
      inr (merge-new x y agree, rw present (merge-old x y)),
    )
  ]
]

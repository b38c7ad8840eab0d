-- ===== src/Lib.antt =====
-- Kordn is a proxy on the local machine that stands between a program and AWS: it verifies and decodes
-- each signed request, maps it to the IAM permissions it needs, lets a policy engine decide, and
-- either signs the request again and forwards it or answers with a denial in AWS's own format.
-- This library models the parts of it that decide, as functions that run, with their correctness.
--
-- The parts, and the files that model them:
--
-- internal/policy (the engine). Policy/Glob is glob.go: validateGlobPattern, compileGlob, and the
-- table of Match with its step limit. Policy/Arn and Policy/Rule are the identifiers, parseARN,
-- compileRule and ruleMatches of engine.go; Policy/Decision is decision.go; Policy/Scan holds the
-- three nested loops of Evaluate with their variables and the poll of the context in each round;
-- Policy/Admission is validateEvaluationInput, and Policy/Engine the rest of Evaluate with
-- snapshotRequirements; Policy/Build is NewEngine with snapshotPolicyHash. Policy/Verdict is the specification: the same
-- decision with no loop, no order and no context in it.
--
-- internal/awsrequest (the contracts that the packages share). AwsRequest/Protocol is protocol.go,
-- AwsRequest/Endpoint the identity, its Validate and EndpointIdentityEqual of endpoint.go, and
-- AwsRequest/Authority its NormalizeEndpointHost; AwsRequest/Verified is VerifiedRequest; Value,
-- Mapping and Request are the typed parameters, IAMRequirement and MappingResult, and
-- DecodedAWSRequest of types.go; Evidence is DecodeFailureEvidence of types.go with the errors
-- that carry it. The engine validates all of these before it decides.
--
-- internal/awserror. AwsError/Reason is reasons.go; AwsError/Denial is Encode and normalizeDenial of
-- encode.go with the encoders of json.go and xml.go, over the structures that they marshal.
--
-- internal/cache. Cache/Lru is lru.go: the map to list elements and the list itself, an element
-- known by a reference, so that the link between the two is an invariant (Cache/Lru/Valid) and not
-- an assumption; Cache/Keys is keys.go, and Cache/Requirements its RequirementsKey, of a slice of
-- requirements.
--
-- internal/proxy. Proxy/Limits is limits.go. The rest is server.go: Proxy/Server holds the parts that a
-- handler calls, as functions of any behaviour, and the effects of a handler, newest first;
-- Proxy/Replies is acceptAudit, respondPipelineDeny, finishAuthenticationFailure and
-- finishFailedPipeline with the events they write, Proxy/Failures what they say of a failure,
-- Proxy/Lookups the caches of a run and their keys, Proxy/Forwarding handlePipeline from the decision to
-- the response, and Proxy/Pipeline its stages before, each a function that calls the next.
-- Proxy/Pipeline/Coherent hands requests to it one after another, each with the caches that the one
-- before left: the handlers of a server may overlap, which this does not show. Its proofs stand on
-- Proxy/Pipeline/Watch, what is claimed of each request sent and of each entry of the caches. In
-- Proxy/Pipeline/Enforced the policy is the engine, and in Proxy/Pipeline/Secured the authenticator is
-- the verifier too.
-- Proxy/Slots is trackConn, untrackConn and promoteHijackedConn, as steps of goroutines in any order.
--
-- internal/audit. Audit/Event and Audit/Validation are event.go: the events, NewEvent and Validate;
-- Audit/Redact is its RequirementsForRun with HashResourceForRun of redact.go.
--
-- internal/sigv4. Sigv4/Escape is the percent coding of canonical.go, in paths and in queries;
-- Sigv4/Query is its canonical query, Sigv4/Header its checks and its normal form of header values,
-- Sigv4/Canonical its CanonicalURI, CanonicalHeaders and BuildCanonicalRequest. Sigv4/Request holds
-- the parts of an http.Request that the package reads, with requestHeader and headerValues;
-- Sigv4/Authorization is parseAuthorization, parseCredential and parseSignedHeaders of verify.go;
-- Sigv4/Body is the loop of NewBody in payload.go, over a reader and a file system that may fail in
-- any round, and may fail to remove a file; Sigv4/Inbound is CaptureRequestBody, closeRequestBody
-- and the payload check of verify.go, as functions from a request to a result and the request
-- afterwards. Sigv4/Verifier is
-- NewVerifier, Sigv4/Target, Sigv4/Claims and Sigv4/Dates the checks of Verify on the address, the
-- credential and the times, and Sigv4/Verify the whole, with the deferred close of the body.
--
-- internal/runtime. Runtime/Environment is BuildChildEnvironment of env.go with its checks, over
-- url.Parse as a parameter; Runtime/Capture its CaptureProxySettings.
--
-- Base holds what all of them share: Go strings as lists of bytes, the decoding of UTF-8 by
-- `for _, r := range s`, the functions of package strings, strconv.Itoa, sort.Slice as an insertion
-- sort, and results `(value, error)` with do blocks. Tests runs the definitions at concrete inputs.
--
-- Representation. A Go string is a list of bytes, an int a native number where the code only counts
-- or measures with it; a uint64 counter wraps at 2 ^ 64. A string enum has one constructor per
-- constant and, where the code can hold another text, one more. In strings.ToLower, ToUpper and
-- EqualFold a letter outside ASCII changes only where its other case is ASCII: the code compares such
-- texts with ASCII ones, or refuses them in a later check. A map is an association list in the order
-- in which the code walks it. A context is a function from the number of polls to whether it is then
-- cancelled. A pointer that may be nil is an Option. An error is a constructor per message.
--
-- Bounds and fuel. The table of Match takes at most maxGlobSteps steps, as the source does; a
-- pattern and a value of at most MaxGlobLength bytes need fewer. The UTF-8 decoder recurses on the
-- text, Value.validate on the value, to the source's depth limit. Itoa has the number itself as its
-- fuel, and each round divides the number by ten. The loop of NewBody has a hundred rounds for each
-- byte of its limit, and a hundred more: a round that reads nothing is one of 99 in a row.
--
-- Parameters. json.Marshal and xml.Marshal of a denial's body are a function that may fail. SHA-256,
-- with the JSON encoding in front of it, is a function from texts to texts; where a theorem needs
-- that two texts have different digests, that is its hypothesis. The verifier's Platform holds
-- SHA-256, HMAC, the two date formats of package time, idna.Lookup.ToASCII and the file system. The
-- proxy's Server holds what its configuration points to: the authenticator, decoder, mapper, policy,
-- audit writer, resigner and transport, of which nothing is assumed. A part that the code calls again
-- later is a function of what has happened, or of its arguments: the mapper and the policy give the
-- same answer to the same arguments throughout a run.
--
-- Not modelled. I/O and processes (internal/app, the rest of internal/runtime, the sockets and
-- the tunnels of internal/proxy, and the bodies and headers that its handlers copy), X.509
-- (internal/pki), the AWS SDK's credential calls (internal/credentials), the signing itself
-- (resign.go of internal/sigv4), the readers of a captured body, the wire decoders over net/http and
-- encoding/json or xml, the reflective copy of a configuration (copyPolicy), the mapper
-- (internal/iammap), the file, the queue and the free texts of the audit log (internal/audit), and
-- the generated catalogs (internal/iamlivecatalog).
pub mod Base
pub mod Cache
pub mod AwsRequest
pub mod AwsError
pub mod Policy
pub mod Sigv4
pub mod Proxy
pub mod Audit
pub mod Runtime
pub mod Tests

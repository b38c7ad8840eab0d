-- ===== src/Proxy/Pipeline/Safety.antt =====
-- internal/proxy/server.go: what the pipeline sends upstream, and the reply of every request.
use kordn.Base.{ℕ, ◌+◌, ◌≡◌, List, true, false, Option, some, Bytes, Result, ok}
use kordn.AwsRequest.Endpoint.{AwsEndpoint}
use kordn.AwsRequest.Request.{DecodedAwsRequest}
use kordn.AwsRequest.Evidence.{GoError}
use kordn.AwsRequest.Mapping.{MappingResult}
use kordn.AwsRequest.Verified.{VerifiedRequest}
use kordn.Policy.Decision.{Decision, decision_valid}
use kordn.Sigv4.Request.{Code}
use kordn.Proxy.Pipeline.Watch.{watching}
use kordn.Proxy.Server.{Server, State, Effect}
use kordn.Proxy.Replies.{decision_event}
use kordn.Proxy.Forwarding.{is_denial}
use kordn.Proxy.Pipeline.{maps_request, decodes_at, is_verified, handle_pipeline}
use kordn.Proxy.Pipeline.Stages.{replies, AllSent, Adds, Written}
use kordn.Proxy.Pipeline.Sending.{Resigns}
use kordn.Proxy.Pipeline.Verified.{handle_pipeline-Adds}

-- A request may be sent: it is signed again from a request that was verified at this endpoint and that
-- the decoder has decoded at it, the mapping is one of its operation, a valid decision permits, and the writer of the
-- audit log has accepted the event of that decision before.
pub record IsGranted {R : Type 0} (srv : Server R) (req : R) (endpoint : AwsEndpoint) (out : R)
    (before : List (Effect R)) : Type 0 where
  pub verified : VerifiedRequest R
  pub decoded : DecodedAwsRequest
  pub mapping : MappingResult
  pub decision : Decision
  pub event_ids : ℕ
  pub event_id : Bytes
  pub authenticated :
      (verify : R → AwsEndpoint → Result (Option Code) (Option (VerifiedRequest R)))
      × (srv.authenticator ≡ some verify)
      × (verify req endpoint ≡ ok (some verified))
  pub verified_here : is_verified srv endpoint verified ≡ true
  pub decoded_by :
      (decode : VerifiedRequest R → AwsEndpoint → Result GoError (Option DecodedAwsRequest))
      × (srv.decoder ≡ some decode)
      × (decode verified endpoint ≡ ok (some decoded))
  pub decoded_here : decodes_at srv endpoint decoded ≡ true
  pub mapped : maps_request srv decoded mapping ≡ true
  pub permitted : is_denial decision.result ≡ false
  pub decision_known : decision_valid decision ≡ true
  pub audited : Written (decision_event srv event_ids event_id decoded mapping decision) before
  pub signed_again : Resigns srv verified endpoint out

module _ {R : Type 0} (srv : Server R) where
  IsGranted-Adds :
      (req : R) (endpoint : AwsEndpoint) (st : State R)
      → Adds (watching srv (IsGranted srv req endpoint)) 1 st (handle_pipeline srv req endpoint st)
  IsGranted-Adds req endpoint st =
      handle_pipeline-Adds (watching srv (IsGranted srv req endpoint)) req endpoint st
        (λ verify there_is v answered verified decode there d answer decoded m mapped maps decision
            known decides ids id out before signed permitted audited.
          record {
            verified = v;
            decoded = d;
            mapping = m;
            decision = decision;
            event_ids = ids;
            event_id = id;
            authenticated = (verify, there_is, answered);
            verified_here = verified;
            decoded_by = (decode, there, answer);
            decoded_here = decoded;
            mapped = mapped;
            permitted = permitted;
            decision_known = known;
            audited = audited;
            signed_again = signed;
          })

-- Whatever the parts of the server do and its caches hold, handlePipeline sends a request upstream only
-- if the authenticator verified the client's request at this endpoint, the decoder decoded that
-- verified request to one that is valid at the endpoint, a mapping that is valid and of its service and
-- operation and a valid decision that does not deny stand in an event that the audit writer accepted
-- before, and the request sent is the one signed again from the verified one.
pub handle_pipeline-AllSent :
    {R : Type 0}
    → (srv : Server R) (req : R) (endpoint : AwsEndpoint) (st : State R)
    → AllSent (IsGranted srv req endpoint) st.effects
    → AllSent (IsGranted srv req endpoint) (handle_pipeline srv req endpoint st).effects
handle_pipeline-AllSent srv req endpoint st sent =
    ((IsGranted-Adds srv req endpoint st).keeps (tt, sent)).1

-- Whatever the parts of the server do, `handlePipeline` writes exactly one response.
pub replies-handle_pipeline :
    {R : Type 0}
    → (srv : Server R) (req : R) (endpoint : AwsEndpoint) (st : State R)
    → replies (handle_pipeline srv req endpoint st).effects ≡ 1 + replies st.effects
replies-handle_pipeline srv req endpoint st = (IsGranted-Adds srv req endpoint st).adds

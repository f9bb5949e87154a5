-- ===== src/Webhooks/PodValidator.antt =====
-- the second handler of webhooks/pod_webhook.go, which rejects only what it cannot decode
use fluent_pvc_operator.Kube.{Pod, Reply, success, failure, api}
use fluent_pvc_operator.Webhooks.Admission.{
  Request, Response, allowed, errored, status_bad_request, Codec,
}

abbrev pub on_decoded : Reply Pod → Response
on_decoded (success pod) = allowed
on_decoded (failure e) = errored status_bad_request (api e)

unfoldable pub handle : Codec → Request → Response
handle codec req = on_decoded (codec.decode_pod req.raw)

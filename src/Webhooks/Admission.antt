-- ===== src/Webhooks/Admission.antt =====
-- The admission requests and responses of controller-runtime, and what the handlers take from
-- libraries: the decoder, the encoder, the dump and the encoding behind a name.
use fluent_pvc_operator.Prelude.{ℕ, String, List}
use fluent_pvc_operator.Kube.{Error, Pod, Reply}
use fluent_pvc_operator.Api.{FluentPvc}

pub record Request : Type 0 where
  pub namespace : String
  pub raw : String

-- `admission.Allowed`, `Denied`, `Errored` and `PatchResponseFromRaw`; the last status is that of a
-- handler that panics.
pub data Response : Type 0 where
  allowed : Response
  denied : String → Response
  errored : ℕ → Error → Response
  patched : String → String → Response
  crashed : Response

abbrev pub status_bad_request : ℕ
status_bad_request = 400

abbrev pub status_internal_server_error : ℕ
status_internal_server_error = 500

pub record Codec : Type 0 where
  -- `decoder.Decode`
  pub decode_pod : String → Reply Pod
  pub decode_fluent_pvc : String → Reply FluentPvc
  -- `json.Marshal`
  pub marshal_pod : Pod → Reply String
  -- spew's dump and `rand.SafeEncodeString`
  pub dump_pod : Pod → List ℕ
  pub dump_fluent_pvc : FluentPvc → List ℕ
  pub safe_encode : List ℕ → String

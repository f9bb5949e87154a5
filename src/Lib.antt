-- ===== src/Lib.antt =====
-- fluent-pvc-operator gives a pod its own persistent volume claim, which outlives the pod
-- until a finalizer job has worked off its data. A mutating webhook creates the claim and a
-- FluentPVCBinding when a pod is created; the binding controller watches pod, claim and job
-- and stores what it sees as conditions of the binding; the claim controller applies the job
-- once the binding is out of use and releases the claim once the job has succeeded; the pod
-- controller deletes pods whose sidecar has ended; the FluentPVC controller protects a
-- FluentPVC while bindings use it. They interact only through objects on the API server.
--
-- Parts and sources:
-- - Kube: the objects of Kubernetes as records. A record has the fields that the program
--   reads or writes; the rest of an object is a field `other` that is carried along. Reply is
--   the result of an API call, Outcome that of a function, with `panicked` for a dereferenced
--   nil.
-- - Api: api/v1alpha1/fluentpvc_types.go, api/v1alpha1/helpers.go and constants/constants.go.
--   The sort of resetPhase is that of sort.Slice for at most twelve elements (a binding has
--   at most seven conditions): a pass over the elements six places apart, then insertion
--   sort.
-- - Effect: a handler is a Program of calls to the API server, the clock and the random
--   source. An Environment answers call number n; theorems hold for every environment, so
--   between two calls of a run anything may happen on the server. `calls` and `result` run a
--   program.
-- - Injection: utils/pod/injection.go, and the loops of its callers.
-- - Controllers.Utils: controllers/utils.go. Controllers.Pods: controllers/pod_controller.go.
--   Controllers.Claims: controllers/pvc_controller.go. Controllers.FluentPvcs:
--   controllers/fluentpvc_controller.go. Controllers.Bindings:
--   controllers/fluentpvcbinding_controller.go, in parts: Updates (the functions
--   updateCondition... and deleteFluentPVCBinding), Fulfilment (fulfillFluentPVCBindingPod,
--   fulfillFluentPVCBindingPVC, fillPodUID), Jobs (updateConditionByFinalizerJobStatus),
--   Decision (the cases of Reconcile), Reconcile, Watcher (Start and fireEvent). A Go
--   function that calls the server is one definition for each stretch between two calls,
--   named after what it has just read.
-- - Hash: utils/hash/utils.go.
-- - Webhooks.PodMutator and Webhooks.PodValidator: webhooks/pod_webhook.go.
--   Webhooks.FluentPvcValidator: webhooks/fluentpvc_webhook.go.
-- - Lifecycle: the diagram of a binding's conditions (Steps), what a status that is stored or
--   a binding that is deleted may rest on (Rules), and the parts of the binding controller
--   against it: what the setters set (Settings), what each function stores (Saves), the
--   decision (Decisions, Deletions, Completions, Progress), the search for pod and claim
--   (Fulfilments, Identities) and whole runs (Histories, Finishing, Endings).
--   Injection.Lookup, Names and Variables, Claims.Release and Application and the other child
--   modules hold the proofs on their parent. Watching: the rounds of the watcher. Failures:
--   what an error of the server does to a run of each reconciler.
-- - Setup: main.go and the functions SetupWithManager of all controllers and webhooks, as
--   programs of steps that a Manager answers. Startup: the plan that they follow, and what is
--   registered when the manager starts.
-- - Cluster: the operator as a whole. Server is the API server as a parameter: its states,
--   what it may answer, what others do to its objects; ServerLaws says what the operator
--   relies on (an answer to a read is some version that was stored, a status is replaced only
--   on its newest version, others rewrite no status of a binding). Processes has the handlers
--   as processes, each one a Program that makes one call at a time, in any number and any
--   order; Duties, Bindings, Claims, Others and Admissions show what each handler's calls
--   rest on, and Care puts them together; Versions orders the stored versions of a binding;
--   Invariant, Safety and Consequences hold for every reachable state. Contracts has what
--   Duties and Evidence have in common, a program that owes something at each of its calls by
--   what it has been answered before. ClaimStore and ClaimLaws of Custody extend the server
--   by the versions of the claims (ClaimLaws: nobody else takes the operator's finalizer off
--   a claim, as no writer is to take off a finalizer that is not its own). Evidence and its
--   children show what a stored success rests on in each handler, Honesty puts them together,
--   JobRecord and JobLaws of Jobs extend the server by the jobs that it has shown, and
--   Success and Finishing hold for every reachable state.
-- - Examples: one cluster and one implementation of the libraries, at which each theorem is
--   applied.
--
-- What is not under this repository is a parameter: Library has the functions of apimachinery
-- and controller-runtime (errors, finalizers, owner references, status conditions) and
-- LibraryLaws what their documentation says of them; Codec has the decoder, the encoder,
-- spew's dump and the encoding of hashes. For a single run the API server is the environment;
-- that an update of the main resource leaves the status alone is then the hypothesis
-- KeepsStatus. For many runs it is the parameter Server. controller-runtime's manager is the
-- parameter Manager; which process it starts on which event is not fixed, so that theorems of
-- Cluster hold however it schedules them.
--
-- Choices: an error message is its format text, without the values. Logging has no effect and
-- is left out. A deep copy is the identity. Times and durations are numbers of nanoseconds,
-- and a duration is subtracted down to zero. In fire_event the fuel bounds the number of
-- pages, `Pages` says how many there are, and running out is a result of its own; the loop of
-- Start runs over the signals that it receives, so it needs no fuel of its own; in sprint the
-- fuel is ten digits, which is enough for 32 bits.
--
-- Not modelled: the options of the logger and the scheme in main.go, the connection that its
-- readiness check makes (the check takes the error of it), generated deep copies (of values a
-- copy is the value), the tests of e2e and webhooks, manifests, and the example of a log
-- collection, which only calls a Pub/Sub emulator and has no part in the operator.
mod Prelude
pub mod Kube
pub mod Api
pub mod Effect
pub mod Injection
pub mod Controllers
pub mod Lifecycle
pub mod Hash
pub mod Webhooks
pub mod Watching
pub mod Failures
pub mod Setup
pub mod Startup
pub mod Cluster
mod Examples

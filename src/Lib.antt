-- ===== src/Lib.antt =====
-- cosign's verification of signatures, and the admission webhook that applies it to Kubernetes
-- workloads.
--
-- The program. cosign decides whether a container image is signed. VerifyImageSignatures in
-- pkg/cosign/verify.go takes the signatures that a registry keeps beside the image and checks each:
-- a public key of the caller, or the certificate on the signature, gives a verifier; the verifier
-- checks the payload; the payload's claims name the image's digest; and the transparency log has
-- seen the signature, by a bundle that is attached to it or by a question to the log's server. The
-- webhook in pkg/cosign/kubernetes/webhook reads the policies for the images of a workload from a
-- config map and calls the same verification for each authority of a policy; the controller in
-- pkg/reconciler/clusterimagepolicy keeps that config map. Signatures are the layers of an image in
-- the registry: pkg/oci/mutate attaches new ones. The keys of the log and of the certificate
-- authority are targets of the TUF client in pkg/cosign/tuf. The command verify-blob checks the
-- signature of a file that no registry holds.
--
-- The parts, by file:
--   Base, and Base/: conditionals, errors and results, lists, maps and integers.
--   World, World/Models: what the program calls and does not implement, as operations of the record
--     `World`, with the plain values they exchange. Nothing is assumed of them, except where a
--     theorem names it: `DecodeShrinks`, that pem.Decode leaves less than it was given. A value of a
--     `map[string]interface{}` is nil, a string, a Boolean or number, an object or an array.
--   Ctl, Ctl/Accepts: cmd/cosign/cli/fulcio/fulcioverifier/ctl/verify.go (VerifySCT,
--     VerifyEmbeddedSCT, ContainsSCT).
--   Tlog, Tlog/Accepts, Tlog/Search: pkg/cosign/tlog.go (GetRekorPubs, FindTlogEntry,
--     VerifyTLogEntry), with VerifySET of pkg/cosign/verify.go and PemToECDSAKey of
--     pkg/cosign/keys.go.
--   Verify: the types of pkg/cosign/verify.go and pkg/cosign/bundle/rekor.go, and below it
--     Cert (ValidateAndUnpackCert, TrustedCert, CheckExpiry), Bundle (VerifyBundle, compareSigs,
--     bundleHash, bundleSig), Claims (pkg/cosign/verifiers.go), Entry (VerifyImageSignature and the
--     check of one attestation; Verifier is about whose key it takes, Online about the log's
--     server), Registry (where signatures come from) and Images
--     (VerifyImageSignatures, VerifyImageAttestations, and both for a local image).
--   FieldError: the errors of knative.dev/pkg/apis, as operations with the laws of being nil.
--   Policy: pkg/apis/cosigned/v1alpha1/clusterimagepolicy_types.go and the webhook's counterpart
--     pkg/cosign/kubernetes/webhook/clusterimagepolicy/clusterimagepolicy_types.go, and below it
--     Glob (pkg/apis/config/glob.go, ValidateGlob), Validation
--     (clusterimagepolicy_validation.go), Matching and Entries (pkg/apis/config/image_policies.go; Entries is
--     parseEntry, with the libraries for YAML and JSON as the record `EntryCodec`) and Convert (the
--     conversion to the webhook's types, and the keys inlined in them).
--   Webhook: pkg/cosign/kubernetes/webhook/validation.go (valid, getKeys), and below it Authorities
--     (ValidatePolicy, validatePolicies) and Pods (ValidatePodSpecable, ValidatePod,
--     ValidateCronJob, and the functions that resolve images to digests) of validator.go.
--   Reconciler: pkg/reconciler/clusterimagepolicy/clusterimagepolicy.go (ReconcileKind,
--     FinalizeKind, inlinePublicKeys) and its resources/configmap.go, as steps on the data of the
--     config map. Inline is about the keys, Refines about the policies that the config map stands
--     for, Webhook about what image_policies.go reads of them, where the libraries read what they
--     write (`Decodes`).
--   Oci: pkg/oci/internal/signature/layer.go and pkg/oci/mutate/signature.go (Mutation),
--     pkg/oci/mutate/signatures.go and Replace of pkg/cosign/remote/remote.go (Signatures), Find of
--     the latter (Dedupe), and pkg/oci/mutate/mutate.go with options.go (Attach).
--   Tuf: pkg/cosign/tuf/client.go: Metadata (expiry and status), Targets (the caches, GetTarget,
--     GetTargetsByMeta) and Client (initializeTUF, NewFromEnv, Initialize, the update).
--   Blob: cmd/cosign/cli/verify/verify_blob.go: Inputs (what is read, Reads from where; also the loading of
--     certificates of cmd/cosign/cli/verify/verify.go), Rekor (verifyRekorEntry,
--     verifyRekorBundle) and Command (VerifyBlobCmd, verifySigByUUID; Signers is about whose key).
--   Tests: a small world, and each result at a concrete input.
--
-- How code and model correspond. A function of the model has the name of the Go function, in lower
-- case with underscores. A function that returns a value and an error gives a `Result`, one that
-- returns an error gives an `Option`, and VerifyImageSignature, whose flag counts beside an error,
-- gives both. CheckOpts is shared by pointer, and the check of one signature writes the pool of
-- intermediate certificates to it; the model passes the options from each signature to the next.
-- A Go map is a list of entries, visited in the order of the list. Byte slices are strings, and
-- int64 values that are only stored and compared are integers. The controller's state is the
-- server's config map beside what the lister's cache says of it; a theorem says so where it takes
-- the cache to be up to date. The TUF client's state is the client of go-tuf, the store of the
-- targets and the files on disk, which are passed on from step to step.
--
-- Fuel. Only the loops around pem.Decode, parsePEMKey and parsePems, recur on fuel; one more than
-- the length of the text is enough, since every round leaves a shorter text. All other loops are
-- recursions on lists.
--
-- Not modelled: messages to the log and to standard error; the registry, the file system, the API
-- server, go-tuf and the network below the operations of `World`, `Registry`, `Cluster`, `Kube`,
-- `Images`, `Lib`, `EntryCodec` and `Services`; AppendManifests, walk and the tags of signatures in a registry;
-- uploads to the log, signing, the other commands, the policy languages rego and cue, and hardware
-- tokens. Two errors are given without their end: that of an update of the TUF client, which ends
-- in the remote's status, and that of verifySigByUUID, which ends in the number of entries.
pub mod Base
pub mod World
pub mod Ctl
pub mod Tlog
pub mod Verify
pub mod FieldError
pub mod Policy
pub mod Webhook
pub mod Reconciler
pub mod Oci
pub mod Tuf
pub mod Blob
mod Tests

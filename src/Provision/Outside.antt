-- ===== src/Provision/Outside.antt =====
-- What the validators take from outside the repository: SHA-256 over canonical JSON, the image
-- reference parsers of go-containerregistry, and `time.Parse`.
use dash_network_go.Common.{String, Bool, Option, List}
use dash_network_go.Spec.Types.{Network}
use dash_network_go.Provision.Types.{Target}

-- A parsed image reference: `Context().Name()`, and the digest if it names one.
pub record ImageRef : Type 0 where
  pub repository : String
  pub digest : Option String

pub record Outside : Type 0 where
  -- digest of the plan with an empty ID: its version, kind, network and targets
  pub plan_digest : String → String → Network → List Target → String
  -- digest([]string{planID, target})
  pub token_digest : String → String → String
  -- name.NewDigest(_, StrictValidation): the repository and the digest
  pub new_digest : String → Option (String × String)
  -- name.ParseReference(_, StrictValidation) has no error
  pub parse_strict : String → Bool
  -- provision.Reference: the reference as Docker parses it
  pub reference : String → Option ImageRef
  -- time.Parse(time.RFC3339Nano, _) has no error
  pub is_rfc3339 : String → Bool

-- ===== src/Nip/Revocation.antt =====
-- nps_sdk/nip/revocation_policy.py: the evaluation of a sequence of revocation sources.
use nps_sdk_python.Prelude.{Bool, true, false, ◌&&◌, Option, none, some, List, [], if◌then◌else◌}

pub data Mode : Type 0 where
  if_configured : Mode
  required : Mode

pub data Source : Type 0 where
  local_crl : Source
  callback : Source
  ca_store : Source
  ocsp : Source

-- NipRevocationOutcome
pub data Report : Type 0 where
  good : Report
  revoked : Report
  unavailable : Report

pub data ErrorCode : Type 0 where
  cert_revoked : ErrorCode
  ocsp_unavailable : ErrorCode

pub record Decision : Type 0 where
  pub valid : Bool
  pub error_code : Option ErrorCode

abbrev refuse : ErrorCode → Decision
refuse e = record { valid = false; error_code = some e }

abbrev pub accept : Decision
accept = record { valid = true; error_code = none }

abbrev is_ocsp : Source → Bool
is_ocsp ocsp = true
is_ocsp _ = false

-- observe: the decision that it returns, if it returns one
unfoldable pub observe : Bool → Source → Report → Option Decision
observe fail_open source good = none
observe fail_open source revoked = some (refuse cert_revoked)
observe fail_open source unavailable =
    if is_ocsp source && fail_open then none else some (refuse ocsp_unavailable)

-- complete, on the sources consulted
unfoldable pub complete : Mode → List Source → Decision
complete required [] = refuse ocsp_unavailable
complete mode consulted = accept

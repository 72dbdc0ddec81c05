-- ===== src/Signing.antt =====
-- src/chain_util.rs, the signatures of the gateway's transactions: the typed data of EIP-712 for each
-- kind of request. Hashing, encoding and signing belong to the libraries ethers, hex and k256 and
-- are parameters.
pub mod Recovered
use serverless_gateway.Words.{add8}
use serverless_gateway.Model.{JobMode, once, subscription}
use serverless_gateway.Chain.{Token}
use serverless_gateway.Prelude.{ℕ, String, Option, none, some, List, [], ◌∷◌, ◌++◌}

-- `keccak256` of bytes and of a text, `ethers::abi::encode` and `encode_packed`,
-- `sign_prehash_recoverable` as the 64 bytes of `r` and `s` with the recovery id, `hex::encode` and
-- `Bytes::from_hex`. A text of digits is the list of its characters.
pub record Crypto : Type 0 where
  pub keccak256 : List ℕ → List ℕ
  pub keccak256_text : String → List ℕ
  pub encode : List Token → List ℕ
  pub encode_packed : List Token → Option (List ℕ)
  pub sign_prehash_recoverable : List ℕ → Option (List ℕ × ℕ)
  pub hex_encode : List ℕ → List ℕ
  pub from_hex : List ℕ → Option (List ℕ)

unfoldable pub domain_separator : Crypto → String → List ℕ
domain_separator k contract_name = k.keccak256 (
    k.encode (
      Token.fixed_bytes (k.keccak256_text "EIP712Domain(string name,string version)")
      ∷ Token.fixed_bytes (k.keccak256_text contract_name)
      ∷ Token.fixed_bytes (k.keccak256_text "1")
      ∷ []))

-- The bytes whose hash is signed: the prefix `0x19 0x01`, the domain and the hash of the request.
unfoldable pub typed_data : Crypto → String → List Token → Option (List ℕ)
typed_data k contract_name token_list = k.encode_packed (
    Token.string "\u{19}\u{1}"
    ∷ Token.fixed_bytes (domain_separator k contract_name)
    ∷ Token.fixed_bytes (k.keccak256 (k.encode token_list))
    ∷ [])

-- `rs.to_bytes().append(27 + v.to_byte())`, in hexadecimal digits. The recovery id is below 4.
unfoldable pub signature_text : Crypto → List ℕ × ℕ → List ℕ
signature_text k (rs, v) = k.hex_encode (rs ++ add8 27 v ∷ [])

-- `None` where the encoding or the signing fails. The timestamp is the reading `now` of the clock.
unfoldable pub sign_digest : Crypto → ℕ → Option (List ℕ) → Option (List ℕ × ℕ)
sign_digest k now none = none
sign_digest k now (some digest) = elim (k.sign_prehash_recoverable (k.keccak256 digest)) [
  | none ↦ none
  | some sig ↦ some (signature_text k sig, now)
]

unfoldable pub relay_job_tokens : Crypto → ℕ → List ℕ → List ℕ → ℕ → ℕ → ℕ → ℕ → ℕ → ℕ → List Token
relay_job_tokens k job_id codehash code_inputs user_timeout job_start_time sequence_number job_owner
      env sign_timestamp =
    Token.fixed_bytes (
      k.keccak256_text
        "RelayJob(uint256 jobId,bytes32 codeHash,bytes codeInputs,uint256 deadline,uint256 jobRequestTimestamp,uint8 sequenceId,address jobOwner,uint8 env,uint256 signTimestamp)")
    ∷ Token.uint job_id
    ∷ Token.fixed_bytes codehash
    ∷ Token.fixed_bytes (k.keccak256 code_inputs)
    ∷ Token.uint user_timeout
    ∷ Token.uint job_start_time
    ∷ Token.uint sequence_number
    ∷ Token.address job_owner
    ∷ Token.uint env
    ∷ Token.uint sign_timestamp
    ∷ []

unfoldable pub sign_relay_job_request :
    Crypto → ℕ → ℕ → List ℕ → List ℕ → ℕ → ℕ → ℕ → ℕ → ℕ → Option (List ℕ × ℕ)
sign_relay_job_request k now job_id codehash code_inputs user_timeout job_start_time sequence_number
      job_owner env =
    sign_digest k now (
      typed_data k "marlin.oyster.GatewayJobs" (
        relay_job_tokens k job_id codehash code_inputs user_timeout job_start_time sequence_number
          job_owner env now))

unfoldable pub reassign_gateway_tokens : Crypto → ℕ → ℕ → ℕ → ℕ → ℕ → ℕ → List Token
reassign_gateway_tokens k job_id gateway_operator_old job_owner sequence_number job_start_time
      sign_timestamp =
    Token.fixed_bytes (
      k.keccak256_text
        "ReassignGateway(uint256 jobId,address gatewayOld,address jobOwner,uint8 sequenceId,uint256 jobRequestTimestamp,uint256 signTimestamp)")
    ∷ Token.uint job_id
    ∷ Token.address gateway_operator_old
    ∷ Token.address job_owner
    ∷ Token.uint sequence_number
    ∷ Token.uint job_start_time
    ∷ Token.uint sign_timestamp
    ∷ []

unfoldable pub sign_reassign_gateway_relay_request :
    Crypto → ℕ → ℕ → ℕ → ℕ → ℕ → ℕ → Option (List ℕ × ℕ)
sign_reassign_gateway_relay_request k now job_id gateway_operator_old job_owner sequence_number
      job_start_time =
    sign_digest k now (
      typed_data k "marlin.oyster.GatewayJobs" (
        reassign_gateway_tokens k job_id gateway_operator_old job_owner sequence_number
          job_start_time now))

unfoldable pub job_response_tokens : Crypto → ℕ → List ℕ → ℕ → ℕ → ℕ → List Token
job_response_tokens k job_id output total_time error_code sign_timestamp =
    Token.fixed_bytes (
      k.keccak256_text
        "JobResponse(uint256 jobId,bytes output,uint256 totalTime,uint8 errorCode,uint256 signTimestamp)")
    ∷ Token.uint job_id
    ∷ Token.fixed_bytes (k.keccak256 output)
    ∷ Token.uint total_time
    ∷ Token.uint error_code
    ∷ Token.uint sign_timestamp
    ∷ []

unfoldable pub contract_name : JobMode → String
contract_name once = "marlin.oyster.Relay"
contract_name subscription = "marlin.oyster.RelaySubscriptions"

unfoldable pub sign_job_response_request :
    Crypto → ℕ → ℕ → List ℕ → ℕ → ℕ → JobMode → Option (List ℕ × ℕ)
sign_job_response_request k now job_id output total_time error_code job_mode = sign_digest k now (
    typed_data k (contract_name job_mode)
      (job_response_tokens k job_id output total_time error_code now))

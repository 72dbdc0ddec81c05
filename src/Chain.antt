-- ===== src/Chain.antt =====
-- What the program reads of a chain: logs, ABI tokens, and the event signatures of
-- src/constant.rs. Hashing and ABI decoding belong to the library ethers and are parameters.
use serverless_gateway.Prelude.{
  get_elem?, Outcome, ◌>>=◌, unwrap, ok, panicked, ℕ, String, Bool, true, Option, none, some, List,
}

-- `ethers::types::Log`, in the fields that are read. Hashes, addresses and topics are numbers.
pub record Log : Type 0 where
  pub address : ℕ
  pub topics : List ℕ
  pub payload : List ℕ
  pub block_number : Option ℕ
  pub transaction_hash : Option ℕ
  pub removed : Option Bool

-- `log.removed.unwrap_or(true)`.
abbrev pub is_removed : Log → Bool
is_removed log = elim log.removed [ none ↦ true | some removed ↦ removed ]

pub data ParamType : Type 0 where
  address bytes : ParamType
  uint fixed_bytes : ℕ → ParamType
  array : ParamType → ParamType

-- An array is decoded at `uint256[]` only, so its tokens are written as their numbers.
pub data Token : Type 0 where
  address uint : ℕ → Token
  bytes fixed_bytes : List ℕ → Token
  array : List ℕ → Token
  string : String → Token

-- `keccak256` of a text, as a topic, and `ethers::abi::decode`.
pub record Abi : Type 0 where
  pub keccak256 : String → ℕ
  pub decode : List ParamType → List ℕ → Option (List Token)

abbrev pub into_uint : Token → Outcome ℕ
into_uint (Token.uint n) = ok n
into_uint (Token.address n) = panicked
into_uint (Token.bytes b) = panicked
into_uint (Token.fixed_bytes b) = panicked
into_uint (Token.array a) = panicked
into_uint (Token.string s) = panicked

abbrev pub into_address : Token → Outcome ℕ
into_address (Token.address n) = ok n
into_address (Token.uint n) = panicked
into_address (Token.bytes b) = panicked
into_address (Token.fixed_bytes b) = panicked
into_address (Token.array a) = panicked
into_address (Token.string s) = panicked

abbrev pub into_bytes : Token → Outcome (List ℕ)
into_bytes (Token.bytes b) = ok b
into_bytes (Token.address n) = panicked
into_bytes (Token.uint n) = panicked
into_bytes (Token.fixed_bytes b) = panicked
into_bytes (Token.array a) = panicked
into_bytes (Token.string s) = panicked

abbrev pub into_fixed_bytes : Token → Outcome (List ℕ)
into_fixed_bytes (Token.fixed_bytes b) = ok b
into_fixed_bytes (Token.address n) = panicked
into_fixed_bytes (Token.uint n) = panicked
into_fixed_bytes (Token.bytes b) = panicked
into_fixed_bytes (Token.array a) = panicked
into_fixed_bytes (Token.string s) = panicked

-- An index past the end panics.
abbrev pub topic : Log → ℕ → Outcome ℕ
topic log i = unwrap (get_elem? log.topics i)

abbrev pub token : List Token → ℕ → Outcome Token
token decoded i = unwrap (get_elem? decoded i)

abbrev pub uint_at : List Token → ℕ → Outcome ℕ
uint_at decoded i = token decoded i >>= into_uint

abbrev pub address_at : List Token → ℕ → Outcome ℕ
address_at decoded i = token decoded i >>= into_address

abbrev pub bytes_at : List Token → ℕ → Outcome (List ℕ)
bytes_at decoded i = token decoded i >>= into_bytes

abbrev pub fixed_bytes_at : List Token → ℕ → Outcome (List ℕ)
fixed_bytes_at decoded i = token decoded i >>= into_fixed_bytes

-- ===== src/Execution/Registry.antt =====
-- execution/code_registry.go. A driver is a function from code ids to chaincodes; the JSON coding of
-- the stored `CodeInfo` is a parameter, with the law that what was encoded decodes.
use svp_blockchain.Base.{ℕ, Option, none, some, ◌≡◌, replicate}
use svp_blockchain.Base.Bytes.{Bytes, Slice}
use svp_blockchain.Execution.Prog.{
  Prog, pure, raise, ◌>>=◌, ◌>>◌, get, put, code_not_found, invalid_code, bad_input,
}
use svp_blockchain.Execution.Context.{Chaincode, CodeInfo, DeploymentInput}

pub record Codec : Type 0 where
  pub marshal_info : CodeInfo → Bytes
  pub unmarshal_info : Slice → Option CodeInfo
  pub unmarshal_deployment : Bytes → Option DeploymentInput
  pub unmarshal-marshal_info : (i : CodeInfo) → unmarshal_info (some (marshal_info i)) ≡ some i

-- `map[DriverType]CodeDriver`, and what `GetInstance` of each driver returns
abbrev pub CodeRegistry : Type 0
CodeRegistry = ℕ → Option (Bytes → Option Chaincode)

abbrev pub code_registry_addr : Bytes
code_registry_addr = replicate 32 0

abbrev pub or_raise {ℓ} : {A : Type ℓ} → Option A → (A → Prog Chaincode) → Prog Chaincode
or_raise none f = raise code_not_found
or_raise (some a) f = f a

abbrev pub found : Option Chaincode → Prog Chaincode
found none = raise invalid_code
found (some cc) = pure cc

module _ (codec : Codec) (reg : CodeRegistry) where
  unfoldable pub get_code_info : Bytes → Prog CodeInfo
  get_code_info code_addr = do
    b ← get code_addr
    elim (codec.unmarshal_info b) [ none ↦ raise bad_input | some info ↦ pure info ]

  unfoldable pub set_code_info : Bytes → CodeInfo → Prog (Unit {0})
  set_code_info code_addr info = put code_addr (some (codec.marshal_info info))

  unfoldable pub get_instance : Bytes → Prog Chaincode
  unfolding get_code_info
  get_instance code_addr = do
    info ← get_code_info code_addr
    or_raise (reg info.driver_type) (λ driver. found (driver info.code_id))

  unfoldable pub deploy : Bytes → DeploymentInput → Prog Chaincode
  unfolding set_code_info
  deploy code_addr input =
      or_raise (reg input.code_info.driver_type)
        λ driver. do set_code_info code_addr input.code_info; found (driver input.code_info.code_id)

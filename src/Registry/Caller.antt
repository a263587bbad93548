-- ===== src/Registry/Caller.antt =====
-- abi-bindings/go/Teleporter/upgrades/TeleporterRegistry/TeleporterRegistry.go: the methods that read the contract.
use teleporter.Base.{ℤ, [], ◌∷◌, Outcome, ok, ◌>>=◌}
use teleporter.Bindings.Types.{Address, Hash}
use teleporter.Bindings.Abi.{big_int, address}
use teleporter.Contract.Bound.{BindLib, out_at}
use teleporter.Registry.Binding.{TeleporterRegistryCaller}

module _ (B : BindLib) where
  unfoldable pub max_version_increment : TeleporterRegistryCaller B → B.CallOpts → Outcome ℤ
  max_version_increment caller opts = do
    out ← B.call caller.contract opts "MAX_VERSION_INCREMENT" ([])
    value0 ← out_at out 0
    out0 ← B.to_big_int value0
    ok out0

  unfoldable pub valid_atorssourceaddress :
      TeleporterRegistryCaller B → B.CallOpts → Outcome Address
  valid_atorssourceaddress caller opts = do
    out ← B.call caller.contract opts "VALIDATORS_SOURCE_ADDRESS" ([])
    value0 ← out_at out 0
    out0 ← B.to_address value0
    ok out0

  unfoldable pub warp_messenger : TeleporterRegistryCaller B → B.CallOpts → Outcome Address
  warp_messenger caller opts = do
    out ← B.call caller.contract opts "WARP_MESSENGER" ([])
    value0 ← out_at out 0
    out0 ← B.to_address value0
    ok out0

  unfoldable pub blockchain_id : TeleporterRegistryCaller B → B.CallOpts → Outcome Hash
  blockchain_id caller opts = do
    out ← B.call caller.contract opts "blockchainID" ([])
    value0 ← out_at out 0
    out0 ← B.to_hash value0
    ok out0

  unfoldable pub get_address_from_version :
      TeleporterRegistryCaller B → B.CallOpts → ℤ → Outcome Address
  get_address_from_version caller opts version = do
    out ← B.call caller.contract opts "getAddressFromVersion" (big_int version ∷ [])
    value0 ← out_at out 0
    out0 ← B.to_address value0
    ok out0

  unfoldable pub get_latest_teleporter : TeleporterRegistryCaller B → B.CallOpts → Outcome Address
  get_latest_teleporter caller opts = do
    out ← B.call caller.contract opts "getLatestTeleporter" ([])
    value0 ← out_at out 0
    out0 ← B.to_address value0
    ok out0

  unfoldable pub get_teleporter_from_version :
      TeleporterRegistryCaller B → B.CallOpts → ℤ → Outcome Address
  get_teleporter_from_version caller opts version = do
    out ← B.call caller.contract opts "getTeleporterFromVersion" (big_int version ∷ [])
    value0 ← out_at out 0
    out0 ← B.to_address value0
    ok out0

  unfoldable pub get_version_from_address :
      TeleporterRegistryCaller B → B.CallOpts → Address → Outcome ℤ
  get_version_from_address caller opts protocol_address = do
    out ← B.call caller.contract opts "getVersionFromAddress" (address protocol_address ∷ [])
    value0 ← out_at out 0
    out0 ← B.to_big_int value0
    ok out0

  unfoldable pub latest_version : TeleporterRegistryCaller B → B.CallOpts → Outcome ℤ
  latest_version caller opts = do
    out ← B.call caller.contract opts "latestVersion" ([])
    value0 ← out_at out 0
    out0 ← B.to_big_int value0
    ok out0

-- ===== src/Utils/Deployment/Keyless/Laws.antt =====
-- `ConstructKeylessTransaction` of utils/deployment-utils/deployment_utils.go: what it returns and writes.
use teleporter.Base.{
  ℕ, ap, sym, ◌∙◌, ◌≡◌, refl, ◌/◌, ◌-◌, ◌^◌, arith, List, [], ◌∷◌, ◌++◌, map, Bool, true, false,
}
use teleporter.Base.{String, if◌then◌else◌, none, Outcome, ok, fail, panic, >>=-eq-ok, wrapping}
use teleporter.Text.{Text, codes}
use teleporter.Text.Hex.{encode_to_string}
use mathlib.Core.Path.{subst}
use teleporter.Bindings.Types.{Bytes}
use teleporter.Utils.Deployment.{
  DeployLib, LegacyTx, extract_byte_code, derive_evm_contract_address, Write, rs_value_hex,
  contract_creation_tx_file_name, contract_creation_addr_file_name,
  universal_contract_address_file_name,
}
use teleporter.Utils.Deployment.Keyless.{
  Keyless, rs_value, set_string_16, contract_creation_tx, construct, deployment_files, write_files,
  finish, construct_keyless_transaction,
}

-- 0x3333…33 with 32 bytes of 0x33.
abbrev pub threes : ℕ
threes = (2 ^ 256 - 1) / 5

rs_value-threes : rs_value ≡ ok threes
unfolding rs_value set_string_16 rs_value_hex
rs_value-threes = refl

-- The second list begins with the first.
abbrev pub Begins : List Write → List Write → Type 0
Begins [] ys = Unit
Begins (x ∷ xs) [] = ⊥
Begins (x ∷ xs) (y ∷ ys) = (x ≡ y) × Begins xs ys

module _ (D : DeployLib) where
  -- The files by their names in the repository: the transaction in hexadecimal, the address of the deployer that signed
  -- it, the address of the contract.
  abbrev pub expected_files : Keyless → List Write
  expected_files k =
      (codes "UniversalTeleporterDeployerTransaction.txt", codes "0x" ++ encode_to_string k.0)
      ∷ (codes "UniversalTeleporterDeployerAddress.txt", D.address_hex k.1)
      ∷ (codes "UniversalTeleporterMessengerContractAddress.txt", D.address_hex k.2)
      ∷ []

  deployment_files-expected :
      (k : Keyless) → map (λ f. f.0) (deployment_files D k) ≡ expected_files k
  unfolding deployment_files contract_creation_tx_file_name contract_creation_addr_file_name
      universal_contract_address_file_name
  deployment_files-expected k = refl

  -- The transaction of Nick's method for a byte code.
  abbrev pub nicks_tx : Bytes → LegacyTx
  nicks_tx byte_code = record {
    nonce = 0;
    gas = 4_000_000;
    gas_price = 2_500_000_000_000;
    to = none;
    value = 0;
    tx_data = byte_code;
    v = 27;
    r = threes;
    s = threes;
  }

  -- The transaction is the one of Nick's method: nonce 0, no receiver, no value, v = 27 and
  -- r = s = 0x33…33, with the file's byte code; its recovered sender gives the contract's address at nonce 0.
  pub record IsKeyless (name : Text) (k : Keyless) : Type 0 where
    pub byte_code : Bytes
    pub extracted : extract_byte_code D name ≡ ok byte_code
    pub sent : D.sender (nicks_tx byte_code) ≡ ok k.1
    pub serialized : D.marshal_binary (nicks_tx byte_code) ≡ ok k.0
    pub derived : derive_evm_contract_address D k.1 0 ≡ ok k.2

  construct-IsKeyless : (name : Text) {k : Keyless} → construct D name ≡ ok k → IsKeyless name k
  unfolding construct contract_creation_tx
  construct-IsKeyless name h =
      let (byte_code, extracted, h1) =
        >>=-eq-ok (extract_byte_code D name) _ (rw rs_value-threes at h) in
      let tx = contract_creation_tx threes byte_code in
      let (sender, sent, h2) = >>=-eq-ok (wrapping _ (D.sender tx)) _ h1 in
      let (bytes, serialized, h3) = >>=-eq-ok (wrapping _ (D.marshal_binary tx)) _ h2 in
      let (address, derived, e) =
        >>=-eq-ok (wrapping _ (derive_evm_contract_address D sender 0)) _ h3 in
      record {
        byte_code = byte_code;
        extracted = extracted;
        sent = ground arith;
        serialized = ground arith;
        derived = ground arith;
      }

  write_files-eq-ok :
      (files : List (Write × String)) (k : Keyless) {k' : Keyless}
      → (write_files D files k).0 ≡ ok k'
      → (k' ≡ k) × ((write_files D files k).1 ≡ map (λ f. f.0) files)
  unfolding write_files
  write_files-eq-ok [] k h = ground arith
  write_files-eq-ok (((name, contents), text) ∷ files) k {k'} h =
      ground (arith, write_files-eq-ok files k {k' = k'})

  write_files-Begins :
      (files : List (Write × String)) (k : Keyless)
      → Begins (write_files D files k).1 (map (λ f. f.0) files)
  unfolding write_files
  write_files-Begins [] k = tt
  write_files-Begins (((name, contents), text) ∷ files) k =
      ground (arith, write_files-Begins files k)

  -- The files that a run writes if nothing fails.
  abbrev planned_of : Outcome Keyless → Bool → List Write
  planned_of (ok k) true = expected_files k
  planned_of _ _ = []

  abbrev pub planned : Text → Bool → List Write
  planned name write_file = planned_of (construct D name) write_file

  finish-eq-ok :
      (o : Outcome Keyless) (write_file : Bool) {k : Keyless}
      → (finish D o write_file).0 ≡ ok k
      → (o ≡ ok k) × ((finish D o write_file).1 ≡ planned_of o write_file)
  unfolding finish
  finish-eq-ok (ok k') true {k} h =
      let (same, written) = write_files-eq-ok (deployment_files D k') k' {k' = k} h in
      (ap ok (sym same), written ∙ deployment_files-expected k')
  finish-eq-ok (ok k') false h = (h, refl)
  finish-eq-ok (fail e) write_file h = cc
  finish-eq-ok (panic e) write_file h = cc

  finish-Begins :
      (o : Outcome Keyless) (write_file : Bool)
      → Begins (finish D o write_file).1 (planned_of o write_file)
  unfolding finish
  finish-Begins (ok k) true =
      subst (Begins (write_files D (deployment_files D k) k).1) (deployment_files-expected k)
        (write_files-Begins (deployment_files D k) k)
  finish-Begins (ok k) false = tt
  finish-Begins (fail e) write_file = tt
  finish-Begins (panic e) write_file = tt

  -- A call that succeeds returns the transaction of Nick's method for the byte code of the file, with its recovered
  -- sender and the address of the contract, and if it was told to it has written the three files, each with the value that
  -- its name says, and none if not.
  pub construct_keyless_transaction_ok :
      (name : Text) (write_file : Bool) {k : Keyless}
      → (construct_keyless_transaction D name write_file).0 ≡ ok k
      → IsKeyless name k
        × ((construct_keyless_transaction D name write_file).1
            ≡ (if write_file then expected_files k else []))
  unfolding construct_keyless_transaction
  construct_keyless_transaction_ok name write_file {k} h =
      let (constructed, written) = finish-eq-ok (construct D name) write_file h in
      (construct-IsKeyless name constructed, written ∙ planned_of_ok constructed write_file)
    where
      planned_of_ok :
          {o : Outcome Keyless}
          → o ≡ ok k
          → (write_file : Bool)
          → planned_of o write_file ≡ (if write_file then expected_files k else [])
      planned_of_ok e true = rw e
      planned_of_ok e false = rw e

  -- Whatever fails, the files written are the first few of the three, in order, and none where the
  -- transaction could not be constructed or no files were asked for.
  pub construct_keyless_transaction-Begins :
      (name : Text) (write_file : Bool)
      → Begins (construct_keyless_transaction D name write_file).1 (planned name write_file)
  unfolding construct_keyless_transaction
  construct_keyless_transaction-Begins name write_file = finish-Begins (construct D name) write_file

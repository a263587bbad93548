-- ===== src/Lib.antt =====
-- Verification library for the Go code of Teleporter, a protocol for messages between EVM chains.
--
-- The program. The contracts of the repository run on the chains; the Go code around them packs and
-- parses their messages and events, deploys them, inspects their transactions on the command line,
-- and drives them from end to end in a test suite. The parts and the files that model them:
--
-- Base and its children: the outcome of a Go function (a value, an error, or a panic), integers,
--   lists and tests. Nothing in it is about the program.
-- Text, Text/Hex, Text/Decimal: what the program calls of strings, strconv and encoding/hex.
-- Bindings: abi-bindings/go/Teleporter/TeleporterMessenger. Types holds the message structs of
--   TeleporterMessenger.go; Packing is packing.go (PackX is pack_x, UnpackEvent is unpack_event); Event
--   and Filter are event.go (Event, String, ToEvent; FilterTeleporterEvents). Abi is the parameter
--   for the package accounts/abi, which only the dependencies of the repository hold.
-- Utils: Gas is utils/gas-utils/gas_utils.go; Deployment, with ContractAddress, ByteCode and
--   Keyless, is utils/deployment-utils/deployment_utils.go; ContractTool is the main function of
--   utils/contract-deployment/contractDeploymentTools.go, which calls it.
-- Cli: cmd/teleporter-cli. Root has the package's variables and the pre-runs, Message,
--   EventCommand and Transaction the commands, which call Bindings; Transaction/Reads says what a log is read as, apart
--   from that code.
-- Suite: tests/. Uri, Logs, Wait, Transactions and Acceptance, with its child Deploys, are
--   tests/utils/utils.go.
-- Testnet: tests/testnet/network.go. Environment is initializeSubnetInfo and NewTestNetwork, Delivery is
--   checkMessageDelivered and getMessageDeliveryTransactionReceipt (Loop and Query are about its two halves), Relay is
--   RelayMessage, which calls it.
-- Local: tests/local. Values is setSubnetValues, setAllSubnetValues, AddSubnetValidators and GetSubnetsInfo of
--   network.go, BlockWait is waitForAllValidatorsToAcceptBlock of network_utils.go, and Warp is
--   ConstructSignedWarpMessageBytes, which calls it; Relay is RelayMessage, which composes Warp with the helpers of
--   Suite; Deployment is deployTeleporterContracts and deployTeleporterRegistryContracts, with the loop in Deployment/Loop.
-- Contract: what the generated bindings under abi-bindings/go have in common. Bound is the parameter for the package
--   bind; Iterator is the iterator of an event (Next, Error, Close) and its parser, with Feed for the channels that it
--   reads and Delivery and Termination about it; Watch is the goroutine of a subscription.
-- Messenger and Registry: the generated TeleporterMessenger.go and TeleporterRegistry.go of abi-bindings/go/Teleporter,
--   and of its folder upgrades: Binding holds the structs and their constructors, Raw, Caller, Transactor and the three
--   session modules the methods, and a module for each event its iterator, filter, subscription and parser, made
--   from Contract. Messenger/Laws sets the methods beside packing.go, Messenger/Delivery the two ways to read an event
--   beside each other.
-- ExampleMessenger and BlockHash: the generated ExampleCrossChainMessenger.go and BlockHashPublisher.go of
--   abi-bindings/go/CrossChainApplications, in the same modules, with the events in Types.
-- Examples: the theorems at concrete data, with small implementations of the parameters.
--
-- Conventions. A Go string is the list of its code points, and of its bytes where the code counts or cuts
-- bytes. Addresses and 32-byte identifiers are the numbers that they spell, *big.Int and int are ℤ,
-- unsigned integers are ℕ with their bounds and wrap-around written out. An error is an Outcome.fail,
-- a panic, a failed assertion of the test suite and log.Panic are Outcome.panic. Fields, functions and
-- constants keep their names, in lower case with underscores.
--
-- Parameters. A package that the repository imports enters as a record of functions: AbiLib, CliLib,
-- DeployLib, ChainLib, AcceptLib, TestnetLib, LocalLib, WarpLib, RelayLib, which joins four of these, DeploymentLib,
-- and BindLib with Unpacker and MetaData for the package bind; the addition math.Add64, and the table of strings.ToLower beyond ASCII. What a theorem relies on
-- of them is a hypothesis (IsPackedEvent, IsAddressLib, IsAdd64, IsMessageCodec, and in Messenger/Laws
-- that a bound contract packs its calls with the ABI), and the modules of Examples meet each of these. What is assumed
-- of the channels behind an iterator is the step relation of Contract/Iterator/Feed: the logs found are sent in order
-- over a channel of any capacity, and the subscription ends without an error when all are sent.
--
-- Loops. Loops over slices are recursions on lists. The polling loop of WaitForTransaction has a bound of
-- rounds; one more round than there are answers to go on after is enough, and a theorem says for
-- which answers no bound is. The loop of getMessageDeliveryTransactionReceipt has one too; it is enough
-- that the context is over in some round below it; and that of waitForAllValidatorsToAcceptBlock, where it is
-- enough that every node is at the height in some round below it.
--
-- Not modelled: the registration of flags and the process exit in cobra, what a logger prints, the ABI and
-- the code of the contracts in the generated bindings, which are text (a parameter), the generated bindings
-- of the bridges, of their tokens and of BlockHashReceiver, the flows of tests/flows, the start of the
-- network of tests/local, and the Solidity contracts.
pub mod Base
pub mod Text
pub mod Bindings
pub mod Utils
pub mod Cli
pub mod Suite
pub mod Testnet
pub mod Local
pub mod Contract
pub mod Messenger
pub mod Registry
pub mod ExampleMessenger
pub mod BlockHash
mod Examples

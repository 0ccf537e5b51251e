-- ===== src/Lib.antt =====
-- Verification of the Go library go-tpm, in particular its package tpm2, which talks to a TPM 2.0.
--
-- The program. A caller fills a command structure; tpm2/reflect.go marshals its handles, session
-- authorizations and parameters by reflection over the structures of tpm2/structures.go, sends the
-- bytes to a device, decodes the response code (tpm2/errors.go), lets the sessions check the
-- response (tpm2/sessions.go) and unmarshals it. Packages legacy/tpm2 and tpm are older libraries.
--
-- The files.
-- Base: tests on numbers, lists, bits and masks, big-endian bytes, and the outcome of a Go
--   function, which is a value, an error or a panic. Go's byte slices are lists of numbers.
-- Tpm2/Fault: the errors of package tpm2, one constructor for each message.
-- Tpm2/Bitfield: tpm2/bitfield.go.
-- Tpm2/Reflect: tpm2/reflect.go, tpm2/marshalling.go and tpm2/tpm2b.go. Types is what package
--   reflect shows of a type, a universe with the Go values of each type; Marshal has marshal,
--   marshalStruct, marshalArray and TPM2B.marshal, Unmarshal their counterparts, Selectors the map
--   from field names to union selectors, Bitwise the structures of bits. Valid says which values
--   come back, and as what. RoundTrip and Limits are theorems.
-- Tpm2/Structures, Tpm2/Constants: tpm2/structures.go, each Go structure as a description with its
--   fields in the source's order and with the source's tags.
-- Tpm2/ResponseCode: tpm2/errors.go, with the tables in Tables; Legacy/ResponseCode:
--   legacy/tpm2/error.go. A message is what is put into its text.
-- Tpm2/Session: tpm2/sessions.go. Crypto is an interface for the hash functions and the HMAC of
--   the Go library; Attributes, Key and Hashes are attrsToBytes, hmacKeyFromAuthValue, and cpHash,
--   rpHash and computeHMAC; Password, Hmac and Policy are Authorize and Validate of the three kinds
--   of session. Options has the options, the structs hmacSession and policySession (one record) and
--   their constructors; Salt has getEncryptedSalt with its helpers of tpm2/crypto.go, and Platform,
--   an interface for what else is used of the Go library and for the transport; Derive has the
--   session key, Encrypt and Decrypt; Open has Init, CleanupFailure, NewNonceCaller, HMACSession and
--   PolicySession, Open/Exchange the bytes of StartAuthSession and of its answer;
--   Objects fills the interface Session of Tpm2/Execute with pointers into a store of
--   sessions. A method that changes the session returns the new session.
-- Tpm2/Union: the types of unions in tpm2/structures.go with `create`, `get`, the constructors and the
--   accessors; Tables has the cases of every union, by the names of the Go types.
-- Tpm2/Pcrs: tpm2/pcrs.go; Tpm2/Names: tpm2/names.go; Tpm2/Audit: tpm2/audit.go.
-- Tpm2/Policy: tpm2/policy.go; its Commands are the Update methods of tpm2/tpm2.go.
-- Tpm2/Kdf: kdf, KDFaHash and KDFeHash of legacy/tpm2/kdf.go, which tpm2/kdf.go calls.
-- Tpm2/Command: what package reflect shows of a command's struct, the values of its fields, the
--   handles of tpm2/tpm2.go, TPM2BSensitiveCreate, and cmdAuths, cmdHandles, cmdNames and
--   marshalParameter of tpm2/reflect.go. Tpm2/Commands: the commands of tpm2/tpm2.go with their
--   codes and responses.
-- Tpm2/Execute: the rest of the execution of commands in tpm2/reflect.go. Step is the state that is
--   passed, Sessions the interface Session as a record of operations on references, Request has
--   cmdParameters and cmdSessions, which Request/Areas and Request/Authorizations describe without
--   their loops, Response has rspHandles, rspSessions and rspParameters, Run has
--   execute; the transport's Send is a parameter. Passwords fills the interface with pwSession.
-- Legacy/Wire, Algorithm, Scheme, Public, Template, Name, Signature, Attest: legacy/tpm2/structures.go
--   and what it uses of legacy/tpm2/constants.go, over Pack and UnpackBuf of Tpmutil/Encoding. A
--   pointer that may be nil is an Option; what package crypto gives is a parameter. Legacy/Selection:
--   encodeTPMLPCRSelection and decodeTPMLPCRSelection of legacy/tpm2/tpm2.go; Legacy/Tpm: its
--   runCommand over a TPM that is a parameter, authorization areas and capabilities; Legacy/Nv:
--   NVReadPublic and NVReadEx.
-- Tpmutil/Encoding: tpmutil/encoding.go, with the self-marshaling types of tpmutil/structures.go;
--   Value is what package reflect shows of an argument. Tpmutil/Command: packWithHeader and
--   RunCommand.
-- Tpmutil/Run: RunCommandRaw of tpmutil/run.go. What the device does is a parameter, a function from
--   the number of earlier tries to the outcome of a try; backoffFac counts the tries that are left.
-- Tests: the definitions on concrete inputs.
--
-- Bounds. A number of w bits is a natural number below 2^w. Marshalling cuts a number to its width,
-- as binary.Write does; lengths and sizes are cut where the code converts them. All loops are
-- structural recursion on a list or a count, but for the loop of kdf, which runs on as many rounds of
-- fuel as bytes are asked for: every round appends at least one byte; the loop of DecodeTPMLDigest,
-- which has fuel for every byte, each round taking two; the bytes of a big.Int, with fuel for the
-- number; and the loop of NVReadEx, for which the size of the index is enough.
--
-- Not modelled. Transports, the devices of tpmutil, the other commands of
-- legacy/tpm2, and package tpm. Pointers to handles in a command's struct are left out. Valid holds of no value with an
-- unsized list of bytes at its end, so the round trip says nothing of these.
pub mod Base
pub mod Tpm2
pub mod Tpmutil
pub mod Legacy
mod Tests

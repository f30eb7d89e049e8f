-- ===== src/Lib.antt =====
-- BC-ABE: files encrypted under access policies (attribute-based encryption with several
-- authorities), kept on a Hyperledger Fabric ledger.
--
-- A user enters a policy, such as `role@auth0 /\ (dept@auth1 \/ hour@auth1 > 9)`. abe/policy.go
-- checks it (`ValidateUIPolicy`), brings it to the form that the library in pkg/mosaic parses
-- (`NormalizePolicySyntax`), and derives from it the attributes for which the user's client asks keys
-- of the authorities (`KeyIssueSpecsFromPolicy`). The client writes the ciphertext to the smart
-- contract of chaincode/contract.go; the authorities write the global parameters there. The services
-- give their errors a kind by utils/apperr, and the HTTP layer shows the kind to its caller.
--
-- The modules and the code that they model:
--   Text: Go strings as lists of code points, and the functions of `strings`, `strconv` and `unicode`
--     that the program calls. Spaces are those of `unicode.IsSpace`; letter case is that of
--     ASCII and of the letters that fold into it.
--   Policy: abe/policy.go. Scan has the scanners `splitAtTopLevelJoins`, `isWrappedClause` and
--     `joinPolicyParts`; Clause the numeric clauses and their checks; Rewrite, Flatten, Precedence and
--     Normalize the steps of `NormalizePolicySyntax`; Leaves `policyLeafClauses` and
--     `parsePolicyClauses`; Keys `KeyIssueSpecsFromPolicy` and `ValidateUIPolicy`; Missing
--     `PolicyMissingUserKeys` and `NormalizeAttrName`. A function has the
--     source's name in lower case with `_`. Meaning is a specification: what a policy means by the
--     grammar pkg/mosaic/abe/Policy.g4. The other children hold proofs.
--   Chaincode: chaincode/contract.go. Contract has each method as a function from the world state to
--     a new one or to an error; Stub is the interface to Fabric and to `encoding/json`; Samples, Codec
--     and ParamsCodec are instances of it that meet the assumed laws. Refinement has the abstract
--     contract, a map of assets.
--   Apperr: utils/apperr/errors.go and utils/apperr/http.go.
--   Keys: user_client/service/attr_format.go, with `UserAttributes` of auth_service.go (Account), and
--     key_service.go. Format has the expressions and the texts of attributes, Parse `parseAttrSpec`,
--     Numeric `resolveAttrSpecForUser`, Labels the labels of stored keys; Accounts is `Register`,
--     `Login` and `GetUser` of auth_service.go. Issue has the checks before a key is asked for, Table
--     the table of keys with the transaction of `issueAndStore`, Issuing the request to the server and
--     `RequestKey`, Merge `MergeUserKeysForPolicy`, Listed `ListUserKeys`, Ensure
--     `EnsureKeysForPolicy`; Samples is a table that meets the assumed laws.
--   Msp: utils/msp/key.go.
--   Authority: abe/engine.go (Engine, Decrypting, Encrypting, Decrypt), utils/msp/verify.go and the
--     checks of auth_admin/main.go (Verify), its `handleIssueKey` (Server), and its `initOrg` and
--     `syncGlobalParamsToChain` (Setup).
--   Files: user_client/service/file_service.go. Content has the encryption of a file, Path the
--     `filepath.Join` by which the files are named, Assets the reads of the ledger with `List` and
--     `Delete`, Upload `putEncrypted` with `Encrypt` and `Update`, and
--     Download `Decrypt`.
--   Db: utils/db. Dsn has `parseDSN` and `quoteIdent`, Seed the seeds of Fabric's users.
--   Common: names, lists, Boolean tests and recursion on the length of a text, for all of the above.
--   Tests: runs on concrete inputs.
--
-- Strings, state and errors: a transaction that fails changes nothing; an `error` is a constructor
-- that names the message, with what the source formats into it as arguments. `none` is a panic where
-- the source can index or allocate out of range; where the server's handler panics, it gives no answer
-- (`aborted`). An `int` is a native number where the code keeps it
-- from becoming negative; the depth of brackets is an integer; a version is the bit pattern of an
-- `int` of 64 bits.
--
-- Fuel: the functions of abe/policy.go that call themselves run on one more unit of fuel than the
-- text has characters (`measured`). Each call is on a shorter text, so the fuel is enough.
--
-- Parameters: the checks of pkg/mosaic (`CheckPolicyEncryptable`, `ValidateAccessPolicy`), Fabric's
-- stub and client identity, the JSON codec, pkg/mosaic behind the engine (`Mosaic`, `Encryption`,
-- `Opening`), the certificates, keys, signatures, hashes and ciphers of Go's library (`Pki`, `KeyPem`,
-- `Gcm`), the network (`Network`), the files (`FileStore`), the tables of keys (`KeyTable`) and of
-- organisations (`OrgTable`), and the table of accounts with bcrypt and the certificate authority
-- (`Accounts`, `Enrolment`, `SeedTable`, `SeedFiles`). The laws that theorems rely on are fields of
-- `StubLaws`, `JsonLaws`, `GcmLaws`, `FileLaws`, `KeyTableLaws`, `OrgTableLaws`,
-- `SeedLaws`, `AccountsLaws` and `EnrolmentLaws`; `Matching` says that the client's libraries and the
-- server's are the same. `StubLaws` says of a query of a range what holds below the peer's limit of the
-- number of its results.
--
-- Not modelled: the controllers (user_client), the console of the authority (auth_admin), and, as input
-- and output: the set-up of the database, the environment, the reading of certificates, the glue to
-- Docker, Fabric's gateway and its certificate authority (utils), and the measurements (benchmark).
-- pkg/mosaic is another project's library.
pub mod Common
pub mod Text
pub mod Policy
pub mod Chaincode
pub mod Apperr
pub mod Keys
pub mod Authority
pub mod Msp
pub mod Files
pub mod Db
pub mod Tests

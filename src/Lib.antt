-- ===== src/Lib.antt =====
-- Verification of the Archivon backend (backend/internal), a gate to archived files: a user logs
-- in, asks for a folder, a gateway collects proof of work for the request, and enough of it opens
-- one session of limited time for the tenant.
--
-- How the parts interact. internal/access keeps the queue of proof-of-work jobs and the access
-- sessions in the database. internal/compute hands work to Stratum workers, verifies the shares
-- that they submit and asks internal/access to reconcile. internal/auth keeps users and login
-- sessions. internal/kms holds the master key, and seals the policy of each folder
-- (internal/policyseal), which internal/access checks before it makes a job. internal/audit
-- moves old events into backups and back. internal/database applies the migrations at start-up.
--
-- Files and the code that they model:
--   Prelude, Text    helpers; Text/Uuid is isUUIDLike and clientIP
--   Store            the tables of migrations/*.up.sql (Store/Rows), what SQL statements do to them
--                    (Store/Table), and transactions with rollback (Store/Tx)
--   Access/Policy    internal/access/service.go: normalizePolicy, validatePolicy, requiredWorkTH
--   Access/Queue     canStartJobTx, promoteNextQueuedTx, expireSessions, timeoutJobs
--   Access/Progress  validShareProgress, bestAttemptProgress
--   Access/Sessions  openSessionForCompletedJob, closeSession, closeSessionAsAdmin
--   Access/Jobs      createJob, cancelJob, loadFolderPolicy, ensureFolderPoWPolicySeal, canUnlock
--   Access/Reconcile completeRunningJobs, reconcile
--   Compute/Hex      internal/compute/service.go: hexadecimal text, hexLen, reverseHexBytes,
--                    reverseHexWords
--   Compute/Version  requestedVersionRollingMask, effectiveVersionHex
--   Compute/Coinbase compactSize, buildValidCoinbaseParts
--   Compute/Share    buildWork, targetForDifficulty, stratumHeaderBytes, verifyShare
--   Compute/Policy   normalizePolicy, validatePolicy, portFromAddress
--   Compute/Gateway  the worker connections, and the statements on compute_workers and pow_shares
--   Compute/Stratum  handleConfigure, sendWork; Stratum/Authorize: authorize, and a tick of
--                    workDispatchLoop; Stratum/Submit: submitShare, handleMessage
--   Auth/Roles       internal/auth/service.go: canCreateRole, canManageUser
--   Auth/Users       userBySessionHash, RequireRole, handleUpdateUserStatus
--   Auth/Env         the session policy: normalizeAuthSessionPolicy, loadAuthSessionPolicy
--   Auth/Settings    handleAuthSettings
--   Auth/Login       handleLogin, handleLogout
--   Auth/Passwords   handleChangePassword, handleResetUserPassword
--   Auth/Creating    bootstrapState, handleCreateSuperAdmin, handleCreateUser
--   Auth/Deleting    handleDeleteUser, promoteNextQueuedAccessJobTx, and the foreign keys
--   Kms/Keys         internal/kms/service.go: NewService, loadKey, normalizeMasterKey
--   Kms/Wrapping     WrapDataKey, UnwrapDataKey, EncryptMetadata, DecryptMetadata
--   Kms/Sealing      Seal, VerifySeal
--   Kms/Slots        Status, State, Ready, upsertKeySlot
--   PolicySeal       internal/policyseal/folder_pow.go, and internal/kms as the key service that
--                    internal/access is given
--   Migrations       internal/database/migrations.go: loadMigrationFiles, ApplyMigrations
--   Audit/Events     internal/audit/service.go: queryFileActivityEventsTx, deleteEventsTx,
--                    insertEventsTx
--   Audit/Policy     normalizePolicy, cleanupScopeFromRequest
--   Audit/Backups    loadPolicy, encodeBackup, cleanupFileActivity
--   Audit/Restoring  restoreBackup
--   Audit/Handlers   handleSettings, handleCleanupFileActivity, handleRestore
-- Theorems stand in the children of these modules, tests and instances in Examples and Witnesses.
--
-- State. A row is a record and a table a list of rows in order of insertion; a method that runs a
-- transaction is a function from the tables to a result and the tables after it. A uuid is a
-- number, a time a number of microseconds, and a numeric(_, 6) column, which the code holds as
-- float64, a number of millionths: the rounding of floats is not modelled, and the quotient in
-- targetForDifficulty is exact before it is cut to an integer, where the code rounds it to 256
-- bits. Each reading of a clock and each generated id is an argument. The key service, bcrypt, the
-- random source, uuid casts and json are arguments too (Access/Env, Compute/Stratum.GatewayEnv), as
-- are SHA-256 and net.SplitHostPort. Failures of the database other than a violated unique index,
-- which the code passes on as an error, are not modelled. Every loop recurs on a list or on a
-- number of rounds that the code itself fixes. Only the printing of a decimal number
-- (Text/Decimal) takes fuel, one more than the number, and reading it back shows that to be enough.
--
-- A Stratum connection is a state, a handler a function from it and the gateway to both and an
-- error; a write to the connection may fail at any message. The mutex of a connection is not
-- modelled: a message, and a tick of the dispatch, is one step.
--
-- One request is one step: the reads of a handler and its transaction see the same tables, and
-- the readings of the clock in createJob are one. The time of a work has eight hexadecimal
-- digits, as it has until 2106. The JSON of a backup is taken to read back as it was; the details
-- of an event, which the encoder indents, do so up to white space. What the foreign keys do when
-- a user is deleted is part of Auth/Deleting.
--
-- Not modelled: the routing and decoding of HTTP requests and the listings for display, the
-- archive and its WebDAV server, the listing and the export of audit events, configuration and
-- start-up, the Stratum debugger and the frontend. The zeroing of keys in memory has no
-- counterpart here.
pub mod Prelude
pub mod Text
pub mod Store
pub mod Access
pub mod Compute
pub mod Auth
pub mod Kms
pub mod PolicySeal
pub mod Migrations
pub mod Audit

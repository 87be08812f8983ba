-- ===== src/Lib.antt =====
-- Yukimi is a Crossplane provider that gives tenants their own Snowflake accounts. A
-- SnowflakeAccount resource in a tenant's namespace is reconciled by a controller, which runs a
-- pipeline of modules; today that is one module, the account module, which creates the account,
-- records its locator, connects to it and drops it. It takes its connections from a pool and its
-- credentials from a key manager, and a DeletionPermit, which a second controller lets expire,
-- guards the deletion.
--
-- Where each part stands (file here: directory or file of the repository):
--   Errors: internal/errors. User and system errors, `Result` for (T, error).
--   Logger: internal/logger. `handle` is Handle: what a tenant sees of an error.
--   Secrets/Identifier: internal/secrets/identifier.go.
--   Secrets/KeyStore: internal/secrets/keystore.go and fake.go; Contract has what a client relies
--     on, Refinement what the interface promises of an identifier by what it holds.
--   Secrets/Credentials, Secrets/KeyPair, Secrets/Manager: internal/secrets/credentials.go and
--     manager.go. The manager's methods get, create and update are get_raw, create_raw and
--     update_raw.
--   Snowflake/Host: internal/snowflake/host. Snowflake/Statement: internal/snowflake/statement.
--   Snowflake/Pool: internal/snowflake/pool. Connect is connect.go, Rotation rotate.go, Cache is
--     pool.go and Shutdown its Close, one call after another; Leaks counts the connections over
--     such calls. Locks has TenantDB and EvictTenant of any number of goroutines, step by step
--     between the mutexes: `Move` is a step, `Reach` the states that they come to, and Alone sets
--     the steps of one goroutine beside the call in Cache.
--   Secrets/Aws: internal/secrets/aws, the key store on AWS Secrets Manager.
--   Config/Base: internal/config/base. Load is load_base; Patterns has the regular expressions,
--     Resolve the settings with defaults, Document the search for the cloud section, Settings the
--     records, Shape the tests of the required fields.
--   Config/Backplane: internal/config/backplane, the catalog and its lookups; Load has Load and
--     loadRegion, with the loops in Inventory and Allowlist. Config/Cidr: ContainsCIDR, over
--     net.ParseCIDR and IPNet.Contains. Config/Files: how a file in the directory is read.
--   Provider: cmd/provider/main.go, from the two loaders to the key store; Serve is the rest of
--     main, with internal/controller/yukimi.go.
--   Account/Tenant: internal/account/tenant. Account/Outcome, Account/Pipeline and
--     Account/ResourceData: internal/account/pipeline.
--   Account/Module: internal/account/modules/account. Existing has module.go and the part of
--     apply.go for an account that exists, Checks, Create and Creation the rest of apply.go, Drop
--     has teardown.go.
--   Deletion: internal/deletion. FindActivePermit and MarkConsumed.
--   Controller/PermitReconciler: internal/controller/deletionpermit. Controller/AccountReconciler:
--     internal/controller/snowflakeaccount; `Observe` is account_reconciler_observe, `apply` is
--     account_reconciler_apply, `Delete` is account_reconciler_delete; Wiring is Setup and Connect.
--     Controller/Options: the options that both Setup functions give the library's reconciler.
--   Apis: apis/base/v1alpha1, and what is used of crossplane-runtime. Admission is what the
--     validation markers let through, Managed the accessors.
--   Base, Results and Effects are shared, Tests has concrete inputs.
--
-- A function that returns an error and changes something is an `Action`: a function from a state
-- to a result and the state left behind, errors included. What lies outside the repository is a
-- parameter: the state `W` of the world with the clock, the Kubernetes client, the driver, the
-- log, crypto and encoding libraries, and the conditions of crossplane-runtime. Where a theorem
-- needs documented behaviour of these, a record of laws states it (IsCrossplane, IsKeyStore,
-- IsUserBackend, IsSecretsManager, IsDriver,
-- IsTidy, IsPaired). The two configuration loaders take the reading of a file, the
-- YAML decoder and time.ParseDuration, whose fractions are floating point, as parameters.
--
-- Texts are lists of bytes, as Go strings are; times are nanoseconds as natural numbers, and a
-- difference of times is written as a sum on the other side. Loops are structural recursions on
-- lists; the loop of net.ParseCIDR over the groups of an IPv6 address counts down from eight, the
-- most that fit. A connection is known by a number, as a pointer by its address.
-- Outside Snowflake/Pool/Locks a method under its lock is one step.
--
-- Not modelled: the flags and the construction of the manager, which are calls of kingpin and
-- controller-runtime; the order in which goroutines call the key manager's cache; Close at the same
-- time as other calls of the pool, which main rules out; generated code and the end-to-end tests.
pub mod Base
pub mod Errors
pub mod Provider
pub mod Results
pub mod Effects
pub mod Secrets
pub mod Snowflake
pub mod Apis
pub mod Logger
pub mod Config
pub mod Account
pub mod Deletion
pub mod Controller
pub mod Tests

-- ===== src/Lib.antt =====
-- A model of mdrive, a network drive with POSIX-like inodes in a relational database and large objects
-- in an object store.
--
-- The program, from the bottom up:
--   errorx (internal/errorx) gives each error a kind, which the middleware of the API server
--     (internal/app/apiserver/middleware/error.go) turns into a status and a code.
--   core/node (internal/core/node) has the inodes: files, directories, symbolic links, objects and
--     mounts, each with an inline JSON document of at most 4096 bytes; a repository that saves them
--     with optimistic concurrency; and the operations that change several inodes in one transaction
--     (internal/entx).
--   core/drive and core/user (internal/core) keep drives with their storages, and users.
--   vfs (internal/vfs) resolves paths through symbolic links and mounts and has the calls of a file
--     system; what it removes from the object store it records in a table of tombstones.
--   upload (internal/upload) hands out addresses at which a client stores an object, with a token in a
--     registry, and makes the object an inode when the client says that it is done.
--   app/gc (internal/app/gc) are the jobs that delete what tombstones name, drives that were deleted
--     long ago, and uploads that were never completed.
--   auth (internal/auth) turns a login into an encrypted cookie and the cookie into a session,
--     permission (internal/permission) asks an OpenFGA server, and the handlers of the API server
--     (internal/app/apiserver/handler) check sessions and permissions before they call the services.
--
-- What models what:
--   Prelude          Shared names: Boolean tests, conditionals, strings as lists of code points.
--   Errorx           errorx.go and KindToCode. A chain of errors is a data type with foreign errors,
--                    foreign wrappers, and the struct with and without a cause.
--   Result           The results of the fallible Go functions: a value or the kind of the error.
--                    Messages of errors are left out here; Errorx has them.
--   Node.Kinds       NodeKind and its two encodings.
--   Node.Flags       Flags; a set of flags is a bit mask below 256.
--   Node.Content     The JSON payloads and the length of each as encoding/json prints it.
--   Node.Inode       Node, newNode, write and read. The clock and the revisions are arguments.
--   Node.Typed       file.go, symlink.go, object.go, mount.go, inline_node.go.
--   Node.Dir         dir.go. A method that changes its receiver returns the changed node.
--   World            The tables, actions with a world (committed tables, those of the open
--                    transaction, a count of outside calls) and an environment (clock, generators,
--                    which database call fails), and WithTx.
--   Repo             ent.go. Get reads the committed tables, also inside a transaction, as the code
--                    does; Save and Delete work on the transaction if there is one.
--   NodeOp           operation.go: creation, Link, BulkLink, Unlink, UnlinkOrReplace, BulkUnlink and
--                    MoveEntry, with the child modules for what each leaves behind.
--   Vfs.Path         cleanPath, splitPath and joinParts, with strings.TrimSpace, strings.Trim,
--                    strings.Split and path.Clean on lists of code points.
--   Vfs.Resolve      The resolver of path.go: a loop over components whose turns are values.
--   Vfs.Service      Parents of paths, roots of drives, the walk through mounts, and the lookups of
--                    service.go.
--   Vfs.Make         mkdir.go, touch.go, ln.go, mount.go and write.go.
--   Vfs.Transfer     mv.go.
--   Vfs.Show         ls.go, cat.go and stat.go.
--   Vfs.Remove       rm.go, and RecordGarbage of internal/app/gc/store.go.
--   Drives           internal/core/drive: service.go, and in Drives.Rows the repository of ent.go.
--   Users            internal/core/user: the repository and the service.
--   Crypto           The interface of internal/crypto; Crypto.Keys the master key.
--   Outside          Calls of servers beside the database: a call works on the world and on the state of
--                    the servers, which are parameters, and sees the time and whether it fails.
--   Upload           internal/upload: Tokens has the interface of a registry and what its clients rely
--                    on, Memory and Valkey the two registries, the second over a key server; Store is
--                    s3/client.go over the SDK; Body and Service are service.go; Claims, Complete and
--                    Initiate are about the service.
--   Auth             internal/auth: session.go, security.go, and the end of a login in flow.go; State
--                    has the state cookie and the identity of flow.go and claims.go; Found and Login
--                    are about logins and the requests after them.
--   Permission       internal/permission: Check and buildCredentials.
--   Handlers         internal/app/apiserver/handler: the handlers of fs.go that read, Changes those that
--                    change files, with their Requests, DriveOps for drives and users, Uploads,
--                    Answers for the conversions of results; Guard is about the permission checks, Me
--                    about AuthMe.
--   Gc               internal/app/gc: Tombstones is store.go, Gc runner.go; Expirer, Purger, Cleaner,
--                    Cleared and Secrets are about the jobs, Objects and Sizes about what groups of
--                    tombstones name.
--   Example          A small file system on which the theorems are run.
--
-- Conventions: identifiers (UUIDs) are natural numbers, with 0 for the nil UUID; times are natural
-- numbers; a link count is raised modulo 2 ^ 32; the lowering of a link count is written behind the
-- test that it is above 1. An operation returns the changed copies of the nodes that Go changes through
-- pointers. What Go has changed in memory before an error is not modelled. The loops are structural
-- recursion on lists; the walk through mounts counts its 32 hops down as the code counts them up. Two
-- recursions of vfs are on fuel: resolvePathInner, which the program calls with an empty set of
-- visited links, has 41, one more than the links that it may follow; rmRecursive takes its fuel as an
-- argument, which is enough if it is above the height of the tree of directories. The visiting order
-- of a Go map is an argument (two, where two loops range over one map). Where two parameters of an
-- operation may be the same pointer (MoveEntry within one directory, the children of BulkLink), the
-- sharing is modelled; Link takes two different inodes. The loop over the pages of a scan of the key
-- server is on fuel for the pages, and fails without fuel: the server, not the program, decides how many
-- pages there are.
--
-- Outside code: the key server (KeyServer), the SDK of the object store (S3Api and S3Cloud), the OpenFGA
-- client (FgaClient), the cipher (Cipher) and encoding/json on a session and on the state of a login
-- (SessionJson, StateJson) are records that the definitions take. What the program relies on of them is
-- a record of laws (IsServer, IsStore, IsLawful, IsRoundTrip), which the theorems that need it take.
-- A limit on the length of a column of the database counts as a call of the database that fails.
--
-- Not modelled: logging, generated code (ent, pkg/api), the server and its routes, the CSRF check, the
-- OIDC exchange, the writing of cookies, configuration, the command line, and calls of the object store
-- and of the OpenFGA server that the program never makes.
pub mod Prelude
pub mod Errorx
pub mod Result
pub mod Node
pub mod World
pub mod Repo
pub mod NodeOp
pub mod Users
pub mod Crypto
pub mod Drives
pub mod Vfs
pub mod Outside
pub mod Upload
pub mod Auth
pub mod Permission
pub mod Handlers
pub mod Gc
pub mod Example

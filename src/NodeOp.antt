-- ===== src/NodeOp.antt =====
-- internal/core/node/operation.go: the operations of the node domain, each in its transaction. A
-- node that is passed by pointer is passed and returned by value here; after an error the source
-- asks its callers to fetch the nodes again, so no node is returned.
pub mod Create
pub mod Link
pub mod Unlink
pub mod Move
pub mod Atomic

-- ===== src/Redis.antt =====
-- packages/shared/src/redis/: the queue of tasks and the locks on them. The Redis server is a
-- parameter: a store, the commands that the classes send, and what the server's documentation says
-- that they do. Keys are strings with distinct prefixes, so they are told apart by constructors.
pub mod Server
pub mod TaskQueue
pub mod LockManager

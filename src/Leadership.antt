-- ===== src/Leadership.antt =====
-- internal/leadership: the key in etcd that names the primary.
pub mod Etcd
pub mod Session
pub mod Exclusive

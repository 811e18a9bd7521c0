-- ===== src/Tests/LeaderRuns.antt =====
-- The theorems on leadership, applied to the etcd of Tests.Keys.
use snowcast.Prelude.{codes}
use snowcast.Leadership.Session.{default_key, try_acquire}
use snowcast.Leadership.Exclusive.{Acquired, try_acquire-Acquired}
use snowcast.Tests.Keys.{holder, local_etcd, local_etcd-IsEtcd, no_keys}

try_acquire-Acquired_example :
    Acquired holder default_key
      (codes "127.0.0.1:16800")
      no_keys
      (try_acquire local_etcd default_key (codes "127.0.0.1:16800") 5 no_keys)
try_acquire-Acquired_example =
    try_acquire-Acquired holder local_etcd local_etcd-IsEtcd default_key (codes "127.0.0.1:16800") 5
      no_keys

-- ===== src/Storage/Repository/Laws.antt =====
-- What the queue's tables return after a write.
use contract_evidence_os.Prelude.{String, ◌≡◌, refl, some, List, ◌==◌, eq_iff, if◌then◌else◌}
use contract_evidence_os.Queue.Models.{QueueItem, QueueLease}
use contract_evidence_os.Storage.Table.{insert_or_replace}
use contract_evidence_os.Storage.Table.Laws.{find_row-insert_or_replace, key-find_row}
use contract_evidence_os.Storage.Repository.{
  Repository, get_queue_item, get_queue_lease, item_key, lease_key,
}

pub item_stored :
    (r : Repository) (k : String) (item : QueueItem) (rows : List QueueItem)
    → r.queue_items ≡ insert_or_replace item_key item rows
    → item.queue_item_id ≡ k
    → get_queue_item k r ≡ some item
unfolding get_queue_item
item_stored r k item rows h e =
    rw (h, find_row-insert_or_replace item_key, (eq_iff item.queue_item_id k).1 e) refl

pub lease_stored :
    (r : Repository) (k : String) (lease : QueueLease) (rows : List QueueLease)
    → r.queue_leases ≡ insert_or_replace lease_key lease rows
    → lease.lease_id ≡ k
    → get_queue_lease k r ≡ some lease
unfolding get_queue_lease
lease_stored r k lease rows h e =
    rw (h, find_row-insert_or_replace lease_key, (eq_iff lease.lease_id k).1 e) refl

-- A lookup after a lease is written.
pub get_queue_lease-write :
    (r r' : Repository) (k : String) (lease : QueueLease)
    → r'.queue_leases ≡ insert_or_replace lease_key lease r.queue_leases
    → get_queue_lease k r' ≡ (if lease.lease_id == k then some lease else get_queue_lease k r)
unfolding get_queue_lease
get_queue_lease-write r r' k lease h = rw (h, find_row-insert_or_replace lease_key) refl

pub key-get_queue_lease :
    (k : String) (r : Repository) (lease : QueueLease)
    → get_queue_lease k r ≡ some lease
    → lease.lease_id ≡ k
unfolding get_queue_lease
key-get_queue_lease k r lease h = key-find_row lease_key k r.queue_leases lease h

pub key-get_queue_item :
    (k : String) (r : Repository) (item : QueueItem)
    → get_queue_item k r ≡ some item
    → item.queue_item_id ≡ k
unfolding get_queue_item
key-get_queue_item k r item h = key-find_row item_key k r.queue_items item h

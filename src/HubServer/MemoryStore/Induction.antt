-- ===== src/HubServer/MemoryStore/Induction.antt =====
-- packages/hub-server/src/memoryStore.ts: the induction that every invariant of the store shares.
-- What the writes of one entry keep, the removal paths keep; with the publish path, every call.
use kumiai.HubServer.MemoryStore.Subscriptions.{is_of_topic, drop_topic}
use kumiai.HubServer.MemoryStore.Read.{FetchParams, fetch}
use kumiai.HubServer.MemoryStore.Retention.{purge_scan, purge, ack, trim_ids, trim}
use kumiai.Shared.{
  ℕ, zero, suc, ◌≡◌, inl, inr, some, List, [], ◌∷◌, ltb, Option-cases, Bool-cases, arith, without,
  ◌&&◌,
}
use kumiai.Shared.Map
use kumiai.HubServer.MemoryStore.{
  LogEntry, Store, is_log, splice_delivery, remove_found, remove_entry, remove_entries,
  release_entry, drop_found, drop_delivery, drop_deliveries, is_log_id,
}
use kumiai.HubServer.MemoryStore.Publish.{trim_depth, find_log, log_ids}

-- `P` survives each write of the removal paths.
pub record KeptByRemoval (P : Store → Type 0) : Type 0 where
  pub removed :
      (id : ℕ) (e : LogEntry) (s : Store)
      → Map.get id s.entries ≡ some e
      → P s
      → P (remove_found id e s)
  pub spliced :
      (id did : ℕ) (s : Store)
      → P s
      → P (record s { deliveries = splice_delivery id did s.deliveries })
  pub released :
      (id did : ℕ) (e : LogEntry) (s : Store)
      → Map.get id s.entries ≡ some e
      → P s
      → P (record s {
        entries = Map.set id (record e { pending_for = without did e.pending_for }) s.entries;
      })

module _ {P : Store → Type 0} (k : KeptByRemoval P) where
  pub remove_entry-keeps : (id : ℕ) (s : Store) → P s → P (remove_entry id s)
  unfolding remove_entry
  remove_entry-keeps id s h = elim (Option-cases (Map.get id s.entries)) [
    | inl e ↦ rw (e, remove_entry) h
    | inr (entry, e) ↦ rw (e, remove_entry) (k.removed id entry s e h)
  ]

  pub remove_entries-keeps : (ids : List ℕ) (s : Store) → P s → P (remove_entries ids s)
  unfolding remove_entries
  remove_entries-keeps [] s h = h
  remove_entries-keeps (id ∷ ids) s h =
      remove_entries-keeps ids (remove_entry id s) (remove_entry-keeps id s h)

  release_entry-keeps :
      (id : ℕ) (e : LogEntry) (ds : List ℕ) (s : Store) → P s → P (release_entry id e ds s)
  unfolding release_entry
  release_entry-keeps id e [] s h = elim (Bool-cases (is_log e.retain)) [
    | inl l ↦ rw l h
    | inr m ↦ rw m (remove_entry-keeps id s h)
  ]
  release_entry-keeps id e (d ∷ ds) s h = h

  pub drop_found-keeps :
      (did id : ℕ) (e : LogEntry) (s : Store)
      → Map.get id s.entries ≡ some e
      → P s
      → P (drop_found did id e s)
  unfolding drop_found
  drop_found-keeps did id e s found h =
      release_entry-keeps id e (without did e.pending_for)
        (record s {
          entries = Map.set id (record e { pending_for = without did e.pending_for }) s.entries;
        })
        (k.released id did e s found h)

  pub drop_delivery-keeps : (did id : ℕ) (s : Store) → P s → P (drop_delivery did id s)
  unfolding drop_delivery
  drop_delivery-keeps did id s h = elim (Option-cases (Map.get id s.entries)) [
    | inl e ↦ rw (e, drop_delivery) (k.spliced id did s h)
    | inr (entry, e) ↦
        rw (e, drop_delivery)
          (drop_found-keeps did id entry
            (record s { deliveries = splice_delivery id did s.deliveries }) e
            (k.spliced id did s h))
  ]

  pub drop_deliveries-keeps :
      (did : ℕ) (ids : List ℕ) (s : Store) → P s → P (drop_deliveries did ids s)
  unfolding drop_deliveries
  drop_deliveries-keeps did [] s h = h
  drop_deliveries-keeps did (id ∷ ids) s h =
      drop_deliveries-keeps did ids (drop_delivery did id s) (drop_delivery-keeps did id s h)

  pub trim_depth-keeps : (excess topic : ℕ) (s : Store) → P s → P (trim_depth excess topic s)
  unfolding trim_depth
  trim_depth-keeps zero topic s h = h
  trim_depth-keeps (suc excess) topic s h =
      elim (Option-cases (find_log s.entries (log_ids topic s))) [
        | inl e ↦ rw (e, trim_depth) h
        | inr (oldest, e) ↦
            rw (e, trim_depth)
              (trim_depth-keeps excess topic (remove_entry oldest s)
                (remove_entry-keeps oldest s h))
      ]

  trim_ids-keeps : (before : ℕ) (ids : List ℕ) (s : Store) → P s → P (trim_ids before ids s)
  unfolding trim_ids
  trim_ids-keeps before [] s h = h
  trim_ids-keeps before (id ∷ ids) s h =
      elim (Bool-cases (ltb id before && is_log_id s.entries id)) [
        | inl e ↦ rw e (trim_ids-keeps before ids (remove_entry id s) (remove_entry-keeps id s h))
        | inr e ↦ rw e (trim_ids-keeps before ids s h)
      ]

  pub trim-keeps : (topic before : ℕ) (s : Store) → P s → P (trim topic before s)
  unfolding trim
  trim-keeps topic before s h = trim_ids-keeps before (log_ids topic s) s h

  pub ack-keeps : (did : ℕ) (ids : List ℕ) (s : Store) → P s → P (ack did ids s)
  unfolding ack
  ack-keeps did ids s h = drop_deliveries-keeps did ids s h

  pub purge-keeps : (older_than now : ℕ) (s : Store) → P s → P (purge older_than now s).1
  unfolding purge
  purge-keeps older_than now s h =
      remove_entries-keeps (purge_scan older_than now s [] s.entries) s h

  pub fetch-keeps : (p : FetchParams) (s : Store) → P s → P (fetch p s).1
  unfolding fetch
  fetch-keeps p s h = ground (arith, drop_deliveries-keeps p.recipient_did p.ack s h)

  pub drop_topic-keeps :
      (did topic : ℕ) (ids : List ℕ) (s : Store) → P s → P (drop_topic did topic ids s)
  unfolding drop_topic
  drop_topic-keeps did topic [] s h = h
  drop_topic-keeps did topic (id ∷ ids) s h =
      elim (Bool-cases (is_of_topic topic (Map.get id s.entries))) [
        | inl e ↦ rw e (
            drop_topic-keeps did topic ids (drop_delivery did id s)
              (drop_delivery-keeps did id s h))
        | inr e ↦ rw e (drop_topic-keeps did topic ids s h)
      ]

-- ===== src/HubServer/MemoryStore/Pages.antt =====
-- packages/hub-server/src/memoryStore.ts: what publish order gives the readers: `fetch` resumes
-- exactly past its cursor, an acknowledged delivery never comes back, and a topic's log is read in
-- order.
use kumiai.HubServer.MemoryStore.Induction.{ack-keeps}
use kumiai.HubServer.MemoryStore.Retention.{ack}
use kumiai.HubServer.MemoryStore.History.{run, Call}
use kumiai.HubServer.MemoryStore.Accounting.{log_of}
use kumiai.Shared.{
  zero, sym, suc, ℕ, ◌≤◌, ◌≡◌, refl, Option, none, some, List, [], ◌∷◌, ltb, arith, or_default,
  select, take, length,
}
use kumiai.Shared.Ascending.{Within}
use kumiai.Shared.Map
use kumiai.Shared.Map.{Map, get-set}
use kumiai.HubServer.MemoryStore.{Store, create_memory_store, MemoryStoreOptions}
use kumiai.HubServer.MemoryStore.Read.{
  serve_pending, page, drop_to, past_cursor, FetchParams, fetch, beyond, limited, messages_of,
}
use kumiai.HubServer.MemoryStore.Order.{InOrder, InOrder-KeptByCalls}
use kumiai.HubServer.MemoryStore.CallInduction.{run-keeps}

-- The store after the calls `cs`, from a new one.
abbrev pub reached : MemoryStoreOptions → List Call → Store
reached o cs = run (create_memory_store o) cs

pub reached-InOrder :
    (t d : ℕ) (o : MemoryStoreOptions) (cs : List Call) → InOrder t d (reached o cs)
reached-InOrder t d o cs = run-keeps (InOrder-KeptByCalls t d) _ cs (
    unfold create_memory_store in
    record {
      log_order = rw (Map.get-empty {V = List ℕ} t) tt;
      pending_order = rw (Map.get-empty {V = List ℕ} d) tt;
    })

select_above :
    (a lo n : ℕ) (ids : List ℕ) → a ≤ lo → Within lo n ids → select (λ id. ltb a id) ids ≡ ids
select_above a lo n [] h w = refl
select_above a lo n (x ∷ ids) h (p, q, w) = ground (arith, select_above a x n ids (omega arith) w)

drop_to-select :
    (a lo n : ℕ) (ids : List ℕ) → Within lo n ids → drop_to a ids ≡ select (λ id. ltb a id) ids
unfolding drop_to
drop_to-select a lo n [] w = refl
drop_to-select a lo n (x ∷ ids) (p, q, w) =
    ground (arith, drop_to-select a x n ids w, select_above a x n ids)

past_cursor-beyond :
    (after : Option ℕ) (n : ℕ) (ids : List ℕ)
    → Within 0 n ids
    → past_cursor after ids ≡ beyond after ids
unfolding past_cursor beyond
past_cursor-beyond none n ids w = refl
past_cursor-beyond (some a) n ids w = drop_to-select a 0 n ids w

take_all : (ids : List ℕ) → take (length ids) ids ≡ ids
take_all [] = refl
take_all (x ∷ ids) = rw (take_all ids)

take-limited :
    (limit : Option ℕ) (ids : List ℕ) → take (or_default limit (length ids)) ids ≡ limited limit ids
unfolding limited
take-limited none ids = take_all ids
take-limited (some n) ids = refl

page-messages :
    (p : FetchParams) (ids : List ℕ) (n : ℕ) (s : Store)
    → Within 0 n ids
    → (page p ids s).messages ≡ messages_of s.entries (limited p.limit (beyond p.after ids))
unfolding page
page-messages p ids n s w =
    rw (past_cursor-beyond p.after n ids w, take-limited p.limit (beyond p.after ids)) refl

nothing_paged :
    (after limit : Option ℕ) (s : Store)
    → messages_of s.entries (limited limit (beyond after [])) ≡ []
unfolding messages_of limited beyond
nothing_paged none none s = refl
nothing_paged none (some zero) s = refl
nothing_paged none (some (suc n)) s = refl
nothing_paged (some a) none s = refl
nothing_paged (some a) (some zero) s = refl
nothing_paged (some a) (some (suc n)) s = refl

pub serve_pending-messages :
    (p : FetchParams) (o : Option (List ℕ)) (n : ℕ) (s : Store)
    → Within 0 n (or_default o [])
    → (serve_pending p o s).messages
      ≡ messages_of s.entries (limited p.limit (beyond p.after (or_default o [])))
unfolding serve_pending
serve_pending-messages p none n s w = sym (nothing_paged p.after p.limit s)
serve_pending-messages p (some []) n s w = sym (nothing_paged p.after p.limit s)
serve_pending-messages p (some (id ∷ ids)) n s w = page-messages p (id ∷ ids) n s w

-- From any reachable state, `fetch` acknowledges what it is told to, and hands out exactly the
-- recipient's pending frames past the cursor, in publish order, up to the limit: the scan for the
-- first ID past the cursor agrees with filtering by it, also where the cursor's own frame is gone.
pub fetch_resumes :
    (o : MemoryStoreOptions) (cs : List Call) (p : FetchParams)
    → let s' = ack p.recipient_did p.ack (reached o cs) in
      ((fetch p (reached o cs)).1 ≡ s')
      × ((fetch p (reached o cs)).0.messages
          ≡ messages_of s'.entries
              (limited p.limit (beyond p.after (log_of p.recipient_did s'.deliveries))))
unfolding fetch ack
fetch_resumes o cs p = (
  refl,
  serve_pending-messages p _ _ _
      (ack-keeps (InOrder-KeptByCalls 0 p.recipient_did).kept p.recipient_did p.ack (reached o cs)
        (reached-InOrder 0 p.recipient_did o cs)).pending_order,
)

-- ===== src/Bridge/Queue/Leases.antt =====
-- Leases: who may finish an item, and what `claim` takes (durable-store.mjs).
use mathlib.Core.Option
use implement_data_space_pro.Prelude.{
  is_some, ℕ, ◌+◌, ◌≤◌, String, ◌≡◌, ◌≢◌, refl, ◌∙◌, Bool, true, false, ◌&&◌, not, List, [], ◌∷◌,
  arith, eq_iff, str_eq, ◌==◌, if◌then◌else◌, Option, none, some, all, any, length, length-take,
  length-map, all-filter, all-filter_self, all-sort_by, all-take, filter, sort_by, map,
}
use implement_data_space_pro.Prelude.Map.{
  distinct_keys-map_values, Map, lookup, modify, distinct_keys, lookup-modify, lookup-map_values,
}
use implement_data_space_pro.Bridge.Queue.{
  is_leased, same_owner, RuntimeState, QueueItem, Failure, leased, err, lease_mismatch, is_ready,
  is_due, claimed_before, recover_expired_leases, recover_item, claim, lease_item, lease_all,
  due_items, ack, nack, renew_lease, expired,
}

abbrev ends_at : Option ℕ → ℕ → Bool
ends_at none t = false
ends_at (some u) t = u == t

module _ {D : Type 0} where
  -- The item is leased to the owner, and the lease has not run out.
  pub record IsHeld (item : QueueItem D) (owner : String) (now : ℕ) : Type 0 where
    pub status : item.status ≡ leased
    pub owner_is : item.lease_owner ≡ some owner
    pub live : expired item.lease_until now ≡ false

  abbrev pub leased_to : String → ℕ → QueueItem D → Bool
  leased_to owner until item =
      is_leased item.status && same_owner item.lease_owner owner && ends_at item.lease_until until

  abbrev key_is : String → String × QueueItem D → Bool
  key_is k (j, _) = str_eq j k

  -- Not an entry under this key that could be claimed.
  abbrev unclaimable : String → String × QueueItem D → Bool
  unclaimable k (j, item) = not (str_eq j k && is_ready item.status)

  all-unclaimable-none :
      (k : String) (m : Map (QueueItem D)) → lookup k m ≡ none → all (unclaimable k) m ≡ true
  unfolding lookup
  all-unclaimable-none k [] h = refl
  all-unclaimable-none k ((j, item) ∷ m) h = ground (arith, all-unclaimable-none k m)

  all-unclaimable :
      (k : String) (m : Map (QueueItem D)) {item : QueueItem D}
      → distinct_keys m ≡ true
      → lookup k m ≡ some item
      → is_ready item.status ≡ false
      → all (unclaimable k) m ≡ true
  unfolding lookup distinct_keys
  all-unclaimable k [] d e h = refl
  all-unclaimable k ((j, w) ∷ m) {item} d e h =
      ground (arith, eq_iff j k, all-unclaimable-none k m, all-unclaimable k m {item = item})

  none_named :
      (k : String) (now : ℕ) (due : List (String × QueueItem D))
      → all (unclaimable k) due ≡ true
      → all (is_due now) due ≡ true
      → any (key_is k) due ≡ false
  none_named k now [] u d = refl
  none_named k now ((j, item) ∷ due) u d = ground (arith, none_named k now due)

  lookup-lease_all :
      (owner : String) (until : ℕ) (due : List (String × QueueItem D)) (queue : Map (QueueItem D))
      (k : String)
      → lookup k (lease_all owner until due queue) ≡ (
          if any (key_is k) due
          then Option.map (lease_item owner until) (lookup k queue)
          else lookup k queue)
  unfolding lease_all lease_item
  lookup-lease_all owner until [] queue k = refl
  lookup-lease_all owner until ((j, item) ∷ due) queue k = ground (
    arith,
    lookup-lease_all owner until due (modify j (lease_item owner until) queue) k,
    lookup-modify j k (lease_item owner until) queue,
  )

  pub due_items-due :
      (locale_before : String → String → Bool) (limit now : ℕ) (queue : Map (QueueItem D))
      → all (is_due now) (due_items locale_before limit now queue) ≡ true
  unfolding due_items
  due_items-due locale_before limit now queue =
      all-take limit (is_due now)
        (sort_by (claimed_before locale_before) (filter (is_due now) queue))
        (all-sort_by (claimed_before locale_before) (is_due now) (filter (is_due now) queue)
          ∙ all-filter_self (is_due now) queue)

  due_items-all :
      (locale_before : String → String → Bool) (limit now : ℕ) (p : String × QueueItem D → Bool)
      (queue : Map (QueueItem D))
      → all p queue ≡ true
      → all p (due_items locale_before limit now queue) ≡ true
  unfolding due_items
  due_items-all locale_before limit now p queue h =
      all-take limit p (sort_by (claimed_before locale_before) (filter (is_due now) queue)) (
        all-sort_by (claimed_before locale_before) p (filter (is_due now) queue)
        ∙ all-filter (is_due now) p queue h)

  -- What `claim` leaves under a key: the recovered item, leased if it was selected.
  lookup-claim :
      (locale_before : String → String → Bool) (state : RuntimeState D) (owner : String)
      (limit lease_ms now : ℕ) (k : String)
      → let q = (recover_expired_leases state now).1.queue in
        lookup k (claim locale_before state owner limit lease_ms now).1.queue ≡ (
          if any (key_is k) (due_items locale_before limit now q)
          then Option.map (lease_item owner (now + lease_ms)) (lookup k q)
          else lookup k q)
  lookup-claim locale_before state owner limit lease_ms now k =
      let q = (recover_expired_leases state now).1.queue in
      unfold claim in
      lookup-lease_all owner (now + lease_ms) (due_items locale_before limit now q) q k

  -- A claim adds and removes no key.
  pub lookup-claim_some :
      (locale_before : String → String → Bool) (state : RuntimeState D) (owner : String)
      (limit lease_ms now : ℕ) (k : String)
      → is_some (lookup k (claim locale_before state owner limit lease_ms now).1.queue)
        ≡ is_some (lookup k state.queue)
  lookup-claim_some locale_before state owner limit lease_ms now k =
      rw (lookup-claim locale_before state owner limit lease_ms now k) (
        unfold recover_expired_leases in
        ground (arith, lookup-map_values (recover_item now) k state.queue))

  -- Recovery leaves an item alone whose lease still runs.
  lookup-recover_held :
      (state : RuntimeState D) (now : ℕ) (k owner : String) (item : QueueItem D)
      → lookup k state.queue ≡ some item
      → IsHeld item owner now
      → lookup k (recover_expired_leases state now).1.queue ≡ some item
  unfolding recover_expired_leases
  lookup-recover_held state now k owner item e h =
      ground (arith, lookup-map_values (recover_item now) k state.queue)

  distinct_keys-recover :
      (state : RuntimeState D) (now : ℕ)
      → distinct_keys state.queue ≡ true
      → distinct_keys (recover_expired_leases state now).1.queue ≡ true
  distinct_keys-recover state now h =
      unfold recover_expired_leases in distinct_keys-map_values (recover_item now) state.queue h

  -- While a lease runs, no claim takes the item, whoever claims and however much, in a queue of
  -- distinct keys.
  pub claim-IsHeld :
      (locale_before : String → String → Bool) (state : RuntimeState D) (claimant : String)
      (limit lease_ms now : ℕ) (k owner : String) (item : QueueItem D)
      → distinct_keys state.queue ≡ true
      → lookup k state.queue ≡ some item
      → IsHeld item owner now
      → lookup k (claim locale_before state claimant limit lease_ms now).1.queue ≡ some item
  claim-IsHeld locale_before state claimant limit lease_ms now k owner item d e h =
      let q = (recover_expired_leases state now).1.queue in
      let kept = lookup-recover_held state now k owner item e h in
      let blocked =
        all-unclaimable k q (distinct_keys-recover state now d) kept (ground (arith, h.status)) in
      rw
        (
          lookup-claim locale_before state claimant limit lease_ms now k,
          none_named k now (due_items locale_before limit now q)
              (due_items-all locale_before limit now (unclaimable k) q blocked)
              (due_items-due locale_before limit now q),
        )
        kept

  -- Only the holder of the lease may acknowledge, reject or renew; all else is LEASE_MISMATCH.
  pub finish-needs-lease :
      (state : RuntimeState D) (k owner other : String) (item : QueueItem D) (result : D)
      (error : Failure) (n m t : ℕ)
      → lookup k state.queue ≡ some item
      → item.lease_owner ≡ some owner
      → owner ≢ other
      → (ack state k other result t ≡ err lease_mismatch)
        × (nack state k other error n m t ≡ err lease_mismatch)
        × (renew_lease state k other n t ≡ err lease_mismatch)
  unfolding ack nack renew_lease
  finish-needs-lease state k owner other item result error n m t e o h =
      ground (arith, eq_iff owner other)

  all_leased :
      (owner : String) (until : ℕ) (due : List (String × QueueItem D))
      → all (leased_to owner until) (map (λ (_, item). lease_item owner until item) due) ≡ true
  unfolding lease_item
  all_leased owner until [] = refl
  all_leased owner until ((k, item) ∷ due) =
      ground (arith, eq_iff owner owner, all_leased owner until due)

  -- A claim returns at most `limit` items, each leased to the claimant until now + lease_ms.
  pub claim_returns :
      (locale_before : String → String → Bool) (state : RuntimeState D) (owner : String)
      (limit lease_ms now : ℕ)
      → let items = (claim locale_before state owner limit lease_ms now).0 in
        (length items ≤ limit) × (all (leased_to owner (now + lease_ms)) items ≡ true)
  claim_returns locale_before state owner limit lease_ms now =
      let q = (recover_expired_leases state now).1.queue in
      let due = due_items locale_before limit now q in
      let first : length due ≤ limit =
        unfold due_items in
        omega (
          arith,
          length-take limit (sort_by (claimed_before locale_before) (filter (is_due now) q)),
        ) in
      (unfold claim in rw length-map first, unfold claim in all_leased owner (now + lease_ms) due)

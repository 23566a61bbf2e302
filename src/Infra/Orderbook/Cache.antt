-- ===== src/Infra/Orderbook/Cache.antt =====
-- The order cache (crates/byos/src/infra/orderbook.rs).
use byos_service.Prelude.{
  ◌⊎◌, ◌≤◌, ◌<◌, ◌≡◌, refl, inl, inr, Option-cases, Result-cases, some, ok, [], length, arith,
  Result, none, err,
}
use byos_service.Prelude.Maps.{get_key, put, get_key-put_keeps, length-put-le, length-put_known}
use byos_service.Domain.Proposal.{OrderUid}
use byos_service.Domain.Order.{OrderRecord}
use byos_service.Infra.Orderbook.{
  OrderbookError, OrderDto, into_record, Http, Client, remember, read_response, order,
}

module _ {N : Type 0} (http : Http N) (placed : OrderUid → OrderDto → Type 0) where
  -- The orderbook serves the orders that were placed.
  abbrev pub Serves : Type 0
  Serves =
      (uid : OrderUid) (net : N) (dto : OrderDto)
      → read_response http.status_text (http.get_order uid net).0 ≡ ok dto
      → placed uid dto

  -- `r` is an order that was placed under `uid`.
  abbrev pub IsPlaced : OrderUid → OrderRecord → Type 0
  IsPlaced uid r = (dto : OrderDto) × placed uid dto × (r ≡ into_record dto)

  -- An order that is answered is one that was placed under `uid`.
  abbrev pub AnswersPlaced : OrderUid → Result OrderbookError OrderRecord → Type 0
  AnswersPlaced uid (ok r) = IsPlaced uid r
  AnswersPlaced uid (err e) = Unit {0}

  pub record CacheInv (client : Client N) : Type 0 where
    pub within : length client.cache ≤ client.capacity
    pub entries :
        (uid : OrderUid) (r : OrderRecord) → get_key uid client.cache ≡ some r → IsPlaced uid r

  remember-within :
      (uid : OrderUid) (r : OrderRecord) (client : Client N)
      → 0 < client.capacity
      → length client.cache ≤ client.capacity
      → length (remember uid r client).cache ≤ client.capacity
  unfolding remember
  remember-within uid r client pos w = elim (Option-cases (get_key uid client.cache)) [
    | inl fresh ↦ ground (arith, length-put-le uid r client.cache, length-put-le uid r [])
    | inr (old, known) ↦ ground (arith, length-put_known uid r old client.cache known)
  ]

  remember_cache :
      (uid : OrderUid) (r : OrderRecord) (client : Client N)
      → ((remember uid r client).cache ≡ put uid r client.cache)
        ⊎ ((remember uid r client).cache ≡ put uid r [])
  unfolding remember
  remember_cache uid r client = ground arith

  none_found : (k : OrderUid) (s : OrderRecord) → get_key k [] ≡ some s → ⊥
  unfolding get_key
  none_found k s h = cc

  remember_capacity :
      (uid : OrderUid) (r : OrderRecord) (client : Client N)
      → (remember uid r client).capacity ≡ client.capacity
  unfolding remember
  remember_capacity uid r client = refl

  remember-entries :
      (uid : OrderUid) (r : OrderRecord) (client : Client N)
      → IsPlaced uid r
      → ((k : OrderUid) (s : OrderRecord) → get_key k client.cache ≡ some s → IsPlaced k s)
      → (k : OrderUid) (s : OrderRecord) → get_key k (remember uid r client).cache ≡ some s
      → IsPlaced k s
  unfolding remember
  remember-entries uid r client new old k s h = elim (remember_cache uid r client) [
    | inl e ↦ get_key-put_keeps IsPlaced uid r client.cache new old k s (rw e at h)
    | inr e ↦
        get_key-put_keeps IsPlaced uid r [] new (λ j w q. absurd (none_found j w q)) k s (rw e at h)
  ]

  -- If the orderbook serves only orders that were placed, the order cache stays within its
  -- positive capacity and holds only placed orders after a lookup, the lookup answers only with
  -- the placed order, and a cached order is answered without a request.
  pub order-CacheInv :
      (uid : OrderUid) (client : Client N)
      → Serves
      → 0 < client.capacity
      → CacheInv client
      → CacheInv (order http uid client).1
        × AnswersPlaced uid (order http uid client).0
        × ((get_key uid client.cache ≡ none)
            ⊎ ((r : OrderRecord) × (order http uid client ≡ (ok r, client))))
  unfolding order
  order-CacheInv uid client serves pos inv = elim (Option-cases (get_key uid client.cache)) [
    | inr (r, known) ↦ rw (known, order) (inv, inv.entries uid r known, inr (r, refl))
    | inl fresh ↦
        elim (Result-cases (read_response http.status_text (http.get_order uid client.net).0)) [
          | inr (e, q) ↦
              rw (fresh, q, order)
                (record { within = inv.within; entries = inv.entries }, tt, inl refl)
          | inl (dto, q) ↦
              let asked : Client N = record client { net = (http.get_order uid client.net).1 } in
              let new : IsPlaced uid (into_record dto) = (dto, serves uid client.net dto q, refl) in
              rw (fresh, q, order)
                (
                  record {
                    within = omega (
                      arith,
                      remember-within uid (into_record dto) asked pos inv.within,
                      remember_capacity uid (into_record dto) asked,
                    );
                    entries = remember-entries uid (into_record dto) asked new inv.entries;
                  },
                  new,
                  inl refl,
                )
        ]
  ]

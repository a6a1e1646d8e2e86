-- ===== src/Orders/Cancel/Sweep.antt =====
-- What the sweep over stale orders does to each order.
use naicha_backend.Database.{Db}
use naicha_backend.Models.Rows.{Order}
use naicha_backend.Orders.Access.{get_order}
use naicha_backend.Orders.Cancel.{
  cancel_each, cancel_pending_order, cancel_stale_pending_orders, is_cancellable, stale_orders,
}
use naicha_backend.Orders.Cancel.Effect.{
  cancel_pending_order-absent, cancel_pending_order-no, cancel_pending_order-restores,
  cancelled_row, cancelled_row_final,
}
use naicha_backend.Prelude.{
  ==_iff, All, All-sort_by, Bool-cases, List, Option-cases, String, [], arith, contains, false, inl,
  inr, leb, length, length-take_le, map, refl, select, some, subst, suc, sym, take, true, zero, ℕ,
  ◌&&◌, ◌==◌, ◌∙◌, ◌∷◌, ◌≡◌, ◌≤◌, ◌⊎◌,
}

-- The order was pending in both columns and is cancelled.
abbrev pub WasCancelled : ℕ → Db → Db → ℕ → Type 0
WasCancelled now db db' j =
    (o : Order) × (get_order db j ≡ some o)
    × (is_cancellable o ≡ true)
    × (get_order db' j ≡ some (cancelled_row now o))

-- The order is as it was, or it was cancelled.
abbrev Fate : ℕ → Db → Db → ℕ → Type 0
Fate now db db' j = (get_order db' j ≡ get_order db j) ⊎ WasCancelled now db db' j

cancel_pending_order-Fate :
    (now : ℕ) (reason : String) (id j : ℕ) (db : Db)
    → let (success, db') = cancel_pending_order now reason id db in
      Fate now db db' j × (success ≡ true → WasCancelled now db db' id)
cancel_pending_order-Fate now reason id j db = elim (Option-cases (get_order db id)) [
  | inl absent ↦
      rw (cancel_pending_order-absent now reason id db absent)
        (inl refl, λ h. absurd (ground arith))
  | inr (o, found) ↦ elim (Bool-cases (is_cancellable o)) [
    | inr other ↦
        rw (cancel_pending_order-no now reason id db o found other)
          (inl refl, λ h. absurd (ground arith))
    | inl pending ↦
        (let (success, rows, _, _) =
            cancel_pending_order-restores now reason id db o found pending in
          let here : WasCancelled now db (cancel_pending_order now reason id db).1 id =
            (o, found, pending, ground (arith, rows id)) in
          (
            elim (Bool-cases (id == j)) [
              | inl same ↦ inr (
                  subst (WasCancelled now db (cancel_pending_order now reason id db).1)
                    ((==_iff id j).0 same) here)
              | inr different ↦ inl (ground (arith, rows j, different))
            ],
            λ h. here,
          ))
  ]
]

then_Fate : (now j : ℕ) (a b c : Db) → Fate now a b j → Fate now b c j → Fate now a c j
then_Fate now j a b c (inl h) (inl k) = inl (k ∙ h)
then_Fate now j a b c (inl h) (inr (o, found, pending, after)) =
    inr (o, sym h ∙ found, pending, after)
then_Fate now j a b c (inr (o, found, pending, mid)) (inl k) = inr (o, found, pending, k ∙ mid)
then_Fate now j a b c (inr (o, found, pending, mid)) (inr (p, found', pending', after)) =
    absurd (ground (arith, mid, found', pending', cancelled_row_final now o))

cancelled_then :
    (now j : ℕ) (a b c : Db) → WasCancelled now a b j → Fate now b c j → WasCancelled now a c j
cancelled_then now j a b c (o, found, pending, mid) (inl k) = (o, found, pending, k ∙ mid)
cancelled_then now j a b c (o, found, pending, mid) (inr (p, found', pending', after)) =
    absurd (ground (arith, mid, found', pending', cancelled_row_final now o))

then_cancelled :
    (now j : ℕ) (a b c : Db) → Fate now a b j → WasCancelled now b c j → WasCancelled now a c j
then_cancelled now j a b c (inl h) (o, found, pending, after) = (o, sym h ∙ found, pending, after)
then_cancelled now j a b c (inr (o, found, pending, mid)) (p, found', pending', after) =
    absurd (ground (arith, mid, found', pending', cancelled_row_final now o))

cancel_each-Fate :
    (now : ℕ) (reason : String) (ids : List ℕ) (j : ℕ) (db : Db)
    → let (cancelled, db') = cancel_each now reason ids db in
      Fate now db db' j
      × (contains j cancelled ≡ true → WasCancelled now db db' j)
      × (length cancelled ≤ length ids)
unfolding cancel_each
cancel_each-Fate now reason [] j db = (inl refl, λ h. absurd (ground arith), omega arith)
cancel_each-Fate now reason (id ∷ ids) j db =
    let (success, mid) = cancel_pending_order now reason id db in
    let after = (cancel_each now reason ids mid).1 in
    let (first, mine) = cancel_pending_order-Fate now reason id j db in
    let (rest, theirs, few) = cancel_each-Fate now reason ids j mid in
    (
      then_Fate now j db mid after first rest,
      λ named. elim (Bool-cases (success && j == id)) [
        | inl here ↦
            (let j_is : id ≡ j = sym ((==_iff j id).0 (ground (arith, here))) in
              let began : WasCancelled now db mid j =
                subst (WasCancelled now db mid) j_is (mine (ground (arith, here))) in
              cancelled_then now j db mid after began rest)
        | inr there ↦
            then_cancelled now j db mid after first (theirs (ground (arith, named, there)))
      ],
      ground (arith, few),
    )

stale_orders_few :
    (cutoff limit : ℕ) (os : List Order) → length (stale_orders cutoff limit os) ≤ limit
unfolding stale_orders
stale_orders_few cutoff limit os = length-take_le limit _

-- The order is there, pending in both columns, and not younger than the cutoff.
abbrev pub IsStale : ℕ → Db → ℕ → Type 0
IsStale cutoff db j =
    (o : Order) × (get_order db j ≡ some o) × (is_cancellable o ≡ true) × (o.created_at ≤ cutoff)

-- The ids are a key of the table.
abbrev pub IsKeyed : Db → Type 0
IsKeyed db = All (λ (o : Order). get_order db o.order_id ≡ some o) db.orders

All-take_ids :
    (P : ℕ → Type 0) (n : ℕ) (os : List Order)
    → All (λ (o : Order). P o.order_id) os
    → All P (take n (map (λ (o : Order). o.order_id) os))
All-take_ids P zero os h = tt
All-take_ids P (suc n) [] h = tt
All-take_ids P (suc n) (o ∷ os) h = (h.0, All-take_ids P n os h.1)

select-IsStale :
    (cutoff : ℕ) (db : Db) (os : List Order)
    → All (λ (o : Order). get_order db o.order_id ≡ some o) os
    → All
        (λ (o : Order). IsStale cutoff db o.order_id)
        (select (λ (o : Order). is_cancellable o && leb o.created_at cutoff) os)
select-IsStale cutoff db [] h = tt
select-IsStale cutoff db (o ∷ os) h =
    elim (Bool-cases (is_cancellable o && leb o.created_at cutoff)) [
      | inr fresh ↦ rw fresh (select-IsStale cutoff db os h.1)
      | inl stale ↦
          rw stale (
            (o, h.0, ground (arith, stale), ground (arith, stale)),
            select-IsStale cutoff db os h.1,
          )
    ]

stale_orders-IsStale :
    (cutoff limit : ℕ) (db : Db)
    → IsKeyed db
    → All (IsStale cutoff db) (stale_orders cutoff limit db.orders)
unfolding stale_orders
stale_orders-IsStale cutoff limit db keyed = All-take_ids (IsStale cutoff db) limit _ (
    All-sort_by (λ (o : Order). IsStale cutoff db o.order_id) (λ (o : Order). o.created_at)
      (select (λ (o : Order). is_cancellable o && leb o.created_at cutoff) db.orders)
      (select-IsStale cutoff db db.orders keyed))

All-cancel_each :
    (P : ℕ → Type 0) (now : ℕ) (reason : String) (ids : List ℕ) (db : Db)
    → All P ids
    → All P (cancel_each now reason ids db).0
unfolding cancel_each
All-cancel_each P now reason [] db h = tt
All-cancel_each P now reason (id ∷ ids) db h =
    let (success, mid) = cancel_pending_order now reason id db in
    let rest = All-cancel_each P now reason ids mid h.1 in
    elim (Bool-cases success) [ inl yes_ ↦ rw yes_ (h.0, rest) | inr no_ ↦ rw no_ rest ]

-- A call that names another order, or that does not succeed, leaves the order as it is.
cancel_pending_order-other :
    (now : ℕ) (reason : String) (id j : ℕ) (db : Db)
    → let (success, db') = cancel_pending_order now reason id db in
      (success && j == id) ≡ false → get_order db' j ≡ get_order db j
cancel_pending_order-other now reason id j db = elim (Option-cases (get_order db id)) [
  | inl absent ↦ rw (cancel_pending_order-absent now reason id db absent) (λ h. refl)
  | inr (o, found) ↦ elim (Bool-cases (is_cancellable o)) [
    | inr other ↦ rw (cancel_pending_order-no now reason id db o found other) (λ h. refl)
    | inl pending ↦
        (let (success, rows, _, _) =
            cancel_pending_order-restores now reason id db o found pending in
          λ h. ground (arith, rows j, h, success))
  ]
]

cancel_each-other :
    (now : ℕ) (reason : String) (ids : List ℕ) (j : ℕ) (db : Db)
    → let (cancelled, db') = cancel_each now reason ids db in
      contains j cancelled ≡ false → get_order db' j ≡ get_order db j
unfolding cancel_each
cancel_each-other now reason [] j db h = refl
cancel_each-other now reason (id ∷ ids) j db h =
    let (success, mid) = cancel_pending_order now reason id db in
    cancel_each-other now reason ids j mid (ground (arith, h))
    ∙ cancel_pending_order-other now reason id j db (ground (arith, h))

-- Members of a list, by the test.
All-contains :
    {P Q : ℕ → Type 0}
    → (xs ys : List ℕ) → ((j : ℕ) → contains j ys ≡ true → P j → Q j)
    → ((j : ℕ) → contains j xs ≡ true → contains j ys ≡ true)
    → All P xs
    → All Q xs
All-contains [] ys step there h = tt
All-contains {P = P} {Q = Q} (x ∷ xs) ys step there h = (
  step x (there x (ground arith)) h.0,
  All-contains {P = P} {Q = Q} xs ys step (λ j k. there j (ground (arith, k))) h.1,
)

-- Where the ids are a key of the table: a sweep over the stale orders cancels at most as many orders
-- as its limit, which are just those it names. Each was pending in both columns and created at the
-- cutoff or before, and is cancelled; every order that it does not name is as it was.
pub cancel_stale_pending_orders-named :
    (now cutoff limit : ℕ) (reason : String) (db : Db)
    → IsKeyed db
    → let (ids, db') = cancel_stale_pending_orders now cutoff limit reason db in
      (length ids ≤ limit)
      × All
          (λ j.
            (o : Order) × (get_order db j ≡ some o)
            × (is_cancellable o ≡ true)
            × (o.created_at ≤ cutoff)
            × (get_order db' j ≡ some (cancelled_row now o)))
          ids
      × ((j : ℕ) → contains j ids ≡ false → get_order db' j ≡ get_order db j)
unfolding cancel_stale_pending_orders
cancel_stale_pending_orders-named now cutoff limit reason db keyed =
    let ids = stale_orders cutoff limit db.orders in
    let (named, db') = cancel_each now reason ids db in
    let few = (cancel_each-Fate now reason ids 0 db).2 in
    let Q = λ (j : ℕ).
      (o : Order) × (get_order db j ≡ some o)
      × (is_cancellable o ≡ true)
      × (o.created_at ≤ cutoff)
      × (get_order db' j ≡ some (cancelled_row now o)) in
    (
      omega (arith, few, stale_orders_few cutoff limit db.orders),
      All-contains {P = IsStale cutoff db} {Q = Q} named named
          (λ j there stale.
            let (o, found, pending, old) = stale in
            let (o', found', _, after) = (cancel_each-Fate now reason ids j db).1 there in
            (o, found, pending, old, ground (arith, found, found', after)))
          (λ j there. there)
          (All-cancel_each (IsStale cutoff db) now reason ids db
            (stale_orders-IsStale cutoff limit db keyed)),
      λ j other. cancel_each-other now reason ids j db other,
    )

-- An order that is not pending in both columns is as it was after a sweep over the stale orders.
pub cancel_stale_pending_orders-keeps :
    (now cutoff limit : ℕ) (reason : String) (db : Db) (j : ℕ) (o : Order)
    → get_order db j ≡ some o
    → is_cancellable o ≡ false
    → get_order (cancel_stale_pending_orders now cutoff limit reason db).1 j ≡ some o
unfolding cancel_stale_pending_orders
cancel_stale_pending_orders-keeps now cutoff limit reason db j o found other =
    elim (cancel_each-Fate now reason (stale_orders cutoff limit db.orders) j db).0 [
      | inl same ↦ same ∙ found
      | inr (p, found', pending, after) ↦ absurd (ground (arith, found, found', pending, other))
    ]

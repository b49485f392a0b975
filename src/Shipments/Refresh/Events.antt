-- ===== src/Shipments/Refresh/Events.antt =====
-- The event timeline: polling again with the same answer adds nothing, and no event of the carrier
-- is lost.
use feature_asset_inventory.Base.{
  ℕ, ◌≡◌, refl, sym, ◌∙◌, inl, inr, Bool, true, false, ◌&&◌, ◌||◌, List, [], ◌∷◌, ◌++◌, map, arith,
  ◌==◌, any, select, ==-refl, eq_iff, Bool-cases, Option-cases,
}
use mathlib.Core.Path.{subst}
use feature_asset_inventory.Store.Table.{Database}
use feature_asset_inventory.Store.Rows.{ShipmentEvent, shipment_event_row}
use feature_asset_inventory.Tracking.{TrackingEvent}
use feature_asset_inventory.Shipments.Refresh.{
  EventKey, same_key, key_of, stored_key, event_row, add_events, record_events,
}

-- The event is among those of the shipment that are stored.
abbrev pub is_stored : ℕ → List ShipmentEvent → TrackingEvent → Bool
is_stored k table e =
    any (same_key (key_of e)) (map stored_key (select (λ x. x.shipment_id == k) table))

abbrev pub All {ℓ κ} : {A : Type ℓ} → (A → Type κ) → List A → Type κ
All P [] = Unit
All P (x ∷ xs) = P x × All P xs

same_key_refl : (k : EventKey) → same_key k k ≡ true
same_key_refl k = elim (Option-cases k.description) [
  | inl e ↦ ground arith
  | inr (t, e) ↦ ground (arith, eq_iff t t)
]

is_stored-append :
    (k : ℕ) (table : List ShipmentEvent) (row : ShipmentEvent) (e : TrackingEvent)
    → is_stored k (table ++ row ∷ []) e
      ≡ (is_stored k table e || (row.shipment_id == k && same_key (key_of e) (stored_key row)))
unfolding any select
is_stored-append k [] row e = ground arith
is_stored-append k (x ∷ table) row e = elim (Bool-cases (x.shipment_id == k)) [
  | inl t ↦ rw (t, is_stored-append k table row e) (ground arith)
  | inr f ↦ rw (f, is_stored-append k table row e) refl
]

module _ (d : Database) (k : ℕ) where
  module _ (keys : List EventKey) (e : TrackingEvent) (es : List TrackingEvent)
      (table : List ShipmentEvent) where
    add_events-seen :
        any (same_key (key_of e)) keys ≡ true
        → add_events d k keys (e ∷ es) table ≡ add_events d k keys es table
    unfolding add_events
    add_events-seen seen = rw seen

    add_events-new :
        any (same_key (key_of e)) keys ≡ false
        → add_events d k keys (e ∷ es) table
          ≡ add_events d k (key_of e ∷ keys) es (table ++ event_row d k table e ∷ [])
    unfolding add_events
    add_events-new new = rw new

  add_events-keeps :
      (keys : List EventKey) (es : List TrackingEvent) (table : List ShipmentEvent)
      (x : TrackingEvent)
      → is_stored k table x ≡ true
      → is_stored k (add_events d k keys es table) x ≡ true
  unfolding add_events
  add_events-keeps keys [] table x h = h
  add_events-keeps keys (e ∷ es) table x h = elim (Bool-cases (any (same_key (key_of e)) keys)) [
    | inl seen ↦ rw seen (add_events-keeps keys es table x h)
    | inr new ↦ rw new (
        add_events-keeps (key_of e ∷ keys) es (table ++ event_row d k table e ∷ []) x
          (rw (is_stored-append k table (event_row d k table e) x, h)))
  ]

  -- `keys` are the keys of the stored events.
  abbrev Follows : List EventKey → List ShipmentEvent → Type 0
  Follows keys table = (e : TrackingEvent) → any (same_key (key_of e)) keys ≡ is_stored k table e

  Follows-new :
      (keys : List EventKey) (e : TrackingEvent) (table : List ShipmentEvent)
      → Follows keys table
      → Follows (key_of e ∷ keys) (table ++ event_row d k table e ∷ [])
  unfolding any
  Follows-new keys e table f x =
      rw (is_stored-append k table (event_row d k table e) x) (ground (arith, f x, ==-refl k))

  add_events-All :
      (keys : List EventKey) (es : List TrackingEvent) (table : List ShipmentEvent)
      → Follows keys table
      → All (λ e. is_stored k (add_events d k keys es table) e ≡ true) es
  add_events-All keys [] table f = tt
  add_events-All keys (e ∷ es) table f = elim (Bool-cases (any (same_key (key_of e)) keys)) [
    | inl seen ↦
        subst (λ t. All (λ x. is_stored k t x ≡ true) (e ∷ es))
          (sym (add_events-seen keys e es table seen))
          (add_events-keeps keys es table e (sym (f e) ∙ seen), add_events-All keys es table f)
    | inr new ↦
        let grown : List ShipmentEvent = table ++ event_row d k table e ∷ [] in
        subst (λ t. All (λ x. is_stored k t x ≡ true) (e ∷ es))
          (sym (add_events-new keys e es table new))
          (
            add_events-keeps (key_of e ∷ keys) es grown e (
                rw (is_stored-append k table (event_row d k table e) e)
                  (ground (arith, ==-refl k, same_key_refl (key_of e)))),
            add_events-All (key_of e ∷ keys) es grown (Follows-new keys e table f),
          )
  ]

  add_events-nothing :
      (keys : List EventKey) (es : List TrackingEvent) (table : List ShipmentEvent)
      → All (λ e. any (same_key (key_of e)) keys ≡ true) es
      → add_events d k keys es table ≡ table
  unfolding add_events
  add_events-nothing keys [] table h = refl
  add_events-nothing keys (e ∷ es) table (seen, h) = rw seen (add_events-nothing keys es table h)

  -- No event of the carrier is lost: once they are recorded, each of them is among the shipment's
  -- stored events, by its time, status and description.
  pub record_events-All :
      (es : List TrackingEvent) (table : List ShipmentEvent)
      → All (λ e. is_stored k (record_events d k es table) e ≡ true) es
  unfolding record_events
  record_events-All es table = add_events-All _ es table (λ e. refl)

  -- Recording the same events again leaves the table of events as it is.
  pub record_events_twice :
      (es : List TrackingEvent) (table : List ShipmentEvent)
      → record_events d k es (record_events d k es table) ≡ record_events d k es table
  unfolding record_events
  record_events_twice es table =
      add_events-nothing _ es (record_events d k es table) (record_events-All es table)

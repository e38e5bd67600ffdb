-- ===== src/Settlement/Roots.antt =====
-- rust/oclob-settlement/src/lib.rs: `ReservationBook::root`.
use oclob.Base.{ℕ, List, [], ◌∷◌, ◌++◌, BTreeMap, values, be_bytes}
use oclob.Crypto.{Primitives, Digest32, codes}
use oclob.Order.{put_bytes}
use oclob.Settlement.{
  ReservationRecord, ReservationBook, reservation_kind_tag, time_in_force_tag,
  reservation_status_tag,
}

capacity_bytes : BTreeMap ℕ → List ℕ
capacity_bytes [] = []
capacity_bytes ((key, capacity) ∷ rest) =
    be_bytes 33 key ++ (be_bytes 8 capacity ++ capacity_bytes rest)

binding_bytes : BTreeMap Digest32 → List ℕ
binding_bytes [] = []
binding_bytes ((participant, entity) ∷ rest) =
    be_bytes 32 participant ++ (be_bytes 32 entity ++ binding_bytes rest)

record_bytes : List ReservationRecord → List ℕ
record_bytes [] = []
record_bytes (r ∷ rest) =
    be_bytes 32 r.reservation_id
    ++ (be_bytes 32 r.order_commitment
        ++ (be_bytes 32 r.participant_handle
            ++ (be_bytes 32 r.entity_nullifier
                ++ (put_bytes r.market_id
                    ++ (be_bytes 1 (reservation_kind_tag r.kind)
                        ++ (be_bytes 8 r.limit_price
                            ++ (be_bytes 1 (time_in_force_tag r.time_in_force)
                                ++ (be_bytes 8 r.original_quantity
                                    ++ (be_bytes 8 r.remaining_quantity
                                        ++ (be_bytes 8 r.max_fee
                                            ++ (be_bytes 8 r.expires_at
                                                ++ (be_bytes 8 r.reserved
                                                    ++ (be_bytes 8 r.remaining
                                                        ++ (be_bytes 32 r.reserve_commitment
                                                            ++ (be_bytes 1
                                                            (reservation_status_tag r.status)
                                                            ++ record_bytes rest)))))))))))))))

-- `ReservationBook::root`
unfoldable pub reservation_root : Primitives → ReservationBook → Digest32
unfolding capacity_bytes binding_bytes record_bytes
reservation_root p book = p.sha256 (
    codes "OCLOB:DEFMI-RESERVATIONS:v3"
    ++ (capacity_bytes book.capacities
        ++ (binding_bytes book.participant_entities ++ record_bytes (values book.records))))

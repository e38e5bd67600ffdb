-- ===== src/Settlement/Released.antt =====
-- What the release of an order gives back.
use oclob.Base.{◌+◌, ◌≡◌, true, some, ok, get}
use oclob.Crypto.{Digest32}
use oclob.Settlement.{
  ReservationKind, ReservationStatus, ReservationRecord, ReservationBook, is_active,
}
use oclob.Settlement.Fills.{find_reservation}
use oclob.Settlement.Remainders.{finished}
use oclob.Settlement.Usage.{usage, used}

-- What releasing the order of a commitment did to the reservations.
pub record Released (commitment : Digest32) (book book' : ReservationBook) : Type 0 where
  pub id : Digest32
  pub order : ReservationRecord
  pub found : find_reservation commitment "reservation is absent" book ≡ ok (id, order)
  pub was_active : is_active order.status ≡ true
  pub closed : get id book'.records ≡ some (finished order ReservationStatus.released)
  pub returned :
      (handle : Digest32) (kind : ReservationKind)
      → used handle kind book' + usage handle kind order ≡ used handle kind book

-- ===== src/Settlement/Checked.antt =====
-- What the guards of `settle_batch_collaborative` on its fills say of them.
use oclob.Base.{
  ◌≡◌, ◌<◌, refl, false, ◌||◌, List, [], ◌∷◌, arith, All, contains, ||-false, length, is_empty, ltb,
  ◌==◌, ◌!=◌,
}
use oclob.Crypto.{Digest32}
use oclob.Order.{max_match_slots}
use oclob.Order.Authority.{OrderCommitment}
use oclob.Book.Operations.Transitions.{PublicFill}
use oclob.Proofs.{other_taker}
use oclob.Ordering.Sets.{Unique}
use oclob.Settlement.Batch.{CollaborativeFillProof, has_empty_fill, has_repeated_maker}

-- The orders that the fills were made with.
abbrev pub makers : List PublicFill → List Digest32
makers [] = []
makers (fill ∷ fills) = fill.maker_order ∷ makers fills

pub has_empty_fill-false :
    (fills : List PublicFill)
    → has_empty_fill fills ≡ false
    → All (λ fill. (0 < fill.quantity) × (0 < fill.price)) fills
has_empty_fill-false [] h = tt
has_empty_fill-false (fill ∷ fills) h =
    let (here, rest) = ||-false (fill.quantity == 0 || fill.price == 0) (has_empty_fill fills) h in
    ((ground (arith, here), ground (arith, here)), has_empty_fill-false fills rest)

pub other_taker-false :
    (arriving : OrderCommitment) (fills : List PublicFill)
    → other_taker arriving fills ≡ false
    → All (λ fill. fill.taker_order ≡ arriving) fills
other_taker-false arriving [] h = tt
other_taker-false arriving (fill ∷ fills) h =
    let (here, rest) = ||-false (fill.taker_order != arriving) (other_taker arriving fills) h in
    (ground (arith, here), other_taker-false arriving fills rest)

-- None of the orders seen is among the makers of the fills.
abbrev AreApart : List Digest32 → List Digest32 → Type 0
AreApart seen ms = All (λ s. contains s ms ≡ false) seen

none_apart : (seen : List Digest32) → AreApart seen []
none_apart [] = tt
none_apart (s ∷ seen) = (refl, none_apart seen)

apart_cons :
    (m : Digest32) (ms seen : List Digest32)
    → contains m seen ≡ false
    → AreApart seen ms
    → AreApart seen (m ∷ ms)
apart_cons m ms [] new h = tt
apart_cons m ms (s ∷ seen) new (here, rest) =
    (ground (arith, new, here), apart_cons m ms seen (ground (arith, new)) rest)

pub has_repeated_maker-false :
    (seen : List Digest32) (fills : List PublicFill)
    → has_repeated_maker seen fills ≡ false
    → Unique (makers fills) × AreApart seen (makers fills)
has_repeated_maker-false seen [] h = (tt, none_apart seen)
has_repeated_maker-false seen (fill ∷ fills) h =
    let m = fill.maker_order in
    let (new, rest) = ||-false (contains m seen) (has_repeated_maker (m ∷ seen) fills) h in
    let (unique, (first, apart)) = has_repeated_maker-false (m ∷ seen) fills rest in
    ((first, unique), apart_cons m (makers fills) seen new apart)

-- The fifth guard of the first refusal.
pub has_empty_fill_of :
    (fills : List PublicFill) (proofs : List CollaborativeFillProof) (round_id : Digest32)
    (arriving : OrderCommitment)
    → (is_empty fills
        || (length fills != length proofs
            || (ltb max_match_slots (length fills)
                || (round_id == 0 || (has_empty_fill fills || other_taker arriving fills)))))
      ≡ false
    → has_empty_fill fills ≡ false
has_empty_fill_of fills proofs round_id arriving h =
    let (a, r1) = ||-false (is_empty fills) _ h in
    let (b, r2) = ||-false (length fills != length proofs) _ r1 in
    let (c, r3) = ||-false (ltb max_match_slots (length fills)) _ r2 in
    let (d, r4) = ||-false (round_id == 0) _ r3 in
    (||-false (has_empty_fill fills) (other_taker arriving fills) r4).0

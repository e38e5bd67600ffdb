-- ===== src/Book/Operations/Transitions.antt =====
-- Cancellation commands, and what the operations on the book report.
use oclob.Base.{ℕ, Option, List, ◌++◌, ◌||◌, Result, ok, ◌>>◌, reject_if, be_bytes, ◌==◌}
use oclob.Crypto.{Primitives, Digest32, codes}
use oclob.Order.{OrderError}
use oclob.Order.Authority.{OrderCommitment}
use oclob.Book.Roots.{PublicBookSnapshot}

pub record PublicFill : Type 0 where
  pub maker_order : OrderCommitment
  pub taker_order : OrderCommitment
  pub price : ℕ
  pub quantity : ℕ

pub record BookTransition : Type 0 where
  pub sequence : ℕ
  pub private_before_root : Digest32
  pub private_after_root : Digest32
  pub public_before_root : Digest32
  pub public_after : PublicBookSnapshot
  pub fill : Option PublicFill
  pub fills : List PublicFill
  pub arriving_remaining : ℕ

pub record SecretCancellation : Type 0 where
  pub target : OrderCommitment
  pub secret : Digest32
  pub nonce : Digest32
  pub salt : Digest32

-- `SecretCancellation::new`
unfoldable pub new_cancellation :
    OrderCommitment → Digest32 → Digest32 → Digest32 → Result SecretCancellation OrderError
new_cancellation target secret nonce salt = do
  reject_if (target == 0 || (secret == 0 || (nonce == 0 || salt == 0)))
      (OrderError.invalid "cancellation fields are required")
  ok (record { target = target; secret = secret; nonce = nonce; salt = salt })

-- `SecretCancellation::commitment`
unfoldable pub cancellation_commitment : Primitives → SecretCancellation → OrderCommitment
cancellation_commitment p c = p.sha256 (
    codes "OCLOB:CANCELLATION-COMMITMENT:v2"
    ++ be_bytes 32 c.salt
    ++ be_bytes 32 c.target
    ++ be_bytes 32 c.secret
    ++ be_bytes 32 c.nonce)

pub record CancellationTransition : Type 0 where
  pub sequence : ℕ
  pub cancellation_commitment : OrderCommitment
  pub target_commitment : OrderCommitment
  pub released_quantity : ℕ
  pub private_before_root : Digest32
  pub private_after_root : Digest32
  pub public_before_root : Digest32
  pub public_after : PublicBookSnapshot

pub record ExpiryTransition : Type 0 where
  pub sequence : ℕ
  pub expiry_commitment : OrderCommitment
  pub cutoff : ℕ
  pub expired_orders : List OrderCommitment
  pub released_quantity : ℕ
  pub private_before_root : Digest32
  pub private_after_root : Digest32
  pub public_before_root : Digest32
  pub public_after : PublicBookSnapshot

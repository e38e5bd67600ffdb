-- ===== src/Ordering/Equivocation.antt =====
-- A node never votes for two statements at one sequence number, whatever it is asked.
use oclob.Base.{
  ℕ, ◌≡◌, refl, sym, Bool, true, false, some, List, [], ◌∷◌, Result, ok, err, arith, All, get,
  insert, get-insert, be_bytes, if◌then◌else◌,
}
use oclob.Crypto.{Primitives, Digest32, Signature, SignatureError, try_sign}
use oclob.Ordering.{
  OrderingError, OrderingNode, OrderVote, Statement, is_malformed, vote_digest, equivocates, vote,
}

-- The votes that a node casts, each with its sequence number, over a list of requests. A request
-- is a statement and the time at which it is made.
abbrev later_votes :
    Statement → Result OrderVote OrderingError → List (ℕ × OrderVote) → List (ℕ × OrderVote)
later_votes s (ok v) later = (s.sequence, v) ∷ later
later_votes s (err e) later = later

pub votes_cast : Primitives → List (Statement × ℕ) → OrderingNode → List (ℕ × OrderVote)
votes_cast p [] node = []
votes_cast p ((s, now) ∷ requests) node =
    later_votes s (vote p s now node).0 (votes_cast p requests (vote p s now node).1)

-- Votes at one sequence number are for one statement.
abbrev pub AreConsistent : List (ℕ × OrderVote) → Type 0
AreConsistent [] = Unit
AreConsistent ((q, v) ∷ votes) =
    All (λ (w : ℕ × OrderVote). w.0 ≡ q → w.1.statement_digest ≡ v.statement_digest) votes
    × AreConsistent votes

module _ (p : Primitives) where
  -- A vote that is cast conflicts with nothing on record and is recorded; a refusal changes
  -- nothing.
  abbrev pub Outcome :
      Statement → OrderingNode → Result OrderVote OrderingError × OrderingNode → Type 0
  Outcome s node (ok v, node') =
      (equivocates p node s ≡ false)
      × (v.statement_digest ≡ vote_digest p s)
      × (v.node_id ≡ node.id)
      × (node' ≡ record node { voted = insert s.sequence (vote_digest p s) node.voted })
  Outcome s node (err e, node') = node' ≡ node

  vote_step :
      (s : Statement) (node : OrderingNode) (malformed conflict : Bool)
      (signed : Result Signature SignatureError)
      → conflict ≡ equivocates p node s
      → Outcome s node (
          if malformed
          then (err OrderingError.invalid_vote, node)
          else if conflict
          then (err OrderingError.equivocation, node)
          else elim signed [
            | err _ ↦ (err OrderingError.invalid_vote, node)
            | ok signature ↦ (
              ok (record {
                node_id = node.id;
                statement_digest = vote_digest p s;
                signature = signature.bytes;
              }),
              record node { voted = insert s.sequence (vote_digest p s) node.voted },
            )
          ])
  vote_step s node true conflict signed e = refl
  vote_step s node false true signed e = refl
  vote_step s node false false (err f) e = refl
  vote_step s node false false (ok signature) e = (sym e, refl, refl, refl)

  pub vote-Outcome :
      (s : Statement) (now : ℕ) (node : OrderingNode) → Outcome s node (vote p s now node)
  unfolding vote
  vote-Outcome s now node =
      vote_step s node (is_malformed s now) (equivocates p node s)
        (try_sign p node.key (be_bytes 32 (vote_digest p s))) refl

  -- What the node recorded for the sequence number binds this vote and stays on record.
  bound_step :
      (sequence : ℕ) (digest : Digest32) (s : Statement) (node : OrderingNode)
      (result : Result OrderVote OrderingError) (node' : OrderingNode)
      → Outcome s node (result, node')
      → get sequence node.voted ≡ some digest
      → (get sequence node'.voted ≡ some digest)
        × ((v : OrderVote) → result ≡ ok v → s.sequence ≡ sequence → v.statement_digest ≡ digest)
  bound_step sequence digest s node (err e) node' o h = (rw o h, λ v r q. absurd (cc))
  bound_step sequence digest s node (ok w) node' o h =
      let agree : s.sequence ≡ sequence → vote_digest p s ≡ digest =
        λ same. ground (arith, o.0, same, h) in
      (rw o.3 (rw get-insert (ground (arith, agree))), λ v r q. ground (arith, o.1, agree q))

  abbrev Bound : ℕ → Digest32 → ℕ × OrderVote → Type 0
  Bound sequence digest w = w.0 ≡ sequence → w.1.statement_digest ≡ digest

  later-Bound :
      (sequence : ℕ) (digest : Digest32) (s : Statement) (result : Result OrderVote OrderingError)
      (later : List (ℕ × OrderVote))
      → ((v : OrderVote) → result ≡ ok v → s.sequence ≡ sequence → v.statement_digest ≡ digest)
      → All (Bound sequence digest) later
      → All (Bound sequence digest) (later_votes s result later)
  later-Bound sequence digest s (ok v) later h l = (h v refl, l)
  later-Bound sequence digest s (err e) later h l = l

  votes_cast-Bound :
      (sequence : ℕ) (digest : Digest32) (requests : List (Statement × ℕ)) (node : OrderingNode)
      → get sequence node.voted ≡ some digest
      → All (Bound sequence digest) (votes_cast p requests node)
  unfolding votes_cast
  votes_cast-Bound sequence digest [] node h = tt
  votes_cast-Bound sequence digest ((s, now) ∷ requests) node h =
      let (result, node') = vote p s now node in
      let (kept, bound) =
        bound_step sequence digest s node result node' (vote-Outcome s now node) h in
      later-Bound sequence digest s result (votes_cast p requests node') bound
        (votes_cast-Bound sequence digest requests node' kept)

  consistent_step :
      (s : Statement) (node : OrderingNode) (result : Result OrderVote OrderingError)
      (node' : OrderingNode) (requests : List (Statement × ℕ))
      → Outcome s node (result, node')
      → AreConsistent (votes_cast p requests node')
      → AreConsistent (later_votes s result (votes_cast p requests node'))
  consistent_step s node (err e) node' requests o c = c
  consistent_step s node (ok v) node' requests o c =
      let recorded : get s.sequence node'.voted ≡ some v.statement_digest =
        rw o.3 (rw get-insert (ground (arith, o.1))) in
      (votes_cast-Bound s.sequence v.statement_digest requests node' recorded, c)

  -- Whatever statements a node is asked to vote for, and whatever it had on record before, the
  -- votes that it casts at one sequence number are all for one statement.
  pub votes_cast-AreConsistent :
      (requests : List (Statement × ℕ)) (node : OrderingNode)
      → AreConsistent (votes_cast p requests node)
  unfolding votes_cast
  votes_cast-AreConsistent [] node = tt
  votes_cast-AreConsistent ((s, now) ∷ requests) node =
      let (result, node') = vote p s now node in
      consistent_step s node result node' requests (vote-Outcome s now node)
        (votes_cast-AreConsistent requests node')

-- ===== src/Local/BlockWait.antt =====
-- `waitForAllValidatorsToAcceptBlock` of tests/local/network_utils.go.
use teleporter.Base.{
  ℕ, zero, suc, ◌+◌, ◌<◌, ◌≤◌, leb, ◌≡◌, refl, List, [], ◌∷◌, Option, none, some, if◌then◌else◌,
  arith, true, Bool-cases, inl, inr,
}
use teleporter.Base.{Outcome, ok, fail, panic, wrap}
use teleporter.Text.{Text}
use teleporter.Bindings.Types.{Hash}
use teleporter.Suite.Uri.{http_to_websocket_uri}
use mathlib.Core.Path.{subst}
use teleporter.Local.{LocalLib}

le→leb : (a b : ℕ) → a ≤ b → leb a b ≡ true
le→leb a b h = ground arith

module _ (L : LocalLib) (blockchain_id : Hash) (height : ℕ) where
  -- The loop on one client, on a bound of its rounds: `none` says that it is still running after them.
  unfoldable pub wait_for_height : L.Client → ℕ → ℕ → Option (Outcome (Unit {0}))
  wait_for_height client zero n = none
  wait_for_height client (suc rounds) n =
      let rest = wait_for_height client rounds (n + 1) in
      elim (L.block_number client n) [
        | ok number ↦ if leb height number then some (ok tt) else rest
        | fail e ↦ some (panic (wrap "Expect(err)" e))
        | panic e ↦ some (panic e)
      ]

  -- The next round of the outer loop, if the last one did not end the test.
  unfoldable pub and_then :
      Option (Outcome (Unit {0})) → Option (Outcome (Unit {0})) → Option (Outcome (Unit {0}))
  and_then none next = none
  and_then (some (ok done)) next = next
  and_then (some (fail e)) next = some (fail e)
  and_then (some (panic e)) next = some (panic e)

  -- The dialled client's loop.
  unfoldable pub wait_for_node : Outcome L.Client → ℕ → Option (Outcome (Unit {0}))
  wait_for_node (ok client) rounds = wait_for_height client rounds 0
  wait_for_node (fail e) rounds = some (panic (wrap "Expect(err)" e))
  wait_for_node (panic e) rounds = some (panic e)

  unfoldable pub wait_for_all_validators_to_accept_block :
      List Text → ℕ → Option (Outcome (Unit {0}))
  wait_for_all_validators_to_accept_block [] rounds = some (ok tt)
  wait_for_all_validators_to_accept_block (uri ∷ node_uris) rounds =
      let rest = wait_for_all_validators_to_accept_block node_uris rounds in
      and_then
        (wait_for_node (L.dial (http_to_websocket_uri uri (L.id_string blockchain_id))) rounds) rest

  -- The node can be dialled, answers without an error, and is at the height in some round below the bound.
  abbrev pub HasAccepted : ℕ → Text → Type 0
  HasAccepted rounds uri =
      (client : L.Client) × (n : ℕ) × (number : ℕ) × (L.dial
          (http_to_websocket_uri uri (L.id_string blockchain_id))
        ≡ ok client)
      × (n < rounds)
      × (L.block_number client n ≡ ok number)
      × (height ≤ number)

  abbrev pub AllAccepted : ℕ → List Text → Type 0
  AllAccepted rounds [] = Unit {0}
  AllAccepted rounds (uri ∷ uris) = HasAccepted rounds uri × AllAccepted rounds uris

  wait_for_height_sound :
      (client : L.Client) (rounds n : ℕ) (done : Unit {0})
      → wait_for_height client rounds n ≡ some (ok done)
      → (m : ℕ) × (number : ℕ) × (m < n + rounds)
        × (L.block_number client m ≡ ok number)
        × (height ≤ number)
  unfolding wait_for_height
  wait_for_height_sound client zero n done h = cc
  wait_for_height_sound client (suc rounds) n done h =
      reached (L.block_number client n) refl h λ later.
        let (m, number, early, at, high) = wait_for_height_sound client rounds (n + 1) done later in
        (m, number, omega arith, at, high)
    where
      reached :
          (o : Outcome ℕ)
          → L.block_number client n ≡ o
          → elim o [
            | ok number ↦
                if leb height number then some (ok tt) else wait_for_height client rounds (n + 1)
            | fail e ↦ some (panic (wrap "Expect(err)" e))
            | panic e ↦ some (panic e)
          ]
            ≡ some (ok done)
          → (wait_for_height client rounds (n + 1) ≡ some (ok done)
              → (m : ℕ) × (number : ℕ) × (m < n + suc rounds)
                × (L.block_number client m ≡ ok number)
                × (height ≤ number))
          → (m : ℕ) × (number : ℕ) × (m < n + suc rounds)
            × (L.block_number client m ≡ ok number)
            × (height ≤ number)
      reached (ok number) e h later = elim (Bool-cases (leb height number)) [
        | inl high ↦ (n, number, omega arith, e, ground arith)
        | inr low ↦ later (rw (low) at h)
      ]
      reached (fail x) e h later = cc
      reached (panic x) e h later = cc

  wait_for_height_ends :
      (client : L.Client)
      → ((i : ℕ) → (number : ℕ) × (L.block_number client i ≡ ok number))
      → (k n rounds number : ℕ) → L.block_number client (n + k) ≡ ok number
      → height ≤ number
      → k < rounds
      → wait_for_height client rounds n ≡ some (ok tt)
  unfolding wait_for_height
  wait_for_height_ends client answers k n zero number at high fits = absurd (omega arith)
  wait_for_height_ends client answers zero n (suc rounds) number at high fits =
      let here : n + 0 ≡ n = omega arith in
      let now = subst (λ m. L.block_number client m ≡ ok number) here at in
      rw (now, wait_for_height, le→leb height number high)
  wait_for_height_ends client answers (suc k) n (suc rounds) number at high fits =
      let next : n + suc k ≡ n + 1 + k = omega arith in
      let (now, answered) = answers n in
      let rest =
        wait_for_height_ends client answers k (n + 1) rounds number
          (subst (λ m. L.block_number client m ≡ ok number) next at) high (omega arith) in
      elim (Bool-cases (leb height now)) [
        | inl early ↦ rw (answered, wait_for_height, early)
        | inr low ↦ rw (answered, wait_for_height, low) rest
      ]

  wait_for_node_sound :
      (uri : Text) (o : Outcome L.Client) (rounds : ℕ) (done : Unit {0})
      → L.dial (http_to_websocket_uri uri (L.id_string blockchain_id)) ≡ o
      → wait_for_node o rounds ≡ some (ok done)
      → HasAccepted rounds uri
  unfolding wait_for_node
  wait_for_node_sound uri (ok client) rounds done e h =
      let (m, number, early, at, high) = wait_for_height_sound client rounds 0 done h in
      (client, m, number, e, omega arith, at, high)
  wait_for_node_sound uri (fail x) rounds done e h = cc
  wait_for_node_sound uri (panic x) rounds done e h = cc

  and_then-eq-ok :
      (o next : Option (Outcome (Unit {0}))) (done : Unit {0})
      → and_then o next ≡ some (ok done)
      → ((d : Unit {0}) × (o ≡ some (ok d))) × (next ≡ some (ok done))
  unfolding and_then
  and_then-eq-ok none next done h = cc
  and_then-eq-ok (some (ok d)) next done h = ((d, refl), h)
  and_then-eq-ok (some (fail e)) next done h = cc
  and_then-eq-ok (some (panic e)) next done h = cc

  -- When the wait comes back, every node was dialled and said in some round that it is at the height or above it.
  pub wait_for_all_validators_to_accept_block-AllAccepted :
      (uris : List Text) (rounds : ℕ) (done : Unit {0})
      → wait_for_all_validators_to_accept_block uris rounds ≡ some (ok done)
      → AllAccepted rounds uris
  unfolding wait_for_all_validators_to_accept_block
  wait_for_all_validators_to_accept_block-AllAccepted [] rounds done h = tt
  wait_for_all_validators_to_accept_block-AllAccepted (uri ∷ uris) rounds done h =
      let dialled = L.dial (http_to_websocket_uri uri (L.id_string blockchain_id)) in
      let ((d, here), rest) = and_then-eq-ok (wait_for_node dialled rounds) _ done h in
      (
        wait_for_node_sound uri dialled rounds d refl here,
        wait_for_all_validators_to_accept_block-AllAccepted uris rounds done rest,
      )

  -- If no request for a block fails and every node is at the height in some round below the bound, the wait comes back.
  pub wait_for_all_validators_to_accept_block_ends :
      ((client : L.Client) (i : ℕ) → (number : ℕ) × (L.block_number client i ≡ ok number))
      → (uris : List Text) (rounds : ℕ) → AllAccepted rounds uris
      → wait_for_all_validators_to_accept_block uris rounds ≡ some (ok tt)
  unfolding wait_for_all_validators_to_accept_block and_then wait_for_node
  wait_for_all_validators_to_accept_block_ends answers [] rounds h = refl
  wait_for_all_validators_to_accept_block_ends answers (uri ∷ uris) rounds
        ((client, m, number, dialled, early, at, high), h) =
      let here : m ≡ 0 + m = omega arith in
      let waited =
        wait_for_height_ends client (answers client) m 0 rounds number
          (subst (λ i. L.block_number client i ≡ ok number) here at) high early in
      rw (dialled, waited, wait_for_all_validators_to_accept_block_ends answers uris rounds h)

-- ===== src/Local/Deployment/Loop.antt =====
-- The loops over the subnets of tests/local/network.go that set a field of every subnet.
use mathlib.Core.Option
use mathlib.Core.Path.{subst}
use teleporter.Base.{
  ℕ, ◌==◌, ◌≡◌, refl, sym, ap, ◌∙◌, ◌⊎◌, inl, inr, true, List, [], ◌∷◌, Option, some, Outcome, ok,
  >>=-eq-ok, ok-injective, Bool-cases, arith,
}
use teleporter.Bindings.Types.{Address, Hash}
use teleporter.Local.{LocalSubnetInfo}
use teleporter.Local.Values.{assign}
use teleporter.Local.Relay.{RelayLib}
use teleporter.Local.Deployment.{DeploymentLib, Deploying, for_each}

eq_of_test : (a b : ℕ) → (a == b) ≡ true → a ≡ b
eq_of_test a b h = ground arith

-- Every member of the list has it.
abbrev pub AllOf : {A : Type 0} → (A → Type 0) → List A → Type 0
AllOf P [] = Unit {0}
AllOf P (x ∷ xs) = P x × AllOf P xs

pub AllOf-map :
    {A : Type 0} {P Q : A → Type 0}
    → ((x : A) → P x → Q x)
    → (xs : List A) → AllOf P xs
    → AllOf Q xs
AllOf-map f [] all = tt
AllOf-map f (x ∷ xs) all = (f x all.0, AllOf-map f xs all.1)

module _ (R : RelayLib) (D : DeploymentLib R) where
  abbrev pub Info : Type 0
  Info = LocalSubnetInfo R.local

  abbrev pub infos : Deploying R D → Hash → Option Info
  infos s = s.network.subnets_info

  -- `Good` is what a turn makes of the struct of its subnet, `strip` what it leaves of it.
  module _ (Good : Info → Type 0) (strip : Info → Info) where
    abbrev pub HasGood : Deploying R D → Hash → Type 0
    HasGood s id = (info : Info) × (infos s id ≡ some info) × Good info

    pub record Turned (subnet : Info) (s t : Deploying R D) : Type 0 where
      pub before : Info
      pub after : Info
      pub found : infos s subnet.subnet_id ≡ some before
      pub assigned : infos t ≡ assign (infos s) subnet.subnet_id (some after)
      pub good : Good after
      pub kept : strip after ≡ strip before
      pub same_address : t.teleporter_contract_address ≡ s.teleporter_contract_address

    assigned_at :
        (m : Hash → Option Info) (id k : Hash) (value : Info)
        → ((k ≡ id) × (assign m id (some value) k ≡ some value))
          ⊎ (assign m id (some value) k ≡ m k)
    unfolding assign
    assigned_at m id k value = elim (Bool-cases (k == id)) [
      | inl same ↦ inl (eq_of_test k id same, ground arith)
      | inr other ↦ inr (ground arith)
    ]

    Turned-HasGood :
        (subnet : Info) (s t : Deploying R D) (k : Hash)
        → Turned subnet s t
        → HasGood s k
        → HasGood t k
    Turned-HasGood subnet s t k turned has =
        elim (assigned_at (infos s) subnet.subnet_id k turned.after) [
          | inl (same, e) ↦ (turned.after, ap (λ f. f k) turned.assigned ∙ e, turned.good)
          | inr e ↦ (has.0, ap (λ f. f k) turned.assigned ∙ e ∙ has.1, has.2)
        ]

    Turned-strip :
        (subnet : Info) (s t : Deploying R D) (k : Hash)
        → Turned subnet s t
        → Option.map strip (infos t k) ≡ Option.map strip (infos s k)
    Turned-strip subnet s t k turned =
        elim (assigned_at (infos s) subnet.subnet_id k turned.after) [
          | inl (same, e) ↦
              ap (Option.map strip) (ap (λ f. f k) turned.assigned ∙ e)
              ∙ ap some turned.kept
              ∙ sym (ap (Option.map strip) (ap (infos s) same ∙ turned.found))
          | inr e ↦ ap (Option.map strip) (ap (λ f. f k) turned.assigned ∙ e)
        ]

    assigned_here :
        (m : Hash → Option Info) (id : Hash) (value : Info)
        → assign m id (some value) id ≡ some value
    unfolding assign
    assigned_here m id value = ground arith

    Turned-here :
        (subnet : Info) (s t : Deploying R D) → Turned subnet s t → HasGood t subnet.subnet_id
    Turned-here subnet s t turned = (
      turned.after,
      ap (λ f. f subnet.subnet_id) turned.assigned
          ∙ assigned_here (infos s) subnet.subnet_id turned.after,
      turned.good,
    )

    -- A loop whose turns succeed: every subnet of the list has what a turn makes, and nothing else has changed.
    unfoldable pub Looped :
        (Info → Type 0) → List Info → Deploying R D → Deploying R D → Address → Type 0
    Looped Did xs s t address =
        AllOf (λ x. HasGood t x.subnet_id × Did x) xs
        × ((k : Hash) → Option.map strip (infos t k) ≡ Option.map strip (infos s k))
        × ((k : Hash) → HasGood s k → HasGood t k)
        × (t.teleporter_contract_address ≡ address)

    pub for_each-Looped :
        (turn : Info → Deploying R D → Outcome (Deploying R D)) (Did : Info → Type 0)
        (address : Address)
        (turns : (x : Info) (s t : Deploying R D)
          → s.teleporter_contract_address ≡ address
          → turn x s ≡ ok t
          → Turned x s t × Did x)
        (xs : List Info) (s t : Deploying R D)
        → s.teleporter_contract_address ≡ address
        → for_each R D turn xs s ≡ ok t
        → Looped Did xs s t address
    unfolding for_each Looped
    for_each-Looped turn Did address turns [] s t same h =
        let e = ok-injective h in
        subst
          (λ u.
            Unit {0}
            × ((k : Hash) → Option.map strip (infos u k) ≡ Option.map strip (infos s k))
            × ((k : Hash) → HasGood s k → HasGood u k)
            × (u.teleporter_contract_address ≡ address))
          e (tt, λ k. refl, λ k has. has, same)
    for_each-Looped turn Did address turns (x ∷ xs) s t same h =
        let (mid, first, rest) = >>=-eq-ok (turn x s) _ h in
        let (turned, did) = turns x s mid same first in
        let (all, stripped, keeps, at) =
          for_each-Looped turn Did address turns xs mid t (turned.same_address ∙ same) rest in
        (
          ((keeps x.subnet_id (Turned-here x s mid turned), did), all),
          λ k. stripped k ∙ Turned-strip x s mid k turned,
          λ k has. keeps k (Turned-HasGood x s mid k turned has),
          at,
        )

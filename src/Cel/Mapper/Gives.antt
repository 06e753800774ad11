-- ===== src/Cel/Mapper/Gives.antt =====
-- Rules for what a visit of the mapper gives, by the ways in which a visit is put together.
use keep_api_gateway.Prelude.{
  Bool, true, false, not, ◌&&◌, Option, none, some, List, ok, err, ◌>>=◌, ◌≡◌, refl, ap, arith,
}
use keep_api_gateway.Cel.Ast.{
  UnaryNodeOperator, negation, LogicalNodeOperator, and, or, Node, unary, Operand,
}
use keep_api_gateway.Cel.Metadata.{PropertyMetadataInfo}
use keep_api_gateway.Cel.Meaning.{Row, connect, holds, passes}
use keep_api_gateway.Cel.Mapper.Spec.{is_none, agree}
use keep_api_gateway.Cel.Mapper.{Visit, visit_again, operand_of, join_sides}

-- What a visit gives when it raises nothing.
abbrev pub Gives : (Option Node → Type 0) → Visit → Type 0
Gives P (ok (m, fs)) = P m
Gives P (err e) = Unit

pub Gives-bind :
    {P : Option Node → Type 0} (Q : Option Node → Type 0) (r : Visit)
    (k : Option Node × List PropertyMetadataInfo → Visit)
    → Gives P r
    → ((m : Option Node) (fs : List PropertyMetadataInfo) → P m → Gives Q (k (m, fs)))
    → Gives Q (r >>= k)
Gives-bind Q (ok (m, fs)) k h f = f m fs h
Gives-bind Q (err e) k h f = tt

pub Gives-map :
    {P : Option Node → Type 0} (Q : Option Node → Type 0) (r : Visit)
    → Gives P r
    → ((m : Option Node) → P m → Q m)
    → Gives Q r
Gives-map Q (ok (m, fs)) h f = f m h
Gives-map Q (err e) h f = tt

-- A filter is dropped as `dropped` says and, if `kept`, lets pass the rows of which `truth` holds.
abbrev pub Is : Row → (dropped kept truth : Bool) → Option Node → Type 0
Is row dropped kept truth m = (is_none m ≡ dropped) × (kept ≡ true → passes row m ≡ truth)

-- The trees under an `||` must be dropped both or not at all.
abbrev pub joint : LogicalNodeOperator → Bool → Bool → Bool → Bool
joint and dl dr k = k
joint or dl dr k = agree dl dr && k

module _ (row : Row) (dl kl tl dr kr tr : Bool) where
  pub Is-join_sides :
      (op : LogicalNodeOperator) (a b : Option Node)
      → Is row dl kl tl a
      → Is row dr kr tr b
      → Is row (dl && dr) (joint op dl dr (kl && kr)) (connect op tl tr) (join_sides op a b)
  unfolding holds
  Is-join_sides and none none x y = ground arith
  Is-join_sides and none (some n) x y = ground arith
  Is-join_sides and (some m) none x y = ground arith
  Is-join_sides and (some m) (some n) x y = ground arith
  Is-join_sides or none none x y = ground arith
  Is-join_sides or none (some n) x y = ground arith
  Is-join_sides or (some m) none x y = ground arith
  Is-join_sides or (some m) (some n) x y = ground arith

-- An operand that is visited twice.
module _ (row : Row) (d k t : Bool) (visit : List PropertyMetadataInfo → Visit)
    (h : (fs : List PropertyMetadataInfo) → Gives (Is row d k t) (visit fs)) where
  pub Is-negation_again :
      (m again : Option Node)
      → Is row d k t m
      → Is row d k t again
      → is_none m ≡ false
      → Is row false k (not t) (some (unary negation (operand_of again)))
  unfolding holds
  Is-negation_again m none a b e = ground arith
  Is-negation_again m (some n) a b e = ground arith

  pub Is-visit_again :
      (fs : List PropertyMetadataInfo)
      → Gives (Is row false k (not t)) (visit fs >>= visit_again negation visit)
  unfolding holds
  Is-visit_again fs =
      Gives-bind (Is row false k (not t)) (visit fs) (visit_again negation visit) (h fs) go
    where
      go :
          (m : Option Node) (fs₁ : List PropertyMetadataInfo)
          → Is row d k t m
          → Gives (Is row false k (not t)) (visit_again negation visit (m, fs₁))
      go none fs₁ a = (refl, λ e. ap not (a.1 e))
      go (some n) fs₁ a =
          Gives-bind (Is row false k (not t)) (visit fs₁) _ (h fs₁)
            λ again fs₂ b. Is-negation_again (some n) again a b refl

-- A unary node that lets no row pass, or is not kept.
module _ (row : Row) (op : UnaryNodeOperator) (k : Bool)
    (rejects : (x : Operand) → k ≡ true → holds row (unary op x) ≡ false)
    (visit : List PropertyMetadataInfo → Visit) where
  pub Is-second_visit :
      (r : Visit)
      → Gives
          (Is row false k false)
          (do (again, involved₂) ← r; ok (some (unary op (operand_of again)), involved₂))
  Is-second_visit (ok (m, fs)) = (refl, rejects (operand_of m))
  Is-second_visit (err e) = tt

  pub Is-first_visit : (r : Visit) → Gives (Is row false k false) (r >>= visit_again op visit)
  Is-first_visit (ok (none, fs)) = (refl, rejects _)
  Is-first_visit (ok (some m, fs)) = Is-second_visit (visit fs)
  Is-first_visit (err e) = tt

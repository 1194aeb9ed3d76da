-- ===== src/Predicate/Admitted.antt =====
-- Which filters `_validate_node` lets through.
use carbonpaper.Prelude.{
  ◌≡◌, refl, sym, subst, ◌↔◌, Bool, true, false, String, List, [], ◌∷◌, ◌++◌, all, contains,
  string_eq, ok, err, ◌>>=◌, All, All-mem, Memᴰ, arith, if◌then◌else◌,
}
use mathlib.Core.List.{append-nil}
use mathlib.Core.List.Memᴰ
use carbonpaper.Predicate.Syntax.{
  BinOperator, UnaryOperator, CompareOperator, Context, Node, Nodes, bool_op, bin_op, unary_op,
  compare, name, constant, attribute, call, other, nil, cons, load, to_list, children,
}
use carbonpaper.Predicate.Validate.{
  PredicateError, attribute_not_supported, Checked, allowed_attributes, is_compare_op, checked_ops,
  checked_bin_op, checked_unary_op, checked_call, checked_attribute, validate_name, validate_node,
  validate_each,
}

-- A node stands in a tree: it is its root, or stands in a child of the root.
pub data Occurs (m : Node) : Node → Type 0 where
  here : {n : Node} → n ≡ m → Occurs m n
  below : {n c : Node} → Memᴰ c (children n) → Occurs m c → Occurs m n

abbrev pub is_attribute : Node → Bool
is_attribute (attribute value attr) = true
is_attribute _ = false

abbrev pub is_combining : BinOperator → Bool
is_combining BinOperator.bit_and = true
is_combining BinOperator.bit_or = true
is_combining _ = false

-- The constructs of the dialect, whatever stands below them.
unfoldable pub is_admitted : Node → Bool
is_admitted (bool_op values) = true
is_admitted (bin_op left op right) = is_combining op
is_admitted (unary_op UnaryOperator.not_op operand) = true
is_admitted (unary_op op operand) = false
is_admitted (compare left ops comparators) = all is_compare_op ops
is_admitted (name id load) = true
is_admitted (name id _) = false
is_admitted (constant value) = true
is_admitted (attribute value attr) = contains allowed_attributes attr
is_admitted (call func args nil) = is_attribute func
is_admitted (call func args (cons _ _)) = false
is_admitted (other type nodes) = false

abbrev IsValid : Node → Type 0
IsValid n = validate_node n ≡ ok tt

checked_ops_iff :
    (ops : List CompareOperator) → (checked_ops ops ≡ ok tt) ↔ (all is_compare_op ops ≡ true)
checked_ops_iff [] = (λ h. refl, λ h. refl)
checked_ops_iff (op ∷ ops) = ground (arith, checked_ops_iff ops)

-- Two checks in a row pass exactly if both pass.
both : (a b : Checked) → ((a >>= λ _. b) ≡ ok tt) ↔ ((a ≡ ok tt) × (b ≡ ok tt))
both (ok tt) b = (λ h. (refl, h), λ h. h.1)
both (err e) b = (λ h. cc, λ h. cc)

validate_each_iff : (ns : Nodes) → (validate_each ns ≡ ok tt) ↔ All IsValid (to_list ns)
unfolding validate_node
validate_each_iff nil = (λ h. tt, λ h. refl)
validate_each_iff (cons n ns) =
    let b = both (validate_node n) (validate_each ns) in
    let rest = validate_each_iff ns in
    (λ h. ((b.0 h).0, rest.0 (b.0 h).1), λ h. b.1 (h.0, rest.1 h.1))

checked_bin_op_iff : (op : BinOperator) → (checked_bin_op op ≡ ok tt) ↔ (is_combining op ≡ true)
checked_bin_op_iff op = ground arith

checked_unary_op_iff :
    (op : UnaryOperator) (n : Node)
    → (checked_unary_op op ≡ ok tt) ↔ (is_admitted (unary_op op n) ≡ true)
unfolding is_admitted
checked_unary_op_iff op n = ground arith

validate_name_iff :
    (id : String) (context : Context)
    → (validate_name id context ≡ ok tt) ↔ (is_admitted (name id context) ≡ true)
unfolding is_admitted
validate_name_iff id context = ground arith

abbrev Passes : Checked → Type 0
Passes check = check ≡ ok tt

if_iff : (b : Bool) (e : PredicateError) → Passes (if b then ok tt else err e) ↔ (b ≡ true)
if_iff b e = ground arith

checked_attribute_iff :
    (attr : String) (n : Node)
    → Passes (checked_attribute attr) ↔ (is_admitted (attribute n attr) ≡ true)
unfolding is_admitted
checked_attribute_iff attr n =
    if_iff (contains allowed_attributes attr) (attribute_not_supported attr)

checked_call_iff :
    (func : Node) (args keywords : Nodes)
    → (checked_call func keywords ≡ ok tt) ↔ (is_admitted (call func args keywords) ≡ true)
unfolding is_admitted
checked_call_iff func args keywords = ground arith

true_not_false : false ≡ true → ⊥
true_not_false e = cc

-- A check with what is below the node: the check is the node's own, the rest that of its children.
validate_node_iff : (n : Node) → IsValid n ↔ ((is_admitted n ≡ true) × All IsValid (children n))
unfolding validate_node is_admitted
validate_node_iff (bool_op values) =
    let each = validate_each_iff values in (λ h. (refl, each.0 h), λ h. each.1 h.1)
validate_node_iff (bin_op left op right) =
    let c = checked_bin_op_iff op in
    let first = both (checked_bin_op op) (validate_node left >>= λ _. validate_node right) in
    let rest = both (validate_node left) (validate_node right) in
    (
      λ h. (c.0 (first.0 h).0, ((rest.0 (first.0 h).1).0, ((rest.0 (first.0 h).1).1, tt))),
      λ h. first.1 (c.1 h.0, rest.1 (h.1.0, h.1.1.0)),
    )
validate_node_iff (unary_op op operand) =
    let c = checked_unary_op_iff op operand in
    let first = both (checked_unary_op op) (validate_node operand) in
    (λ h. (c.0 (first.0 h).0, ((first.0 h).1, tt)), λ h. first.1 (c.1 h.0, h.1.0))
validate_node_iff (compare left ops comparators) =
    let c = checked_ops_iff ops in
    let each = validate_each_iff comparators in
    let first = both (checked_ops ops) (validate_node left >>= λ _. validate_each comparators) in
    let rest = both (validate_node left) (validate_each comparators) in
    (
      λ h. (c.0 (first.0 h).0, ((rest.0 (first.0 h).1).0, each.0 (rest.0 (first.0 h).1).1)),
      λ h. first.1 (c.1 h.0, rest.1 (h.1.0, each.1 h.1.1)),
    )
validate_node_iff (name id context) =
    let c = validate_name_iff id context in (λ h. (c.0 h, tt), λ h. c.1 h.0)
validate_node_iff (constant value) = (λ h. (refl, tt), λ h. refl)
validate_node_iff (attribute value attr) =
    let c = checked_attribute_iff attr value in
    let first = both (checked_attribute attr) (validate_node value) in
    (λ h. (c.0 (first.0 h).0, ((first.0 h).1, tt)), λ h. first.1 (c.1 h.0, h.1.0))
validate_node_iff (call func args nil) =
    let c = checked_call_iff func args nil in
    let each = validate_each_iff args in
    let first = both (checked_call func nil) (validate_node func >>= λ _. validate_each args) in
    let rest = both (validate_node func) (validate_each args) in
    (
      λ h. (
        c.0 (first.0 h).0,
        (
          (rest.0 (first.0 h).1).0,
          subst (All IsValid) (sym (append-nil (to_list args))) (each.0 (rest.0 (first.0 h).1).1),
        ),
      ),
      λ h.
          first.1 (
            c.1 h.0,
            rest.1 (h.1.0, each.1 (subst (All IsValid) (append-nil (to_list args)) h.1.1)),
          ),
    )
validate_node_iff (call func args (cons k ks)) =
    let first =
      both (checked_call func (cons k ks)) (validate_node func >>= λ _. validate_each args) in
    (
      λ h. absurd (true_not_false ((checked_call_iff func args (cons k ks)).0 (first.0 h).0)),
      λ h. absurd (true_not_false h.0),
    )
validate_node_iff (other type nodes) = (λ h. cc, λ h. cc)

-- Every node of an accepted tree is admitted.
accepted : {m n : Node} → IsValid n → Occurs m n → is_admitted m ≡ true
accepted {m} {n} v (here e) = subst (λ k. is_admitted k ≡ true) e ((validate_node_iff n).0 v).0
accepted {m} {n} v (below {c = c} i o) =
    accepted (All-mem IsValid (children n) ((validate_node_iff n).0 v).1 i) o

abbrev AllAdmitted : Node → Type 0
AllAdmitted n = (m : Node) → Occurs m n → is_admitted m ≡ true

All-append : (xs ys : List Node) → All IsValid xs → All IsValid ys → All IsValid (xs ++ ys)
All-append [] ys h k = k
All-append (x ∷ xs) ys h k = (h.0, All-append xs ys h.1 k)

in_child : {n c : Node} → AllAdmitted n → Memᴰ c (children n) → AllAdmitted c
in_child h i m o = h m (below i o)

validated : (n : Node) → AllAdmitted n → All IsValid (children n) → IsValid n
validated n h v = (validate_node_iff n).1 (h n (here refl), v)

mutual
  validates_children :
      (n : Node) → ((c : Node) → Memᴰ c (children n) → AllAdmitted c) → All IsValid (children n)
  validates_children (bool_op values) h = validates_each values h
  validates_children (bin_op left op right) h = (
    validated left (h left (Memᴰ.head refl))
        (validates_children left (λ c i. in_child (h left (Memᴰ.head refl)) i)),
    (
      validated right (h right (Memᴰ.tail (Memᴰ.head refl)))
          (validates_children right (λ c i. in_child (h right (Memᴰ.tail (Memᴰ.head refl))) i)),
      tt,
    ),
  )
  validates_children (unary_op op operand) h = (
    validated operand (h operand (Memᴰ.head refl))
        (validates_children operand (λ c i. in_child (h operand (Memᴰ.head refl)) i)),
    tt,
  )
  validates_children (compare left ops comparators) h = (
    validated left (h left (Memᴰ.head refl))
        (validates_children left (λ c i. in_child (h left (Memᴰ.head refl)) i)),
    validates_each comparators (λ c i. h c (Memᴰ.tail i)),
  )
  validates_children (name id context) h = tt
  validates_children (constant value) h = tt
  validates_children (attribute value attr) h = (
    validated value (h value (Memᴰ.head refl))
        (validates_children value (λ c i. in_child (h value (Memᴰ.head refl)) i)),
    tt,
  )
  validates_children (call func args keywords) h = (
    validated func (h func (Memᴰ.head refl))
        (validates_children func (λ c i. in_child (h func (Memᴰ.head refl)) i)),
    All-append (to_list args) (to_list keywords)
        (validates_each args (λ c i. h c (Memᴰ.tail (Memᴰ.append_left (to_list keywords) i))))
        (validates_each keywords (λ c i. h c (Memᴰ.tail (Memᴰ.append_right (to_list args) i)))),
  )
  validates_children (other type nodes) h = validates_each nodes h

  validates_each :
      (ns : Nodes) → ((c : Node) → Memᴰ c (to_list ns) → AllAdmitted c) → All IsValid (to_list ns)
  validates_each nil h = tt
  validates_each (cons n ns) h = (
    validated n (h n (Memᴰ.head refl))
        (validates_children n (λ c i. in_child (h n (Memᴰ.head refl)) i)),
    validates_each ns (λ c i. h c (Memᴰ.tail i)),
  )

validates : (n : Node) → AllAdmitted n → IsValid n
validates n h = validated n h (validates_children n (λ c i. in_child h i))

-- `_validate_node` raises nothing exactly if every node of the tree, at any depth, is of the closed
-- set: a Boolean operator, `&`, `|`, `not`, a comparison by order or equality, a name that is read,
-- a literal, an attribute of the list, or a call of an attribute without keywords.
pub validate_node-iff_admitted :
    (tree : Node)
    → (validate_node tree ≡ ok tt) ↔ ((m : Node) → Occurs m tree → is_admitted m ≡ true)
validate_node-iff_admitted tree = (λ v m o. accepted v o, validates tree)
